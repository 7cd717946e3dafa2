-- ===== src/HeadNode/Capture/Place.antt =====
-- The place in the ring for a heap's time.
use incoherent_beamformer.Common.{
  ℕ, ◌+◌, ◌*◌, ◌-◌, ◌/◌, ◌%◌, ◌^◌, ◌≡◌, ◌<◌, ◌≤◌, ◌⊎◌, inl, inr, none, some, arith, ltb, leb,
  Bool-cases, refl, sub64,
}
use incoherent_beamformer.HeadNode.Capture.{out_buffer_size, position}

-- The time since the first timestamp gives a place of the ring, or an overflow. There is none just
-- where that time is less than 2 ^ 37 after the first timestamp, or at most 2 ^ 37 before it.
pub position_lem :
    (tsdiff2 : ℕ)
    → tsdiff2 < 2 ^ 64
    → ((p : ℕ) × (position tsdiff2 ≡ some p)
        × (p < out_buffer_size / 2)
        × ((tsdiff2 < 2 ^ 37) ⊎ (2 ^ 64 ≤ tsdiff2 + 2 ^ 37)))
      ⊎ ((position tsdiff2 ≡ none) × (2 ^ 37 ≤ tsdiff2) × (tsdiff2 + 2 ^ 37 < 2 ^ 64))
unfolding position
position_lem d word = elim (Bool-cases (ltb d (2 ^ 63))) [
  | inl after ↦ elim (Bool-cases (ltb (d * 67108864) (2 ^ 63))) [
    | inl small ↦
        let ahead : d < 2 ^ 37 = ground arith in
        inl (
          d * 67108864 / 536870912 % out_buffer_size / 2,
          simp (after, small) refl,
          omega arith,
          inl ahead,
        )
    | inr large ↦ inr (ground arith, ground arith, ground arith)
  ]
  | inr before ↦ elim (Bool-cases (leb ((2 ^ 64 - d) * 67108864) (2 ^ 63))) [
    | inl small ↦
        let behind : 2 ^ 64 ≤ d + 2 ^ 37 = ground arith in
        inl (
          sub64 0 ((2 ^ 64 - d) * 67108864 / 536870912) % out_buffer_size / 2,
          simp (before, small) refl,
          omega arith,
          inr behind,
        )
    | inr large ↦ inr (ground arith, ground arith, ground arith)
  ]
]
