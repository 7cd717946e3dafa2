-- ===== src/ChildBeam/Ahead.antt =====
-- The bytes between two streams, by their timestamps.
use incoherent_beamformer.Common.{
  ℕ, ◌+◌, ◌*◌, ◌/◌, ◌^◌, ◌<◌, ◌≡◌, refl, true, false, not, ◌==◌, arith, ltb, u64, sub64, Bool-cases,
  inl, inr,
}
use incoherent_beamformer.ChildBeam.{alignment}

quotient_lem : (d k : ℕ) → d ≡ 2048 * k → k * 8192 < 2 ^ 64 → u64 (d / 2048 * 8192) ≡ k * 8192
quotient_lem d k h word = let e : d / 2048 ≡ k = omega arith in rw e (omega arith)

-- For streams whose first blocks are `k` heaps apart, the align buffer is to delay by `k` heaps of
-- 8192 bytes, whichever stream is the later one, and that one is delayed; streams that begin
-- together are delayed by nothing.
pub alignment_lem :
    (ts k : ℕ)
    → ts + 2048 * k < 2 ^ 64
    → k * 8192 < 2 ^ 64
    → (alignment (ts + 2048 * k) ts ≡ (not (k == 0), k * 8192))
      × (alignment ts (ts + 2048 * k) ≡ (false, k * 8192))
unfolding alignment
alignment_lem ts k h word =
    let same : u64 (sub64 (ts + 2048 * k) ts / 2048 * 8192) ≡ k * 8192 =
      quotient_lem (sub64 (ts + 2048 * k) ts) k (omega arith) word in
    let second : ltb (ts + 2048 * k) ts ≡ false = ground arith in
    (
      elim (Bool-cases (k == 0)) [
        | inl together ↦
            let first : ltb ts (ts + 2048 * k) ≡ false = ground arith in
            let none : u64 (sub64 ts (ts + 2048 * k) / 2048 * 8192) ≡ k * 8192 =
              quotient_lem (sub64 ts (ts + 2048 * k)) k (ground arith) word in
            rw (first, together, none) refl
        | inr apart ↦
            let first : ltb ts (ts + 2048 * k) ≡ true = ground arith in rw (first, apart, same) refl
      ],
      rw (second, same) refl,
    )
