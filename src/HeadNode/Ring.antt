-- ===== src/HeadNode/Ring.antt =====
-- Which places of the ring a block is added to.
use mathlib.Core.Path.{fun_ext}
use incoherent_beamformer.Common.{
  ℕ, zero, suc, ◌+◌, ◌-◌, ◌*◌, ◌/◌, ◌%◌, ◌^◌, ◌<◌, ◌≤◌, ◌≡◌, ◌∙◌, refl, ap, true, ◌&&◌, ltb, leb,
  if◌then◌else◌, Bool-cases, inl, inr, some, Memory, stored, u64, sub64, arith,
}
use incoherent_beamformer.HeadNode.{add_into, bf_align}

-- The places from `at + i` to before `at + last` with the beam from `from + i` on.
abbrev added : Memory → ℕ → ℕ → ℕ → ℕ → Memory → Memory
added beam from at i last align = record align {
  cell = λ k.
      if leb (at + i) k && ltb k (at + last)
      then (beam.cell (from + (k - at)) + align.cell k) % 2 ^ 16
      else align.cell k;
}

added_next :
    (beam align : Memory) (from at i last k : ℕ)
    → i < last
    → (added beam from at
          (i + 1)
          last
          (stored align (at + i) ((beam.cell (from + i) + align.cell (at + i)) % 2 ^ 16))).cell
        k
      ≡ (added beam from at i last align).cell k
added_next beam align from at i last k h = ground arith

add_into_lem :
    (beam align : Memory) (from at left i last : ℕ)
    → i + left ≡ last
    → last < 2 ^ 31
    → from + last ≤ beam.size
    → at + last ≤ align.size
    → add_into beam from at left i align ≡ some (added beam from at i last align)
unfolding add_into
add_into_lem beam align from at zero i last total few in_beam in_align =
    ap (λ (f : ℕ → ℕ). some (record align { cell = f })) (fun_ext (λ k. ground arith))
add_into_lem beam align from at (suc left) i last total few in_beam in_align =
    let in_range : (ltb (from + i) beam.size && ltb (at + i) align.size && ltb (i + 1) (2 ^ 31))
        ≡ true =
      ground arith in
    simp in_range (
      add_into_lem beam
        (stored align (at + i) ((beam.cell (from + i) + align.cell (at + i)) % 2 ^ 16)) from at left
        (i + 1) last (omega arith) few in_beam in_align
      ∙ ap (λ (f : ℕ → ℕ). some (record align { cell = f }))
          (fun_ext (λ k. added_next beam align from at i last k (omega arith))))

-- How far place `k` of a ring of `ring` places is behind place `p`.
abbrev pub turn : ℕ → ℕ → ℕ → ℕ
turn ring p k = if leb p k then k - p else k + ring - p

-- A place of the ring with the value that a block from place `p` on adds to it.
abbrev pub with_beam : Memory → Memory → ℕ → ℕ → ℕ → ℕ → ℕ
with_beam beam align num_vals ring p k =
    if ltb (turn ring p k) num_vals
    then (beam.cell (turn ring p k) + align.cell k) % 2 ^ 16
    else align.cell k

module _ (beam align : Memory) (num_vals ring p : ℕ) (starts : p < ring) (word : ring < 2 ^ 31)
    (fits : num_vals ≤ ring) (in_beam : num_vals ≤ beam.size) (in_align : ring ≤ align.size) where
  straight :
      (k : ℕ)
      → k < ring
      → p + num_vals < ring
      → (added beam 0 p 0 num_vals align).cell k ≡ with_beam beam align num_vals ring p k
  straight k small room = ground arith

  wrapped :
      (k : ℕ)
      → k < ring
      → ring ≤ p + num_vals
      → (added beam (ring - p) 0 0 (num_vals - (ring - p)) (added beam 0 p 0 (ring - p) align)).cell
          k
        ≡ with_beam beam align num_vals ring p k
  wrapped k small over = ground arith

  -- A block of no more values than the ring has places, of which there are fewer than 2 ^ 31, is added
  -- to the ring from the byte position of place `p` on, wrapping round at its end: each place is increased by the value of the block that
  -- lies as far from its start as the place lies behind `p` in the ring, modulo 2 ^ 16, and the
  -- places that the block does not reach keep what they had.
  pub bf_align_lem :
      (k : ℕ)
      → k < ring
      → (align' : Memory) × (bf_align beam align num_vals (2 * p) (2 * ring) ≡ some align')
        × (align'.size ≡ align.size)
        × (align'.cell k ≡ with_beam beam align num_vals ring p k)
  unfolding bf_align
  bf_align_lem k small =
      let half : 2 * p / 2 ≡ p = omega arith in
      let bytes : u64 (2 * p + u64 (num_vals * 2)) ≡ 2 * p + num_vals * 2 = omega arith in
      elim (Bool-cases (ltb (2 * p + num_vals * 2) (2 * ring))) [
        | inl on ↦
            let runs =
              add_into_lem beam align 0 p num_vals 0 num_vals (omega arith) (omega arith)
                (omega arith) (grind arith) in
            (
              added beam 0 p 0 num_vals align,
              simp (bytes, on, half) runs,
              refl,
              straight k small (grind arith),
            )
        | inr off ↦
            let over : ring ≤ p + num_vals = grind arith in
            let wrap : sub64 (2 * ring) (2 * p) / 2 ≡ ring - p = omega arith in
            let rest : sub64 num_vals (ring - p) ≡ num_vals - (ring - p) = omega arith in
            let first =
              add_into_lem beam align 0 p (ring - p) 0 (ring - p) (omega arith) (omega arith)
                (omega arith) (omega arith) in
            let second =
              add_into_lem beam (added beam 0 p 0 (ring - p) align) (ring - p) 0
                (num_vals - (ring - p)) 0 (num_vals - (ring - p)) (omega arith) (omega arith)
                (omega arith) (omega arith) in
            (
              added beam (ring - p) 0 0 (num_vals - (ring - p)) (added beam 0 p 0 (ring - p) align),
              simp (bytes, off, half, wrap, first, rest) second,
              refl,
              wrapped k small over,
            )
      ]
