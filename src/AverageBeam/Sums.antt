-- ===== src/AverageBeam/Sums.antt =====
-- What is added to the sums.
use mathlib.Core.Path.{fun_ext}
use incoherent_beamformer.Common.{
  ℕ, zero, suc, ◌+◌, ◌<◌, ◌≤◌, ◌≡◌, ◌∙◌, refl, ap, true, false, ◌&&◌, ◌==◌, ltb, leb, if◌then◌else◌,
  Bool-cases, inl, inr, some, Memory, arith,
}
use incoherent_beamformer.AverageBeam.{FloatOps, put, add_row, add_rows, add}

module _ {ℓ} {F : Type ℓ} (ops : FloatOps F) (bytes : Memory) where
  -- The sums with the bytes from `start` on for the places from `i` to before `last`.
  abbrev row_added : ℕ → ℕ → ℕ → (ℕ → F) → ℕ → F
  row_added start i last ave k =
      if leb i k && ltb k last
      then ops.add (ave k) (ops.of_int8 (bytes.cell (start + k)))
      else ave k

  row_added_none : (start i k : ℕ) (ave : ℕ → F) → ave k ≡ row_added start i i ave k
  row_added_none start i k ave = ground arith

  row_added_next :
      (start i last k : ℕ) (ave : ℕ → F)
      → i < last
      → row_added start
          (i + 1)
          last
          (put i (ops.add (ave i) (ops.of_int8 (bytes.cell (start + i)))) ave)
          k
        ≡ row_added start i last ave k
  row_added_next start i last k ave h = elim (Bool-cases (k == i)) [
    | inl on ↦
        let e : i ≡ k = ground arith in
        let behind : leb (i + 1) k ≡ false = ground arith in
        let from : leb i k ≡ true = ground arith in
        let below : ltb k last ≡ true = ground arith in
        simp (on, behind, from, below)
          (ap (λ (n : ℕ). ops.add (ave n) (ops.of_int8 (bytes.cell (start + n)))) e)
    | inr off ↦ let same : leb (i + 1) k ≡ leb i k = ground arith in simp (off, same) refl
  ]

  add_row_lem :
      (start left i last : ℕ) (ave : ℕ → F)
      → i + left ≡ last
      → start + last ≤ bytes.size
      → add_row ops bytes start left i ave ≡ some (row_added start i last ave)
  unfolding add_row
  add_row_lem start zero i last ave total room =
      let e : i ≡ last = omega arith in
      ap (λ (f : ℕ → F). some f) (fun_ext (λ k. row_added_none start i k ave))
      ∙ ap (λ (n : ℕ). some (row_added start i n ave)) e
  add_row_lem start (suc left) i last ave total room =
      let in_range : ltb (start + i) bytes.size ≡ true = ground arith in
      simp in_range (
        add_row_lem start left (i + 1) last
          (put i (ops.add (ave i) (ops.of_int8 (bytes.cell (start + i)))) ave) (omega arith) room
        ∙ ap (λ (f : ℕ → F). some f)
            (fun_ext (λ k. row_added_next start i last k ave (omega arith))))

  -- The sum of channel `k` with those of the four spectra of a heap, one after the other.
  abbrev pub with_heap : (ℕ → F) → ℕ → F
  with_heap ave k =
      if ltb k 1024
      then ops.add
          (ops.add
            (ops.add (ops.add (ave k) (ops.of_int8 (bytes.cell k)))
              (ops.of_int8 (bytes.cell (1024 + k))))
            (ops.of_int8 (bytes.cell (2048 + k))))
          (ops.of_int8 (bytes.cell (3072 + k)))
      else ave k

  four_rows :
      (ave : ℕ → F) (k : ℕ)
      → row_added 3072 0 1024
          (row_added 2048 0 1024 (row_added 1024 0 1024 (row_added 0 0 1024 ave)))
          k
        ≡ with_heap ave k
  four_rows ave k = elim (Bool-cases (ltb k 1024)) [
    | inl on ↦
        let e : 0 + k ≡ k = omega arith in
        let z : leb 0 k ≡ true = ground arith in simp (on, z, e) refl
    | inr off ↦ let z : leb 0 k ≡ true = ground arith in simp (off, z) refl
  ]

  -- With 4096 bytes there, `add` adds to each of the 1024 sums the four bytes of its channel, as
  -- signed numbers and in the order of the spectra, and leaves what lies behind the sums.
  pub add_lem : (ave : ℕ → F) → 4096 ≤ bytes.size → add ops bytes ave ≡ some (with_heap ave)
  unfolding add add_rows
  add_lem ave room =
      simp
        (
          add_row_lem 0 1024 0 1024 ave (omega arith) (omega arith),
          add_row_lem 1024 1024 0 1024 (row_added 0 0 1024 ave) (omega arith) (omega arith),
          add_row_lem 2048 1024 0 1024 (row_added 1024 0 1024 (row_added 0 0 1024 ave))
              (omega arith) (omega arith),
          add_row_lem 3072 1024 0 1024
              (row_added 2048 0 1024 (row_added 1024 0 1024 (row_added 0 0 1024 ave))) (omega arith)
              (omega arith),
        )
        (ap (λ (f : ℕ → F). some f) (fun_ext (four_rows ave)))
