-- ===== src/ChildBeam/Drain.antt =====
-- The first loop of `consume` in dada_processing/child_beam.c, which skips the blocks that already wait: it
-- reads a block of each stream for as long as both have one.
mod Tests
use incoherent_beamformer.Common.{
  ℕ, zero, suc, ◌+◌, ◌-◌, ◌^◌, ◌≡◌, ◌≤◌, ◌<◌, ◌⊎◌, inl, inr, refl, Bool, true, false, ◌&&◌, Option,
  none, some, ltb, if◌then◌else◌, sub64, arith, Bool-cases,
}

-- `written1 n` and `written2 n` are the write counts at the n-th look, while the writers go on. The
-- result has the number of looks and the read counts; `none` is that the fuel is used up.
module _ (written1 written2 : ℕ → ℕ) where
  -- num_occupied_1 > 0 && num_occupied_2 > 0
  abbrev pub both_occupied : ℕ → ℕ → ℕ → Bool
  both_occupied n read1 read2 = ltb 0 (sub64 (written1 n) read1) && ltb 0 (sub64 (written2 n) read2)

  unfoldable pub drain : ℕ → ℕ → ℕ → ℕ → Option (ℕ × ℕ × ℕ)
  drain zero n read1 read2 = none
  drain (suc left) n read1 read2 =
      if both_occupied n read1 read2
      then drain left (n + 1) (read1 + 1) (read2 + 1)
      else some (n, read1, read2)

  -- Where it ends: as many blocks of each stream have been read, and one has none left.
  abbrev pub IsDrained : ℕ → ℕ → ℕ → ℕ → ℕ → Type 0
  IsDrained left n read1 read2 k =
      (drain left n read1 read2 ≡ some (n + k, read1 + k, read2 + k))
      × ((written1 (n + k) ≡ read1 + k) ⊎ (written2 (n + k) ≡ read2 + k))

  one_later :
      (left n read1 read2 k : ℕ)
      → both_occupied n read1 read2 ≡ true
      → IsDrained left (n + 1) (read1 + 1) (read2 + 1) k
      → IsDrained (suc left) n read1 read2 (suc k)
  unfolding drain
  one_later left n read1 read2 k on (runs, ends) =
      let look : n + suc k ≡ n + 1 + k = omega arith in
      let first : read1 + suc k ≡ read1 + 1 + k = omega arith in
      let second : read2 + suc k ≡ read2 + 1 + k = omega arith in
      simp (on, look, first, second) (runs, ends)

  none_left :
      (left n read1 read2 : ℕ)
      → both_occupied n read1 read2 ≡ false
      → read1 ≤ written1 n
      → read2 ≤ written2 n
      → written1 n < 2 ^ 64
      → written2 n < 2 ^ 64
      → IsDrained (suc left) n read1 read2 0
  unfolding drain
  none_left left n read1 read2 off from1 from2 word1 word2 =
      let look : n + 0 ≡ n = omega arith in
      let first : read1 + 0 ≡ read1 = omega arith in
      let second : read2 + 0 ≡ read2 = omega arith in
      simp (off, look, first, second) (refl, ground arith)

  -- If the first writer never gets further than `last`, and no count is above its write count or
  -- reaches 2 ^ 64, the loop ends after no more rounds than there are blocks up to `last`; as many
  -- blocks have been read of both streams, and one of them has none left.
  pub drain_lem :
      (left n read1 read2 last : ℕ)
      → last < read1 + left
      → read1 ≤ written1 n
      → read2 ≤ written2 n
      → ((i : ℕ) → (written1 i ≤ written1 (i + 1)) × (written1 i ≤ last))
      → ((i : ℕ) → (written2 i ≤ written2 (i + 1)) × (written2 i < 2 ^ 64))
      → last < 2 ^ 64
      → (k : ℕ) × IsDrained left n read1 read2 k
  unfolding drain
  drain_lem zero n read1 read2 last fuel from1 from2 grows1 grows2 word =
      let (up, below) = grows1 n in absurd (omega arith)
  drain_lem (suc left) n read1 read2 last fuel from1 from2 grows1 grows2 word =
      let (up1, below1) = grows1 n in
      let up2 = grows2 n in
      elim (Bool-cases (both_occupied n read1 read2)) [
        | inl on ↦
            let more1 : read1 + 1 ≤ written1 (n + 1) = ground arith in
            let more2 : read2 + 1 ≤ written2 (n + 1) = ground arith in
            let (k, drained) =
              drain_lem left (n + 1) (read1 + 1) (read2 + 1) last (omega arith) more1 more2 grows1
                grows2 word in
            (suc k, one_later left n read1 read2 k on drained)
        | inr off ↦ (0, none_left left n read1 read2 off from1 from2 (omega arith) up2.1)
      ]
