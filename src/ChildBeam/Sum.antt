-- ===== src/ChildBeam/Sum.antt =====
-- What `beamform` and `accumulate_and_beamform` leave in the beamformed array.
use incoherent_beamformer.Common.{
  ℕ, zero, suc, ◌+◌, ◌*◌, ◌/◌, ◌%◌, ◌^◌, ◌≤◌, ◌<◌, ◌≡◌, refl, some, arith, ltb, if◌then◌else◌, u64,
  true, ◌&&◌, wrap, signed, Memory, within, stored,
}
use incoherent_beamformer.Accumulate.{num_spectra, in_array}
use incoherent_beamformer.Accumulate.Loops.{accumulated_value}
use incoherent_beamformer.Accumulate.Total.{accumulate-IsAccumulated}
use incoherent_beamformer.ChildBeam.{sums, beamform, malloc, accumulate_and_beamform}

-- The array after the sums at the places from `i` to `i + n`.
abbrev pub Summed : Memory → Memory → ℕ → ℕ → Memory → Memory → Type 0
Summed acc1 acc2 i n beamformed beamformed' =
    (beamformed'.size ≡ beamformed.size)
    × ((p : ℕ)
        → beamformed'.cell p
          ≡ (if within i n p then (acc1.cell p + acc2.cell p) % 65536 else beamformed.cell p))

sums_lem :
    (acc1 acc2 : Memory) (n i : ℕ) (beamformed : Memory)
    → i + n ≤ acc1.size
    → i + n ≤ acc2.size
    → i + n ≤ beamformed.size
    → i + n ≤ 2 ^ 31
    → (beamformed' : Memory) × (sums acc1 acc2 n i beamformed ≡ some beamformed')
      × Summed acc1 acc2 i n beamformed beamformed'
unfolding sums
sums_lem acc1 acc2 zero i beamformed h1 h2 room index =
    (beamformed, refl, (refl, λ p. ground arith))
sums_lem acc1 acc2 (suc n) i beamformed h1 h2 room index =
    let next = stored beamformed i ((acc1.cell i + acc2.cell i) % 2 ^ 16) in
    let (b, runs, (same, cells)) =
      sums_lem acc1 acc2 n (i + 1) next (omega arith) (omega arith) (omega arith) (omega arith) in
    let in_range : (in_array acc1 i && in_array acc2 i && in_array beamformed i) ≡ true =
      ground arith in
    (b, rw in_range runs, (same, λ p. ground (arith, cells p)))

-- Value `p` of the sum of two beams, each accumulated.
abbrev pub beamformed_value : Memory → Memory → ℕ → ℕ → ℕ
beamformed_value incoming1 incoming2 size p =
    if ltb p (num_spectra size / 256 * 4096)
    then (accumulated_value incoming1 (p / 4096) (p % 4096)
        + accumulated_value incoming2 (p / 4096) (p % 4096))
      % 65536
    else 0

-- What `accumulate_and_beamform` returns and leaves in the array of results.
pub record IsBeamformed (cells1 cells2 : ℕ → ℕ) (incoming1 incoming2 beamformed : Memory) (size : ℕ)
    : Type 0 where
  pub beamformed' : Memory
  pub returns :
      accumulate_and_beamform cells1 cells2 incoming1 incoming2 beamformed size ≡ some beamformed'
  pub same_size : beamformed'.size ≡ beamformed.size
  pub values :
      (p : ℕ)
      → beamformed'.cell p ≡ (
          if ltb p (num_spectra size * 4096 / 256)
          then beamformed_value incoming1 incoming2 size p
          else beamformed.cell p)

-- The count that `accumulate` returns as an `int` comes back as the same number.
count_lem : (n : ℕ) → n < 2 ^ 31 → wrap 64 (signed 32 n) ≡ n
count_lem n h = let small : ltb (n * 2) (2 ^ 32) ≡ true = ground arith in rw small (omega arith)

-- For two blocks of `size` bytes, at most 2 ^ 31 and all of them there, and room for the results,
-- `accumulate_and_beamform` runs without a fault, whatever the new arrays hold: each value is the
-- sum, modulo 2 ^ 16, of the products of both blocks over the 256 spectra of its accumulation, the
-- values after the last whole accumulation are 0, and the array after the values is unchanged.
pub accumulate_and_beamform-IsBeamformed :
    (cells1 cells2 : ℕ → ℕ) (incoming1 incoming2 beamformed : Memory) (size : ℕ)
    → size ≤ incoming1.size
    → size ≤ incoming2.size
    → size ≤ 2 ^ 31
    → num_spectra size * 4096 / 256 ≤ beamformed.size
    → IsBeamformed cells1 cells2 incoming1 incoming2 beamformed size
unfolding accumulate_and_beamform beamform
accumulate_and_beamform-IsBeamformed cells1 cells2 incoming1 incoming2 beamformed size h1 h2 index
      room =
    let n = u64 (size * 2) / 256 in
    let first = accumulate-IsAccumulated incoming1 (malloc n cells1) size h1 index (omega arith) in
    let second = accumulate-IsAccumulated incoming2 (malloc n cells2) size h2 index (omega arith) in
    let s1 = first.same_size in
    let s2 = second.same_size in
    let (b, runs, (same, cells)) =
      sums_lem first.accumulated' second.accumulated' (num_spectra size * 4096 / 256) 0 beamformed
        (omega arith) (omega arith) (omega arith) (omega arith) in
    record {
      beamformed' = b;
      returns =
          rw
            (first.returns, second.returns, count_lem (num_spectra size * 4096 / 256) (omega arith))
            runs;
      same_size = same;
      values = λ p. ground (arith, cells p, first.values p, second.values p);
    }
