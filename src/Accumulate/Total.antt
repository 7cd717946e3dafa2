-- ===== src/Accumulate/Total.antt =====
-- The whole of `accumulate`.
use incoherent_beamformer.Common.{
  ℕ, ◌*◌, ◌/◌, ◌%◌, ◌^◌, ◌≤◌, ◌≡◌, refl, some, arith, ltb, if◌then◌else◌, signed, Memory, filled,
  memset_lem,
}
use incoherent_beamformer.Accumulate.{num_spectra, num_out_vals, accumulate}
use incoherent_beamformer.Accumulate.Loops.{accumulated_value, accumulations_lem}

-- The array and the number that `accumulate` returns: each value of each whole accumulation is
-- the sum of its products over 256 spectra, modulo 2 ^ 16, and what is left of the array is 0.
pub record IsAccumulated (incoming accumulated : Memory) (size : ℕ) : Type 0 where
  pub accumulated' : Memory
  pub returns :
      accumulate incoming accumulated size
      ≡ some (accumulated', signed 32 (num_spectra size * 4096 / 256))
  pub same_size : accumulated'.size ≡ accumulated.size
  pub values :
      (p : ℕ)
      → (if ltb p (num_spectra size * 4096 / 256) then accumulated'.cell p else 0) ≡ (
          if ltb p (num_spectra size / 256 * 4096)
          then accumulated_value incoming (p / 4096) (p % 4096) % 65536
          else 0)

-- For incoming data of at most 2 ^ 31 bytes, all of them there, and room for the result,
-- `accumulate` runs without a fault and without an overflow of its indices. Value q of
-- accumulation j becomes the sum, modulo 2 ^ 16, of the products of that kind and channel over
-- the 256 spectra of the accumulation; the values after the last whole accumulation become 0; the
-- count of the values is returned.
pub accumulate-IsAccumulated :
    (incoming accumulated : Memory) (size : ℕ)
    → size ≤ incoming.size
    → size ≤ 2 ^ 31
    → num_spectra size * 4096 / 256 ≤ accumulated.size
    → IsAccumulated incoming accumulated size
unfolding accumulate
accumulate-IsAccumulated incoming accumulated size here index room =
    let values : num_out_vals size ≡ num_spectra size * 4096 / 256 = omega arith in
    let count : num_out_vals size % 2 ^ 32 ≡ num_out_vals size = omega arith in
    let cleared = filled accumulated 0 0 (num_out_vals size) in
    let (acc, runs, (same, cells)) =
      accumulations_lem incoming (num_spectra size / 256) 0 cleared (omega arith) (omega arith)
        (omega arith) in
    record {
      accumulated' = acc;
      returns =
          rw (memset_lem accumulated 0 0 (num_out_vals size) (omega arith), runs, count, values)
            refl;
      same_size = same;
      values = λ p. ground (arith, cells p);
    }
