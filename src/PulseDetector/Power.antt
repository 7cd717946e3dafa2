-- ===== src/PulseDetector/Power.antt =====
-- The power of one spectrum, and its bounds.
use native.Mathlib.Nat.{mul-le-mul}
use incoherent_beamformer.Common.{
  ℕ, zero, suc, ◌+◌, ◌*◌, ◌/◌, ◌%◌, ◌^◌, ◌≤◌, ◌<◌, ◌≡◌, some, arith, Memory, ap, ◌∙◌,
}
use incoherent_beamformer.PulseDetector.{PulseSettings, sample, power_loop, total_power}

-- |x|² of the sample at `at`, by its bytes.
abbrev pub norm : Memory → ℕ → ℕ
norm heap at =
    heap.cell at % 256 * (heap.cell at % 256)
    + heap.cell (at + 1) % 256 * (heap.cell (at + 1) % 256)

-- The samples from `at` on, `n` of them.
unfoldable pub norms : Memory → ℕ → ℕ → ℕ
norms heap at zero = 0
norms heap at (suc n) = norm heap at + norms heap (at + 2) n

-- The power of spectrum `i`: of its first 100 samples all but the first.
unfoldable pub power : PulseSettings → Memory → ℕ → ℕ
power s heap i = norms heap (i * s.n_chans + 2) 99 / 100

-- The heap has all its spectra, each with the samples that are read.
pub record IsReadable (s : PulseSettings) (heap : Memory) : Type 0 where
  pub wide : 200 ≤ s.n_chans
  pub room : s.ts_per_heap * s.n_chans ≤ heap.size
  pub index : s.ts_per_heap * s.n_chans ≤ 2 ^ 31

norm-lt : (heap : Memory) (at : ℕ) → norm heap at ≤ 130050
norm-lt heap at = omega (
  arith,
  mul-le-mul {n₁ = heap.cell at % 256} {m₁ = heap.cell at % 256} {n₂ = 255} {m₂ = 255} (omega arith)
      (omega arith),
  mul-le-mul {n₁ = heap.cell (at + 1) % 256} {m₁ = heap.cell (at + 1) % 256} {n₂ = 255} {m₂ = 255}
      (omega arith) (omega arith),
)

norms-le : (heap : Memory) (at n : ℕ) → norms heap at n ≤ n * 130050
unfolding norms
norms-le heap at zero = omega arith
norms-le heap at (suc n) = omega (arith, norm-lt heap at, norms-le heap (at + 2) n)

-- A power is at most 128749, so that no sum overflows an `int` and a float holds it exactly.
pub power-le : (s : PulseSettings) (heap : Memory) (i : ℕ) → power s heap i ≤ 128749
unfolding power
power-le s heap i = omega (arith, norms-le heap (i * s.n_chans + 2) 99)

sample_lem :
    (heap : Memory) (i : ℕ) → i < heap.size → i < 2 ^ 31 → sample heap i ≡ some (heap.cell i % 256)
unfolding sample
sample_lem heap i h k = ground arith

power_loop_lem :
    (heap : Memory) (start left j acc : ℕ)
    → start + j + left * 2 ≤ heap.size
    → start + j + left * 2 ≤ 2 ^ 31
    → power_loop heap start left j acc ≡ some (acc + norms heap (start + j) left)
unfolding power_loop norms
power_loop_lem heap start zero j acc h k = ap some (omega arith)
power_loop_lem heap start (suc left) j acc h k =
    let rest =
      power_loop_lem heap start left (j + 2) (acc + norm heap (start + j)) (omega arith)
        (omega arith) in
    let next : start + (j + 2) ≡ start + j + 2 = omega arith in
    rw
      (
        sample_lem heap (start + j) (omega arith) (omega arith),
        sample_lem heap (start + j + 1) (omega arith) (omega arith),
      )
      (rest ∙ rw next (ap some (omega arith)))

pub total_power_lem :
    (s : PulseSettings) (heap : Memory) (i : ℕ)
    → IsReadable s heap
    → i < s.ts_per_heap
    → total_power s heap i ≡ some (power s heap i)
unfolding total_power power
total_power_lem s heap i r h =
    let fits =
      mul-le-mul {n₁ = suc i} {m₁ = s.n_chans} {n₂ = s.ts_per_heap} {m₂ = s.n_chans} h
        (omega arith) in
    let wide = r.wide in
    let sum =
      power_loop_lem heap (i * s.n_chans) 99 2 0 (omega (arith, r.room)) (omega (arith, r.index)) in
    rw sum (ap (λ (n : ℕ). some (n / 100)) (omega arith))
