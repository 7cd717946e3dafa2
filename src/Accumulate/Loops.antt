-- ===== src/Accumulate/Loops.antt =====
-- The three loops of `accumulate`, each as the values that it adds.
use incoherent_beamformer.Common.{
  ℕ, zero, suc, ◌+◌, ◌-◌, ◌*◌, ◌/◌, ◌%◌, ◌^◌, ◌≤◌, ◌<◌, ◌≡◌, refl, Bool-cases, inl, inr, arith,
  if◌then◌else◌, subst, Memory, within,
}
use incoherent_beamformer.Accumulate.{channel_pair, spectrum, accumulation, accumulations}
use incoherent_beamformer.Accumulate.Sample.{pair_value, Adds, Runs, Runs-then, channel_pair_lem}

-- f k + f (k + 1) + .., `left` terms
abbrev pub sum_from : (ℕ → ℕ) → ℕ → ℕ → ℕ
sum_from f k zero = 0
sum_from f k (suc left) = f k + sum_from f (k + 1) left

-- Value number `q` of the spectrum whose bytes begin at `pos`.
unfoldable pub spectrum_value : Memory → ℕ → ℕ → ℕ
spectrum_value incoming pos q = pair_value incoming (pos + q / 8 * 4) (q % 8)

-- Value number `q` of accumulation `j`: 256 spectra added up.
unfoldable pub accumulated_value : Memory → ℕ → ℕ → ℕ
accumulated_value incoming j q =
    sum_from (λ k. spectrum_value incoming (j * 256 * 2048 + k * 2048) q) 0 256

-- A window of `n` places before one of `k` places.
first_window :
    (f v : ℕ → ℕ) (a b c n k total p : ℕ)
    → b ≡ a
    → c ≡ a + n
    → total ≡ n + k
    → ((r : ℕ) → r < n → v (a + r) ≡ f r)
    → (if within a total p then v p else 0)
      ≡ (if within b n p then f (p - b) else 0) + (if within c k p then v p else 0)
first_window f v a b c n k total p eb ec et h = elim (Bool-cases (within a n p)) [
  | inl low ↦
      let e = h (p - a) in
      let place : a + (p - a) ≡ p = ground arith in
      let place' : p - b ≡ p - a = omega arith in ground arith
  | inr other ↦ ground arith
]

same_window :
    (a n p f rest : ℕ)
    → (if within a n p then f + rest else 0)
      ≡ (if within a n p then f else 0) + (if within a n p then rest else 0)
same_window a n p f rest = ground arith

add_zero : (n : ℕ) → n + 0 ≡ n
add_zero n = omega arith

nothing_added : (acc : Memory) (v : ℕ → ℕ) → ((p : ℕ) → v p ≡ 0) → Adds acc acc v
nothing_added acc v h = (refl, λ p word. omega (arith, h p))

pair_of_spectrum :
    (incoming : Memory) (pos m r : ℕ)
    → r < 8
    → spectrum_value incoming pos (m * 8 + r) ≡ pair_value incoming (pos + m * 4) r
unfolding spectrum_value
pair_of_spectrum incoming pos m r h =
    let quotient : (m * 8 + r) / 8 ≡ m = omega arith in
    let remainder : (m * 8 + r) % 8 ≡ r = omega arith in rw (quotient, remainder) refl

spectrum_lem :
    (incoming : Memory) (j pos left m : ℕ) (acc : Memory)
    → pos + (m + left) * 4 ≤ incoming.size
    → pos + (m + left) * 4 ≤ 2 ^ 31
    → j * 4096 + (m + left) * 8 ≤ acc.size
    → j * 4096 + (m + left) * 8 ≤ 2 ^ 31
    → Runs (spectrum incoming j pos left (m * 4)) acc (λ p.
      if within (j * 4096 + m * 8) (left * 8) p
      then spectrum_value incoming pos (p - j * 4096)
      else 0)
unfolding spectrum
spectrum_lem incoming j pos zero m acc hx ix room index =
    (acc, refl, nothing_added acc _ (λ p. ground arith))
spectrum_lem incoming j pos (suc left) m acc hx ix room index =
    let next : m * 4 + 4 ≡ suc m * 4 = omega arith in
    let place : m * 4 * 2 ≡ m * 8 = omega arith in
    Runs-then (channel_pair incoming (pos + m * 4) (j * 4096 + m * 4 * 2))
      (spectrum incoming j pos left (m * 4 + 4)) acc
      (λ p.
        if within (j * 4096 + m * 4 * 2) 8 p
        then pair_value incoming (pos + m * 4) (p - (j * 4096 + m * 4 * 2))
        else 0)
      (λ p.
        if within (j * 4096 + suc m * 8) (left * 8) p
        then spectrum_value incoming pos (p - j * 4096)
        else 0)
      _
      (channel_pair_lem incoming acc (pos + m * 4) (j * 4096 + m * 4 * 2) (omega arith)
        (omega arith) (omega arith) (omega arith))
      (λ acc₁ size. rw next (
        spectrum_lem incoming j pos left (suc m) acc₁ (omega arith) (omega arith) (omega arith)
          (omega arith)))
      (λ p.
        first_window (pair_value incoming (pos + m * 4))
          (λ p. spectrum_value incoming pos (p - j * 4096)) (j * 4096 + m * 8)
          (j * 4096 + m * 4 * 2) (j * 4096 + suc m * 8) 8 (left * 8) (suc left * 8) p (omega arith)
          (omega arith) (omega arith)
          (λ r h.
            let q : j * 4096 + m * 8 + r - j * 4096 ≡ m * 8 + r = omega arith in
            rw q (pair_of_spectrum incoming pos m r h)))

accumulation_lem :
    (incoming : Memory) (j left k : ℕ) (acc : Memory)
    → j * 256 * 2048 + (k + left) * 2048 ≤ incoming.size
    → j * 256 * 2048 + (k + left) * 2048 ≤ 2 ^ 31
    → j * 4096 + 4096 ≤ acc.size
    → j * 4096 + 4096 ≤ 2 ^ 31
    → Runs (accumulation incoming j left k) acc (λ p.
      if within (j * 4096) 4096 p
      then sum_from (λ k. spectrum_value incoming (j * 256 * 2048 + k * 2048) (p - j * 4096)) k left
      else 0)
unfolding accumulation
accumulation_lem incoming j zero k acc hx ix room index =
    (acc, refl, nothing_added acc _ (λ p. ground arith))
accumulation_lem incoming j (suc left) k acc hx ix room index =
    let pos = j * 256 * 2048 + k * 2048 in
    Runs-then (spectrum incoming j pos 512 0) (accumulation incoming j left (k + 1)) acc
      (λ p. if within (j * 4096) 4096 p then spectrum_value incoming pos (p - j * 4096) else 0)
      (λ p.
        if within (j * 4096) 4096 p
        then sum_from (λ k. spectrum_value incoming (j * 256 * 2048 + k * 2048) (p - j * 4096))
            (k + 1) left
        else 0)
      _
      (subst
        (λ (at : ℕ).
          Runs (spectrum incoming j pos 512 0) acc
            (λ p. if within at 4096 p then spectrum_value incoming pos (p - j * 4096) else 0))
        (add_zero (j * 4096))
        (spectrum_lem incoming j pos 512 0 acc (omega arith) (omega arith) (omega arith)
          (omega arith)))
      (λ acc₁ size.
        accumulation_lem incoming j left (k + 1) acc₁ (omega arith) (omega arith) (omega arith)
          (omega arith))
      (λ p. same_window (j * 4096) 4096 p _ _)

pub accumulations_lem :
    (incoming : Memory) (left j : ℕ) (acc : Memory)
    → (j + left) * 256 * 2048 ≤ incoming.size
    → (j + left) * 256 * 2048 ≤ 2 ^ 31
    → (j + left) * 4096 ≤ acc.size
    → Runs (accumulations incoming left j) acc (λ p.
      if within (j * 4096) (left * 4096) p
      then accumulated_value incoming (p / 4096) (p % 4096)
      else 0)
unfolding accumulations accumulated_value
accumulations_lem incoming zero j acc hx ix room =
    (acc, refl, nothing_added acc _ (λ p. ground arith))
accumulations_lem incoming (suc left) j acc hx ix room =
    let first_accumulation =
      accumulation_lem incoming j 256 0 acc (omega arith) (omega arith) (omega arith)
        (omega arith) in
    Runs-then (accumulation incoming j 256 0) (accumulations incoming left (j + 1)) acc
      (λ p. if within (j * 4096) 4096 p then accumulated_value incoming j (p - j * 4096) else 0)
      (λ p.
        if within ((j + 1) * 4096) (left * 4096) p
        then accumulated_value incoming (p / 4096) (p % 4096)
        else 0)
      _ first_accumulation
      (λ acc₁ size.
        accumulations_lem incoming left (j + 1) acc₁ (omega arith) (omega arith) (omega arith))
      (λ p.
        first_window (accumulated_value incoming j)
          (λ p. accumulated_value incoming (p / 4096) (p % 4096)) (j * 4096) (j * 4096)
          ((j + 1) * 4096) 4096 (left * 4096) (suc left * 4096) p (refl {a = j * 4096})
          (omega arith) (omega arith)
          (λ r h.
            let quotient : (j * 4096 + r) / 4096 ≡ j = omega arith in
            let remainder : (j * 4096 + r) % 4096 ≡ r = omega arith in
            rw (quotient, remainder) (refl {a = accumulated_value incoming j r})))
