-- ===== src/PacketBits/Words.antt =====
-- The bits of one word.
use native.Mathlib.Nat.{div-div-eq-div-mul}
use incoherent_beamformer.Common.{
  ℕ, zero, suc, ◌*◌, ◌/◌, ◌%◌, ◌^◌, ◌≡◌, ◌∙◌, sym, refl, ap, Bool, true, false, ◌==◌, if◌then◌else◌,
  Bool-cases, inl, inr, arith,
}
use incoherent_beamformer.PacketBits.{has_bit, with_bit}

has_bit-zero : (w : ℕ) → has_bit w 0 ≡ (w % 2 == 1)
unfolding has_bit
has_bit-zero w = ap (λ (n : ℕ). n % 2 == 1) (omega arith)

halves : (w k : ℕ) → w / 2 ^ suc k ≡ w / 2 / 2 ^ k
halves w k =
    let double : 2 ^ suc k ≡ 2 * 2 ^ k = omega arith in
    ap (λ (n : ℕ). w / n) double ∙ sym (div-div-eq-div-mul w 2 (2 ^ k))

has_bit-half : (w k : ℕ) → has_bit w (suc k) ≡ has_bit (w / 2) k
unfolding has_bit
has_bit-half w k = ap (λ (n : ℕ). n % 2 == 1) (halves w k)

with_bit-zero_half : (w : ℕ) → with_bit w 0 / 2 ≡ w / 2
unfolding with_bit has_bit
with_bit-zero_half w = ground arith

with_bit-zero_odd : (w : ℕ) → with_bit w 0 % 2 ≡ 1
unfolding with_bit has_bit
with_bit-zero_odd w = ground arith

with_bit-half : (w k : ℕ) → with_bit w (suc k) / 2 ≡ with_bit (w / 2) k
unfolding with_bit
with_bit-half w k =
    let same = has_bit-half w k in
    elim (Bool-cases (has_bit w (suc k))) [
      | inl on ↦ let half : has_bit (w / 2) k ≡ true = sym same ∙ on in simp (on, half) refl
      | inr off ↦
          let half : has_bit (w / 2) k ≡ false = sym same ∙ off in simp (off, half) (omega arith)
    ]

with_bit-parity : (w k : ℕ) → with_bit w (suc k) % 2 ≡ w % 2
unfolding with_bit
with_bit-parity w k = elim (Bool-cases (has_bit w (suc k))) [
  | inl on ↦ simp on refl
  | inr off ↦ simp off (omega arith)
]

-- A bit that is set is set, and the others are what they were.
pub has_bit-with_bit :
    (w k j : ℕ) → has_bit (with_bit w k) j ≡ (if j == k then true else has_bit w j)
has_bit-with_bit w zero zero =
    has_bit-zero (with_bit w 0) ∙ ap (λ (n : ℕ). n == 1) (with_bit-zero_odd w)
has_bit-with_bit w zero (suc j) =
    let other : (suc j == 0) ≡ false = ground arith in
    has_bit-half (with_bit w 0) j
    ∙ ap (λ (n : ℕ). has_bit n j) (with_bit-zero_half w)
    ∙ sym (has_bit-half w j)
    ∙ ap (λ (b : Bool). if b then true else has_bit w (suc j)) (sym other)
has_bit-with_bit w (suc k) zero =
    let other : (0 == suc k) ≡ false = ground arith in
    has_bit-zero (with_bit w (suc k))
    ∙ ap (λ (n : ℕ). n == 1) (with_bit-parity w k)
    ∙ sym (has_bit-zero w)
    ∙ ap (λ (b : Bool). if b then true else has_bit w 0) (sym other)
has_bit-with_bit w (suc k) (suc j) =
    let same : (j == k) ≡ (suc j == suc k) = ground arith in
    has_bit-half (with_bit w (suc k)) j
    ∙ ap (λ (n : ℕ). has_bit n j) (with_bit-half w k)
    ∙ has_bit-with_bit (w / 2) k j
    ∙ ap (λ (b : Bool). if j == k then true else b) (sym (has_bit-half w j))
    ∙ ap (λ (b : Bool). if b then true else has_bit w (suc j)) same
