-- ===== src/Common/Numbers.antt =====
-- Remainders and products that several components meet.
use Prim.Native.Nat.{ℕ, zero, suc, ◌+◌, ◌*◌, ◌/◌, ◌%◌, ◌<◌}
use mathlib.Core.Path.{◌≡◌, ap, sym, ◌∙◌}
use native.Mathlib.Nat.{
  mod-add-mod, mod-eq_of_lt, mod-lt, div-add-mod, add-mul-mod_self_left, mul-le-mul_right,
}
use native.Mathlib.Omega.{arith}

pub pos_of_mul-pos : (a b : ℕ) → 0 < a * b → 0 < a
pos_of_mul-pos zero b h = absurd (omega arith)
pos_of_mul-pos (suc a) b h = omega arith

-- A multiple of `m` more does not change the remainder.
pub mod-add_multiple : (t x m : ℕ) → t % m ≡ 0 → x < m → (t + x) % m ≡ x
mod-add_multiple t x m e h =
    sym (mod-add-mod t m x)
    ∙ ap (λ (n : ℕ). (n + x) % m) e
    ∙ mod-eq_of_lt {n = 0 + x} {m = m} (omega arith)
    ∙ omega arith

pub mul-mod-mul : (x y len : ℕ) → 0 < y → 0 < len → x * len % (y * len) ≡ x % y * len
mul-mod-mul x y len hy hl =
    let split : x * len ≡ x % y * len + y * len * (x / y) =
      omega (arith, ap (λ (n : ℕ). n * len) (div-add-mod x y)) in
    let room = mul-le-mul_right {m = suc (x % y)} {n = y} len (mod-lt x {m = y} hy) in
    ap (λ (n : ℕ). n % (y * len)) split
    ∙ add-mul-mod_self_left (x % y * len) (y * len) (x / y)
    ∙ mod-eq_of_lt {n = x % y * len} {m = y * len} (omega arith)
