-- ===== src/Accumulate/Sample.antt =====
-- The products of one sample pair, and what the innermost statements add.
use incoherent_beamformer.Common.{
  ℕ, ◌+◌, ◌-◌, ◌/◌, ◌%◌, ◌^◌, ◌≤◌, ◌<◌, ◌≡◌, refl, Option, some, Bool-cases, inl, inr, arith, ◌==◌,
  if◌then◌else◌, ℤ, ◌*ℤ◌, wrap, Memory, within, stored, ◌>>=◌,
}
use incoherent_beamformer.Accumulate.{
  real_part, imaginary_part, read, add_product, channel, channel_pair,
}

-- Of two samples, the specification of the four values: the two powers of the real parts, their
-- product, and that of the imaginary parts; as patterns of 16 bits.
abbrev pub product : ℕ → ℕ → ℕ → ℕ
product sx sy r =
    if r == 0
    then wrap 16 (real_part sx *ℤ real_part sx)
    else if r == 1
    then wrap 16 (real_part sy *ℤ real_part sy)
    else if r == 2
    then wrap 16 (real_part sx *ℤ real_part sy)
    else wrap 16 (imaginary_part sx *ℤ imaginary_part sy)

-- Value number `r` of the eight of a channel pair whose four bytes begin at `at`.
abbrev pub pair_value : Memory → ℕ → ℕ → ℕ
pair_value incoming at r =
    product (incoming.cell (at + r / 4)) (incoming.cell (at + r / 4 + 2)) (r % 4)

-- `v p` is added at each place `p`, modulo 2 ^ 16.
abbrev pub Adds : Memory → Memory → (ℕ → ℕ) → Type 0
Adds acc acc' v =
    (acc'.size ≡ acc.size)
    × ((p : ℕ) → acc.cell p < 65536 → acc'.cell p ≡ (acc.cell p + v p) % 65536)

-- A step runs without a fault and adds `v`.
abbrev pub Runs : (Memory → Option Memory) → Memory → (ℕ → ℕ) → Type 0
Runs step acc v = (acc' : Memory) × (step acc ≡ some acc') × Adds acc acc' v

pub Adds-trans :
    (a b c : Memory) (v w x : ℕ → ℕ)
    → Adds a b v
    → Adds b c w
    → ((p : ℕ) → x p ≡ v p + w p)
    → Adds a c x
Adds-trans a b c v w x h k e = (
  omega (arith, h.0, k.0),
  λ p word. omega (arith, h.1 p word, k.1 p (omega (arith, h.1 p word)), e p),
)

add_product_lem :
    (acc : Memory) (i : ℕ) (a b : ℤ)
    → i < acc.size
    → i < 2 ^ 31
    → Runs (λ acc. add_product acc i a b) acc (λ p. if p == i then wrap 16 (a *ℤ b) else 0)
unfolding add_product
add_product_lem acc i a b h k = (
  stored acc i ((acc.cell i + wrap 16 (a *ℤ b)) % 2 ^ 16),
  ground arith,
  (refl, λ p word. ground arith),
)

read_lem : (m : Memory) (i : ℕ) → i < m.size → i < 2 ^ 31 → read m i ≡ some (m.cell i)
unfolding read
read_lem m i h k = ground arith

-- Steps one after the other.
pub Runs-then :
    (f g : Memory → Option Memory) (acc : Memory) (v w x : ℕ → ℕ)
    → Runs f acc v
    → ((acc' : Memory) → acc'.size ≡ acc.size → Runs g acc' w)
    → ((p : ℕ) → x p ≡ v p + w p)
    → Runs (λ acc. f acc >>= g) acc x
Runs-then f g acc v w x h k e =
    let (b, runs, adds) = h in
    let (c, runs', adds') = k b adds.0 in (c, rw runs runs', Adds-trans acc b c v w x adds adds' e)

channel_lem :
    (incoming acc : Memory) (x y pa : ℕ)
    → x < incoming.size
    → y < incoming.size
    → x < 2 ^ 31
    → y < 2 ^ 31
    → pa + 4 ≤ acc.size
    → pa + 4 ≤ 2 ^ 31
    → Runs
        (channel incoming x y pa)
        acc
        (λ p. if within pa 4 p then product (incoming.cell x) (incoming.cell y) (p - pa) else 0)
unfolding channel
channel_lem incoming acc x y pa hx hy ix iy room index =
    let sx = incoming.cell x in
    let sy = incoming.cell y in
    rw (read_lem incoming x hx ix, read_lem incoming y hy iy)
      (Runs-then (λ acc. add_product acc pa (real_part sx) (real_part sx))
        (λ acc. add_product acc (pa + 1) (real_part sy) (real_part sy) >>= λ acc.
          add_product acc (pa + 2) (real_part sx) (real_part sy) >>= λ acc.
          add_product acc (pa + 3) (imaginary_part sx) (imaginary_part sy))
        acc (λ p. if p == pa then wrap 16 (real_part sx *ℤ real_part sx) else 0)
        (λ p. if within (pa + 1) 3 p then product sx sy (p - pa) else 0)
        (λ p. if within pa 4 p then product sx sy (p - pa) else 0)
        (add_product_lem acc pa (real_part sx) (real_part sx) (omega arith) (omega arith))
        (λ acc₁ size₁.
          Runs-then (λ acc. add_product acc (pa + 1) (real_part sy) (real_part sy))
            (λ acc. add_product acc (pa + 2) (real_part sx) (real_part sy) >>= λ acc.
              add_product acc (pa + 3) (imaginary_part sx) (imaginary_part sy))
            acc₁ (λ p. if p == pa + 1 then wrap 16 (real_part sy *ℤ real_part sy) else 0)
            (λ p. if within (pa + 2) 2 p then product sx sy (p - pa) else 0)
            (λ p. if within (pa + 1) 3 p then product sx sy (p - pa) else 0)
            (add_product_lem acc₁ (pa + 1) (real_part sy) (real_part sy) (omega arith)
              (omega arith))
            (λ acc₂ size₂.
              Runs-then (λ acc. add_product acc (pa + 2) (real_part sx) (real_part sy))
                (λ acc. add_product acc (pa + 3) (imaginary_part sx) (imaginary_part sy)) acc₂
                (λ p. if p == pa + 2 then wrap 16 (real_part sx *ℤ real_part sy) else 0)
                (λ p. if p == pa + 3 then wrap 16 (imaginary_part sx *ℤ imaginary_part sy) else 0)
                (λ p. if within (pa + 2) 2 p then product sx sy (p - pa) else 0)
                (add_product_lem acc₂ (pa + 2) (real_part sx) (real_part sy) (omega arith)
                  (omega arith))
                (λ acc₃ size₃.
                  add_product_lem acc₃ (pa + 3) (imaginary_part sx) (imaginary_part sy)
                    (omega arith) (omega arith))
                (λ p. ground arith))
            (λ p. ground arith))
        (λ p. ground arith))

low_half :
    (incoming : Memory) (at r : ℕ)
    → r < 4
    → pair_value incoming at r ≡ product (incoming.cell at) (incoming.cell (at + 2)) r
low_half incoming at r h =
    let quotient : r / 4 ≡ 0 = omega arith in
    let remainder : r % 4 ≡ r = omega arith in
    let first : at + 0 ≡ at = omega arith in rw (quotient, remainder, first) refl

high_half :
    (incoming : Memory) (at r : ℕ)
    → r < 4
    → pair_value incoming at (4 + r) ≡ product (incoming.cell (at + 1)) (incoming.cell (at + 3)) r
high_half incoming at r h =
    let quotient : (4 + r) / 4 ≡ 1 = omega arith in
    let remainder : (4 + r) % 4 ≡ r = omega arith in
    let second : at + 1 + 2 ≡ at + 3 = omega arith in rw (quotient, remainder, second) refl

-- The two halves, over an arbitrary function for the values.
halves :
    (f g v : ℕ → ℕ) (pa p : ℕ)
    → ((r : ℕ) → r < 4 → v r ≡ f r)
    → ((r : ℕ) → r < 4 → v (4 + r) ≡ g r)
    → (if within pa 8 p then v (p - pa) else 0)
      ≡ (if within pa 4 p then f (p - pa) else 0)
        + (if within (pa + 4) 4 p then g (p - (pa + 4)) else 0)
halves f g v pa p h k = elim (Bool-cases (within pa 4 p)) [
  | inl low ↦ let e = h (p - pa) in ground arith
  | inr other ↦ elim (Bool-cases (within (pa + 4) 4 p)) [
    | inl high ↦
        let e = k (p - (pa + 4)) in
        let place : 4 + (p - (pa + 4)) ≡ p - pa = ground arith in ground arith
    | inr out ↦ ground arith
  ]
]

pub channel_pair_lem :
    (incoming acc : Memory) (at pa : ℕ)
    → at + 4 ≤ incoming.size
    → at + 4 ≤ 2 ^ 31
    → pa + 8 ≤ acc.size
    → pa + 8 ≤ 2 ^ 31
    → Runs
        (channel_pair incoming at pa)
        acc
        (λ p. if within pa 8 p then pair_value incoming at (p - pa) else 0)
unfolding channel_pair
channel_pair_lem incoming acc at pa hx ix room index =
    Runs-then (channel incoming at (at + 2) pa) (channel incoming (at + 1) (at + 3) (pa + 4)) acc
      (λ p.
        if within pa 4 p then product (incoming.cell at) (incoming.cell (at + 2)) (p - pa) else 0)
      (λ p.
        if within (pa + 4) 4 p
        then product (incoming.cell (at + 1)) (incoming.cell (at + 3)) (p - (pa + 4))
        else 0)
      (λ p. if within pa 8 p then pair_value incoming at (p - pa) else 0)
      (channel_lem incoming acc at (at + 2) pa (omega arith) (omega arith) (omega arith)
        (omega arith) (omega arith) (omega arith))
      (λ acc' size.
        channel_lem incoming acc' (at + 1) (at + 3) (pa + 4) (omega arith) (omega arith)
          (omega arith) (omega arith) (omega arith) (omega arith))
      (λ p.
        halves (product (incoming.cell at) (incoming.cell (at + 2)))
          (product (incoming.cell (at + 1)) (incoming.cell (at + 3))) (pair_value incoming at) pa p
          (low_half incoming at) (high_half incoming at))
