-- ===== src/Common/Blocks.antt =====
-- Blocks of memory: a size and its cells, with the copying functions of string.h.
-- `none` is an access out of range, which C leaves undefined.
use Prim.Native.Nat.{ℕ, ◌+◌, ◌-◌, ◌≤◌}
use mathlib.Core.Path.{◌≡◌}
use mathlib.Core.Bool.{Bool, ◌&&◌}
use mathlib.Core.Option.{Option, none, some}
use native.Mathlib.Omega.{arith}
use incoherent_beamformer.Common.Tests.{ltb, leb, if◌then◌else◌}

pub record Memory : Type 0 where
  pub size : ℕ
  pub cell : ℕ → ℕ

-- `i` lies in the `n` cells from `off` on.
abbrev pub within : ℕ → ℕ → ℕ → Bool
within off n i = leb off i && ltb i (off + n)

abbrev pub copied : Memory → ℕ → Memory → ℕ → ℕ → Memory
copied dst off src from n = record dst {
  cell = λ i. if within off n i then src.cell (from + (i - off)) else dst.cell i;
}

abbrev pub filled : Memory → ℕ → ℕ → ℕ → Memory
filled dst off v n = record dst { cell = λ i. if within off n i then v else dst.cell i }

abbrev pub stored : Memory → ℕ → ℕ → Memory
stored dst off v = filled dst off v 1

-- memcpy(dst + off, src + from, n)
unfoldable pub memcpy : Memory → ℕ → Memory → ℕ → ℕ → Option Memory
memcpy dst off src from n =
    if leb (off + n) dst.size && leb (from + n) src.size
    then some (copied dst off src from n)
    else none

-- memset(dst + off, v, n)
unfoldable pub memset : Memory → ℕ → ℕ → ℕ → Option Memory
memset dst off v n = if leb (off + n) dst.size then some (filled dst off v n) else none

infixl 5 ◌>>=◌
abbrev pub ◌>>=◌ {ℓ κ} : {A : Type ℓ} {B : Type κ} → Option A → (A → Option B) → Option B
none >>= f = none
some a >>= f = f a

pub memcpy_lem :
    (dst : Memory) (off : ℕ) (src : Memory) (from n : ℕ)
    → off + n ≤ dst.size
    → from + n ≤ src.size
    → memcpy dst off src from n ≡ some (copied dst off src from n)
unfolding memcpy
memcpy_lem dst off src from n h k = ground arith

pub memset_lem :
    (dst : Memory) (off v n : ℕ)
    → off + n ≤ dst.size
    → memset dst off v n ≡ some (filled dst off v n)
unfolding memset
memset_lem dst off v n h = ground arith
