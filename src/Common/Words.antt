-- ===== src/Common/Words.antt =====
-- Fixed-width words as their bit patterns, and the conversions of C between them.
use Prim.Native.Nat.{ℕ, ◌+◌, ◌-◌, ◌*◌, ◌%◌, ◌^◌}
use mathlib.Core.Option.{Option, none, some}
use incoherent_beamformer.Common.Tests.{ltb, if◌then◌else◌}
use incoherent_beamformer.Common.Ints.{ℤ, pos, negsuc}

abbrev pub u32 : ℕ → ℕ
u32 n = n % 2 ^ 32

abbrev pub u64 : ℕ → ℕ
u64 n = n % 2 ^ 64

-- Unsigned subtraction of two 64-bit words; 2 ^ 64 is added first since `-` stops at 0.
abbrev pub sub64 : ℕ → ℕ → ℕ
sub64 a b = (a + 2 ^ 64 - b % 2 ^ 64) % 2 ^ 64

-- An `int` converted to an unsigned type of `w` bits: the value modulo 2 ^ w.
abbrev pub wrap : ℕ → ℤ → ℕ
wrap w (pos n) = n % 2 ^ w
wrap w (negsuc n) = 2 ^ w - 1 - n % 2 ^ w

-- A pattern of `w` bits read as a signed integer.
abbrev pub signed : ℕ → ℕ → ℤ
signed w n = if ltb (n * 2) (2 ^ w) then pos n else negsuc (2 ^ w - n - 1)

-- An `unsigned long long` stored in an `int` and then used as an offset from the start of an
-- array: `none` where the `int` is negative.
abbrev pub int_offset : ℕ → Option ℕ
int_offset n = let w = n % 2 ^ 32 in if ltb w (2 ^ 31) then some w else none
