-- ===== src/Hexdump.antt =====
-- `hexdump` of dada_testing/dada_buffer.c, which the receivers have as well: what it prints of the
-- first `index` bytes of a buffer, in rows of `width` bytes, each with its characters behind it but
-- the last.
pub mod Bytes
mod Tests
use incoherent_beamformer.Common.{
  ℕ, zero, suc, ◌+◌, ◌-◌, ◌*◌, ◌%◌, ◌^◌, u64, List, [], ◌∷◌, ◌++◌, Bool, ◌&&◌, ltb, if◌then◌else◌,
}

-- By their formats: "\n%08lx\t:", "%02x ", "%c" and "." and "\t".
pub data Printed : Type 0 where
  address hex char : ℕ → Printed
  dot tab : Printed

-- The buffer is a function from positions; `n` bytes from `i` on, as numbers and as characters.
unfoldable pub hexes : (ℕ → ℕ) → ℕ → ℕ → List Printed
hexes buffer i zero = []
hexes buffer i (suc n) = hex (buffer i) ∷ hexes buffer (i + 1) n

-- From '!' to '~', both excluded.
abbrev pub printable : ℕ → Bool
printable c = ltb 33 c && ltb c 126

unfoldable pub chars : (ℕ → ℕ) → ℕ → ℕ → List Printed
chars buffer i zero = []
chars buffer i (suc n) =
    (if printable (buffer i) then char (buffer i) else dot) ∷ chars buffer (i + 1) n

abbrev pub row : (ℕ → ℕ) → ℕ → ℕ → List Printed
row buffer n j = hexes buffer j n ++ (tab ∷ (chars buffer j n ++ (address (j + n) ∷ [])))

-- An unsigned long as the `int` that it is assigned to, as an unsigned long again.
abbrev pub as_int : ℕ → ℕ
as_int n = if ltb (n % 2 ^ 32) (2 ^ 31) then n % 2 ^ 32 else n % 2 ^ 32 + (2 ^ 64 - 2 ^ 32)

-- How many rounds `for (i = j; i < j + width; i++)` makes.
abbrev pub in_row : ℕ → ℕ → ℕ
in_row j width = u64 (j + width) - j

-- The loop over whole rows from `j` on, and the `i` that it leaves; `fuel` bounds its rounds. The
-- counter `j` is an `int`, which each sum of it with the width is cut to.
unfoldable pub rows : (ℕ → ℕ) → ℕ → ℕ → ℕ → ℕ → ℕ → List Printed × ℕ
rows buffer index width zero j i = ([], i)
rows buffer index width (suc fuel) j i =
    let (out, last) = rows buffer index width fuel (as_int (j + width)) (j + in_row j width) in
    if ltb j (index - width) then (row buffer (in_row j width) j ++ out, last) else ([], i)

unfoldable pub hexdump : (ℕ → ℕ) → ℕ → ℕ → List Printed
hexdump buffer index width =
    if ltb width index
    then (let (out, i) = rows buffer index width index 0 0 in
        address 0 ∷ out ++ hexes buffer i (index - i))
    else address 0 ∷ hexes buffer 0 index
