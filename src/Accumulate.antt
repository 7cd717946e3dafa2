-- ===== src/Accumulate.antt =====
-- `accumulate` of dada_processing/dada_beamform.c: the power and cross products of two
-- polarisations, added up over 256 spectra of 1024 channels. A sample is a byte, its upper four bits
-- the real part and its lower four the imaginary part. The accumulated values are `int16_t`, kept as
-- patterns of 16 bits; a memory's cells are the array's elements.
pub mod Sample
pub mod Loops
pub mod Total
mod Tests
use Prim.Native.Nat.{bit_and}
use incoherent_beamformer.Common.{
  ℕ, zero, suc, ◌+◌, ◌*◌, ◌/◌, ◌%◌, ◌^◌, Bool, ◌&&◌, Option, none, some, ltb, if◌then◌else◌, ℤ,
  ◌*ℤ◌, wrap, signed, u64, Memory, stored, memset, ◌>>=◌,
}

-- int8_t xRe = sample & 240; int8_t xIm = sample & 15;
unfoldable pub real_part : ℕ → ℤ
real_part sample = signed 8 (bit_and sample 240)

unfoldable pub imaginary_part : ℕ → ℤ
imaginary_part sample = signed 8 (bit_and sample 15)

-- An index is an `int`; `none` where it would overflow or leave the array.
abbrev pub in_array : Memory → ℕ → Bool
in_array m i = ltb i (2 ^ 31) && ltb i m.size

unfoldable pub read : Memory → ℕ → Option ℕ
read m i = if in_array m i then some (m.cell i) else none

-- accumulated[i] = accumulated[i] + a * b;
unfoldable pub add_product : Memory → ℕ → ℤ → ℤ → Option Memory
add_product acc i a b =
    if in_array acc i then some (stored acc i ((acc.cell i + wrap 16 (a *ℤ b)) % 2 ^ 16)) else none

-- One channel: the samples of both polarisations at `x` and `y`, and the four sums from `pa` on.
unfoldable pub channel : Memory → ℕ → ℕ → ℕ → Memory → Option Memory
channel incoming x y pa acc = read incoming x >>= λ sx. read incoming y >>= λ sy.
    add_product acc pa (real_part sx) (real_part sx) >>= λ acc.
    add_product acc (pa + 1) (real_part sy) (real_part sy) >>= λ acc.
    add_product acc (pa + 2) (real_part sx) (real_part sy) >>= λ acc.
    add_product acc (pa + 3) (imaginary_part sx) (imaginary_part sy)

-- Two channels: the four bytes from `pi` on.
unfoldable pub channel_pair : Memory → ℕ → ℕ → Memory → Option Memory
unfolding channel
channel_pair incoming pi pa acc =
    channel incoming pi (pi + 2) pa acc >>= λ acc. channel incoming (pi + 1) (pi + 3) (pa + 4) acc

-- for (i = ..; i < 2048; i = i + 4), with `left` rounds left.
unfoldable pub spectrum : Memory → ℕ → ℕ → ℕ → ℕ → Memory → Option Memory
spectrum incoming j pos zero i acc = some acc
spectrum incoming j pos (suc left) i acc =
    channel_pair incoming (pos + i) (j * 4096 + i * 2) acc >>= λ acc.
    spectrum incoming j pos left (i + 4) acc

-- for (k = ..; k < ACCUMULATE; k++)
unfoldable pub accumulation : Memory → ℕ → ℕ → ℕ → Memory → Option Memory
accumulation incoming j zero k acc = some acc
accumulation incoming j (suc left) k acc =
    spectrum incoming j (j * 256 * 2048 + k * 2048) 512 0 acc >>= λ acc.
    accumulation incoming j left (k + 1) acc

-- for (j = ..; j < num_accs; j++)
unfoldable pub accumulations : Memory → ℕ → ℕ → Memory → Option Memory
accumulations incoming zero j acc = some acc
accumulations incoming (suc left) j acc =
    accumulation incoming j 256 0 acc >>= λ acc. accumulations incoming left (j + 1) acc

abbrev pub num_spectra : ℕ → ℕ
num_spectra size = size / 2048

abbrev pub num_out_vals : ℕ → ℕ
num_out_vals size = u64 (num_spectra size * 1024 * 4) / 256

-- The accumulated array and the return value.
unfoldable pub accumulate : Memory → Memory → ℕ → Option (Memory × ℤ)
accumulate incoming accumulated size = memset accumulated 0 0 (num_out_vals size) >>= λ acc.
    accumulations incoming (num_spectra size / 256) 0 acc >>= λ acc.
    some (acc, signed 32 (num_out_vals size % 2 ^ 32))
