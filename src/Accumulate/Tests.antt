-- ===== src/Accumulate/Tests.antt =====
-- Tests of `accumulate` and its parts.
use incoherent_beamformer.Common.{
  ℕ, ◌+◌, ◌*◌, ◌%◌, ◌≡◌, refl, none, some, Option, arith, pos, negsuc, ◌*ℤ◌, Memory, List, [], ◌∷◌,
}
use mathlib.Core.List.{map}
use incoherent_beamformer.Accumulate.{
  real_part, imaginary_part, read, add_product, channel, channel_pair,
}
use incoherent_beamformer.Accumulate.Total.{IsAccumulated, accumulate-IsAccumulated}

-- The real part keeps its place in the byte, 16 times the four bits, and is signed; the imaginary
-- part is 0 to 15.
upper_bits : real_part 0xf3 ≡ negsuc 15
unfolding real_part
upper_bits = refl

lower_bits : imaginary_part 0xff ≡ pos 15
unfolding imaginary_part
lower_bits = refl

abbrev samples : ℕ → Memory
samples size = record { size = size; cell = λ i. (i * 37 + 5) % 256 }

abbrev ones : ℕ → Memory
ones size = record { size = size; cell = λ i. 1 }

abbrev eight_values : Option Memory → List ℕ
eight_values none = []
eight_values (some acc) = map acc.cell (0 ∷ 1 ∷ 2 ∷ 3 ∷ 4 ∷ 5 ∷ 6 ∷ 7 ∷ [])

four_bytes :
    eight_values (channel_pair (samples 4) 0 0 (ones 8))
    ≡ 1 ∷ 4097 ∷ 1 ∷ 76 ∷ 1025 ∷ 12545 ∷ 3585 ∷ 41 ∷ []
unfolding channel_pair channel add_product read real_part imaginary_part ◌*ℤ◌
four_bytes = refl

no_room : channel_pair (samples 4) 0 0 (ones 7) ≡ none
unfolding channel_pair channel add_product read real_part imaginary_part ◌*ℤ◌
no_room = refl

accumulate-IsAccumulated_example : IsAccumulated (samples 1050624) (ones 8208) 1050624
accumulate-IsAccumulated_example =
    accumulate-IsAccumulated (samples 1050624) (ones 8208) 1050624 (omega arith) (omega arith)
      (omega arith)
