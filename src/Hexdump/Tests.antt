-- ===== src/Hexdump/Tests.antt =====
-- Two rows of two bytes and one byte more.
use incoherent_beamformer.Common.{◌+◌, ◌≡◌, refl, [], ◌∷◌, arith}
use incoherent_beamformer.Hexdump.{address, hex, char, dot, tab, hexes, chars, rows, hexdump}
use incoherent_beamformer.Hexdump.Bytes.{hex_bytes, bytes_from, hexdump_lem}

five :
    hexdump (λ i. 125 + i) 5 2
    ≡ address 0
      ∷ hex 125
      ∷ hex 126
      ∷ tab
      ∷ char 125
      ∷ dot
      ∷ address 2
      ∷ hex 127
      ∷ hex 128
      ∷ tab
      ∷ dot
      ∷ dot
      ∷ address 4
      ∷ hex 129
      ∷ []
unfolding hexdump rows hexes chars
five = refl

hexdump_lem_example : hex_bytes (hexdump (λ i. 125 + i) 5 2) ≡ bytes_from (λ i. 125 + i) 0 5
hexdump_lem_example = hexdump_lem (λ i. 125 + i) 5 2 (omega arith) (omega arith)
