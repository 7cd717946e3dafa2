-- ===== src/PacketBits/Tests.antt =====
-- Two heaps in a segment, of one byte each, and four segments.
use incoherent_beamformer.Common.{
  ◌+◌, ltb, ◌≡◌, refl, true, false, some, if◌then◌else◌, ◌==◌, Memory, arith,
}
use incoherent_beamformer.Settings.{Settings, done}
use incoherent_beamformer.Fixture.{small}
use incoherent_beamformer.PacketBits.{has_bit, place, set_bit, get_bit, zero_dropped_packets}
use incoherent_beamformer.PacketBits.Marks.{get_bit-set_bit}
use incoherent_beamformer.PacketBits.Zeroing.{count_set, zeroed_if, zero_dropped_packets_lem}

abbrev pairs : Settings
pairs = record small { expected_heap_len = 1; num_bits_in_segment = 2 }

-- The second segment has its first heap.
abbrev marks : Memory
marks = record { size = 4; cell = λ i. if i == 1 then 1 else 0 }

abbrev block : Memory
block = record { size = 16; cell = λ i. 7 }

marked : get_bit 2 marks 2 ≡ some true
unfolding get_bit place has_bit
marked = refl

unmarked : get_bit 2 marks 3 ≡ some false
unfolding get_bit place has_bit
unmarked = refl

get_bit-set_bit_example :
    (marks' : Memory) × (set_bit true true 2 marks 3 ≡ done marks')
    × (get_bit 2 marks' 2 ≡ (if 2 == 3 then some true else get_bit 2 marks 2))
get_bit-set_bit_example =
    get_bit-set_bit 2 marks 3 2 (omega arith) (omega arith) (omega arith) (omega arith)

-- The second segment, with one of its two heaps, lies from place 2 of the order buffer on.
zero_dropped_packets_lem_example :
    zero_dropped_packets pairs marks 10 block 3
    ≡ some (zeroed_if (ltb 0 (count_set 1 0 2)) block 2 2, 3 + count_set 1 0 2)
zero_dropped_packets_lem_example =
    zero_dropped_packets_lem pairs marks block 10 3 1 (omega arith) (omega arith) (omega arith)
      (omega arith) (omega arith) refl (omega arith) (omega arith) (omega arith)
