-- ===== src/PacketBits.antt =====
-- The bits of spead_callback/to_buffer.c for the heaps of the order buffer, `set_bit`, `get_bit` and
-- `zero_dropped_packets`: one bit for each heap, a word of 32 bits for each segment. A cell of the
-- array is the pattern of an `int`.
pub mod Words
pub mod Marks
pub mod Zeroing
mod Tests
use incoherent_beamformer.Common.{
  ℕ, zero, suc, ◌+◌, ◌*◌, ◌/◌, ◌%◌, ◌^◌, Bool, Option, none, some, ◌||◌, ◌==◌, ltb, if◌then◌else◌,
  u32, int_offset, Memory, stored, memset, ◌>>=◌,
}
use incoherent_beamformer.Settings.{Settings, Outcome, done, exited, fault}

-- (word & (1 << k)) != 0, and word | (1 << k), on patterns.
unfoldable pub has_bit : ℕ → ℕ → Bool
has_bit word k = word / 2 ^ k % 2 == 1

unfoldable pub with_bit : ℕ → ℕ → ℕ
with_bit word k = if has_bit word k then word else word + 2 ^ k

-- The word of a position and the place in it, with `bits` bits in use; `none` is a division by zero
-- or a shift by as many bits as an `int` has or more.
unfoldable pub place : ℕ → ℕ → Option (ℕ × ℕ)
place zero pos = none
place (suc n) pos = if ltb (pos % suc n) 32 then some (pos / suc n, pos % suc n) else none

-- array[pos/numBitsInSegment] |= 1 << (pos % numBitsInSegment)
unfoldable pub or_bit : ℕ → Memory → ℕ → Option Memory
or_bit bits array pos = place bits pos >>= λ at.
    if ltb (at.0) array.size
    then some (stored array (at.0) (with_bit (array.cell (at.0)) (at.1)))
    else none

-- `closed` and `opened` say that the two calls of semop succeed.
unfoldable pub set_bit : Bool → Bool → ℕ → Memory → ℕ → Outcome Memory
set_bit closed opened bits array pos =
    if closed
    then elim (or_bit bits array pos) [
      | none ↦ fault
      | some array' ↦ if opened then done array' else exited
    ]
    else exited

unfoldable pub get_bit : ℕ → Memory → ℕ → Option Bool
get_bit bits array pos = place bits pos >>= λ at.
    if ltb (at.0) array.size then some (has_bit (array.cell (at.0)) (at.1)) else none

-- One round of the loop, on the DADA block and the count of dropped heaps.
unfoldable pub zero_round : Settings → Memory → ℕ → ℕ → Memory × ℕ → Option (Memory × ℕ)
zero_round s dropped o_b_off i (buffer, num_dropped) =
    get_bit s.num_bits_in_segment dropped (o_b_off / s.expected_heap_len + i) >>= λ is_set.
    if is_set
    then (memset buffer o_b_off 0 s.ob_segment >>= λ buffer'. some (buffer', u32 (num_dropped + 1)))
    else some (buffer, num_dropped)

-- The loop, with `left` rounds left.
unfoldable pub zero_rounds : Settings → Memory → ℕ → ℕ → ℕ → Memory × ℕ → Option (Memory × ℕ)
zero_rounds s dropped o_b_off zero i st = some st
zero_rounds s dropped o_b_off (suc left) i st =
    zero_round s dropped o_b_off i st >>= λ st'. zero_rounds s dropped o_b_off left (i + 1) st'

unfoldable pub zero_dropped_packets : Settings → Memory → ℕ → Memory → ℕ → Option (Memory × ℕ)
zero_dropped_packets s dropped order_buffer_tail buffer num_dropped =
    if s.ob_size == 0 || s.expected_heap_len == 0
    then none
    else (int_offset (order_buffer_tail % s.ob_size) >>= λ o_b_off.
        zero_rounds s dropped o_b_off s.num_bits_in_segment 0 (buffer, num_dropped))
