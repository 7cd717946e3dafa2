-- ===== src/SeparatedWriter.antt =====
-- `to_dada_buffer` of Dada_writer/dada_simple_writer_separated.c, which the process of the DADA block
-- is to call for a segment, with `zero_dropped_packets` of spead_callback/to_buffer_separated.c.
pub mod Marks
mod Tests
use incoherent_beamformer.Common.{
  ℕ, zero, suc, ◌+◌, ◌-◌, ◌*◌, ◌/◌, ◌%◌, ◌^◌, Bool, ◌||◌, Option, none, some, ltb, ◌==◌,
  if◌then◌else◌, u64, int_offset, Memory, memset, stored, ◌>>=◌,
}
use incoherent_beamformer.Separated.{Sizes}
use incoherent_beamformer.PacketBits.{get_bit}

-- The process of the DADA block: the block, the words of marks, the tail and the count of bytes.
pub record Transfer : Type 0 where
  pub buffer : Memory
  pub dropped : Memory
  pub order_buffer_tail : ℕ
  pub num_bytes_transferred : ℕ

-- zero_dropped_packets of this receiver: 32 rounds for any segment, `left` of them left.
unfoldable pub zero_rounds : Sizes → Memory → ℕ → ℕ → ℕ → Memory → Option Memory
zero_rounds s dropped o_b_off zero i buffer = some buffer
zero_rounds s dropped o_b_off (suc left) i buffer =
    (get_bit 32 dropped (o_b_off / s.expected_heap_len + i) >>= λ is_set.
    if is_set then memset buffer o_b_off 0 s.ob_segment else some buffer)
    >>= λ buffer'. zero_rounds s dropped o_b_off left (i + 1) buffer'

-- A word of ones is -1. The bytes themselves are not copied.
unfoldable pub to_dada_buffer : Sizes → Transfer → Option Transfer
to_dada_buffer s t =
    if s.ob_size == 0 || s.expected_heap_len == 0 || s.dada_buf_size == 0
    then none
    else (int_offset (t.order_buffer_tail % s.ob_size) >>= λ o_b_off.
        let word = o_b_off / s.expected_heap_len / 32 in
        (if ltb word t.dropped.size then some (t.dropped.cell word) else none) >>= λ marks.
        (if marks == 2 ^ 32 - 1
          then some t.buffer
          else zero_rounds s t.dropped o_b_off 32 0 t.buffer)
        >>= λ buffer'. some (record {
          buffer = buffer';
          dropped = stored t.dropped word 0;
          order_buffer_tail = u64 (t.order_buffer_tail + s.ob_segment) % s.dada_buf_size;
          num_bytes_transferred = u64 (t.num_bytes_transferred + s.ob_segment);
        }))
