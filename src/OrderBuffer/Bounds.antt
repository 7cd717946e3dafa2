-- ===== src/OrderBuffer/Bounds.antt =====
-- Both routines of the order buffer stay in range when the sizes fit together.
use incoherent_beamformer.Common.{
  ℕ, ◌+◌, ◌%◌, ◌^◌, ◌≤◌, ◌<◌, ◌≡◌, some, arith, Memory, copied, filled, memcpy_lem, memset_lem,
}
use incoherent_beamformer.Settings.{Settings}
use incoherent_beamformer.OrderBuffer.{write_to_order_buffer, to_dada_buffer}

-- A heap at place `p` of the order buffer is copied there, if the place is in range.
pub write_to_order_buffer_lem :
    (s : Settings) (order heap : Memory) (offset p : ℕ)
    → offset % s.ob_size ≡ p
    → 0 < s.ob_size
    → p + s.expected_heap_len ≤ order.size
    → s.expected_heap_len ≤ heap.size
    → write_to_order_buffer s (some order) heap offset
      ≡ some (copied order p heap 0 s.expected_heap_len)
unfolding write_to_order_buffer
write_to_order_buffer_lem s order heap offset p e pos fits whole =
    ground (arith, memcpy_lem order p heap 0 s.expected_heap_len fits (omega arith))

-- One segment is moved from its place `p` in the order buffer to the tail's place in the block,
-- and is zeroed in the order buffer.
pub to_dada_buffer_lem :
    (s : Settings) (block order : Memory) (tail p : ℕ)
    → tail % s.ob_size ≡ p
    → 0 < s.ob_size
    → p < 2 ^ 31
    → tail + s.ob_segment ≤ s.dada_buf_size
    → tail < s.dada_buf_size
    → s.dada_buf_size < 2 ^ 64
    → s.dada_buf_size ≤ block.size
    → p + s.ob_segment ≤ order.size
    → to_dada_buffer s
        (record { buffer = some block; order_buffer = some order; order_buffer_tail = tail })
      ≡ some (record {
        buffer = some (copied block tail order p s.ob_segment);
        order_buffer = some (filled order p 0 s.ob_segment);
        order_buffer_tail = (tail + s.ob_segment) % s.dada_buf_size;
      })
unfolding to_dada_buffer
to_dada_buffer_lem s block order tail p e pos small room below word wide fits = ground (
  arith,
  memcpy_lem block tail order p s.ob_segment (omega arith) fits,
  memset_lem order p 0 s.ob_segment fits,
)
