-- ===== src/OrderBuffer.antt =====
-- The order buffer of spead_callback/to_buffer.c: heaps are written to their places in it, and
-- whole segments of it are moved to the DADA block.
pub mod Bounds
pub mod Reorder
mod Tests
use incoherent_beamformer.Common.{
  ℕ, ◌+◌, ◌*◌, ◌%◌, Option, none, some, ◌||◌, ◌==◌, if◌then◌else◌, u64, int_offset, Memory, memcpy,
  memset, ◌>>=◌,
}
use incoherent_beamformer.Settings.{Settings}

-- The globals of the process that moves segments: the open DADA block, the order buffer, and
-- the place in the block that the next segment goes to. `none` is a null pointer.
pub record Writer : Type 0 where
  pub buffer : Option Memory
  pub order_buffer : Option Memory
  pub order_buffer_tail : ℕ

-- `none` is a fault: a null pointer, a division by zero or a copy out of range.
unfoldable pub write_to_order_buffer : Settings → Option Memory → Memory → ℕ → Option Memory
write_to_order_buffer s order_buffer heap offset = do
  order ← order_buffer
  if s.ob_size == 0 then none else memcpy order (offset % s.ob_size) heap 0 s.expected_heap_len

unfoldable pub to_dada_buffer : Settings → Writer → Option Writer
to_dada_buffer s w = if s.ob_size == 0 || s.dada_buf_size == 0 then none else do
  o_b_off ← int_offset (w.order_buffer_tail % s.ob_size)
  block ← w.buffer
  order ← w.order_buffer
  block' ← memcpy block w.order_buffer_tail order o_b_off s.ob_segment
  order' ← memset order o_b_off 0 s.ob_segment
  some (record {
    buffer = some block';
    order_buffer = some order';
    order_buffer_tail = u64 (w.order_buffer_tail + s.ob_segment) % s.dada_buf_size;
  })
