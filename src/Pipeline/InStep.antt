-- ===== src/Pipeline/InStep.antt =====
-- The tail and the place in the ring of timestamps, which the workers and the process of the block keep
-- each for itself.
use incoherent_beamformer.Common.{◌+◌, ◌%◌, ◌≡◌, some, arith, u64}
use incoherent_beamformer.Settings.{Settings}
use incoherent_beamformer.OrderBuffer.{Writer, to_dada_buffer}
use incoherent_beamformer.Callback.{SnapShot}
use incoherent_beamformer.DadaThread.{Dada}

abbrev pub InStep : Dada → SnapShot → Type 0
InStep d ss = (ss.order_buffer_tail ≡ d.writer.order_buffer_tail) × (ss.ppts_pos ≡ d.ppts_pos)

pub order_buffer_tail-to_dada_buffer :
    (s : Settings) (w : Writer) {w' : Writer}
    → to_dada_buffer s w ≡ some w'
    → w'.order_buffer_tail ≡ u64 (w.order_buffer_tail + s.ob_segment) % s.dada_buf_size
unfolding to_dada_buffer
order_buffer_tail-to_dada_buffer s w h = ground arith
