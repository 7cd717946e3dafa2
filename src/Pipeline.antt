-- ===== src/Pipeline.antt =====
-- The receiver as a whole, spead_callback/to_buffer.c: workers that take heaps, and the process of the
-- DADA block, which takes their signals. The order buffer is memory that they share.
pub mod InStep
pub mod Interleaved
pub mod Ledger
pub mod Paced
pub mod Taking
mod Tests
use incoherent_beamformer.Common.{some, [], Memory}
use incoherent_beamformer.Callback.{System}
use incoherent_beamformer.DadaThread.{Dada}

-- The shared state with no signals of a call in it.
abbrev pub quiet : System → System
quiet sys = record sys { sent = [] }

-- The process of the block works on the shared order buffer.
abbrev pub with_order : Memory → Dada → Dada
with_order order d = record d { writer = record (d.writer) { order_buffer = some order } }
