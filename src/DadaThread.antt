-- ===== src/DadaThread.antt =====
-- The process of the DADA block, `dadaThread` of spead_callback/to_buffer.c: it waits for the
-- workers' signals, moves a segment on SIGUSR1, goes on to the next block on SIGUSR2, and stops on
-- SIGINT. What PSRDADA does with a block or a header is an event; the block that it opens next is
-- a parameter.
pub mod Headers
mod Tests
use incoherent_beamformer.Common.{
  ℕ, ◌+◌, ◌%◌, Option, none, some, List, [], ◌∷◌, ◌++◌, Memory, ◌>>=◌, get_elem?,
}
use incoherent_beamformer.Settings.{Settings}
use incoherent_beamformer.OrderBuffer.{Writer, to_dada_buffer}
use incoherent_beamformer.Callback.{SnapShot, Signal, sigusr1, sigusr2, sigint}

-- The calls of PSRDADA: `simple_writer_open` before the first block, ipcio_close_block_write with the block and its number of bytes,
-- set_timestamp_header, and ipcio_stop with the two calls after it.
pub data Event : Type 0 where
  writer_opened : Event
  closed : Option Memory → ℕ → Event
  header : ℕ → Event
  stopped : Event

-- `returned` is `return -1`.
pub data Status : Type 0 where
  running returned finished : Status

-- The process: its globals, its place in the ring of block timestamps, how many blocks it has
-- opened, and its calls, the oldest first.
pub record Dada : Type 0 where
  pub writer : Writer
  pub ppts_pos : ℕ
  pub opened : ℕ
  pub events : List Event

-- `blocks n` is what the n-th call of ipcio_open_block_write returns, and `none` a null pointer.
module _ (s : Settings) (blocks : ℕ → Option Memory) where
  unfoldable pub open_block : Dada → Dada × Status
  open_block d =
      let d' = record d {
        writer = record (d.writer) { buffer = blocks d.opened };
        opened = d.opened + 1;
      } in
      elim (blocks d.opened) [ none ↦ (d', returned) | some block ↦ (d', running) ]

  -- SIGUSR2: the block is closed, its timestamp is written, and the next one is opened.
  unfoldable pub change_block : SnapShot → Dada → Option (Dada × Status)
  unfolding open_block
  change_block ss d = get_elem? ss.prev_prior_ts d.ppts_pos >>= λ ts. some (
      open_block (record d {
        ppts_pos = (d.ppts_pos + 1) % 10;
        events = d.events ++ closed d.writer.buffer s.dada_buf_size ∷ header ts ∷ [];
      }))

  -- One round of the loop. The shared data is read when the signal is handled.
  unfoldable pub handle : SnapShot → Signal → Dada → Option (Dada × Status)
  handle ss sigusr1 d = to_dada_buffer s d.writer >>= λ w. some (record d { writer = w }, running)
  handle ss sigusr2 d = change_block ss d
  handle ss sigint d = some (record d { events = d.events ++ stopped ∷ [] }, finished)

  -- The loop over the signals that arrive, each with the shared data at that time.
  unfoldable pub dada_thread : List (SnapShot × Signal) → Dada → Option (Dada × Status)
  dada_thread [] d = some (d, running)
  dada_thread ((ss, signal) ∷ rest) d = handle ss signal d >>= λ r. elim (r.1) [
    | running ↦ dada_thread rest r.0
    | returned ↦ some r
    | finished ↦ some r
  ]

  unfoldable pub after_open : List (SnapShot × Signal) → Dada × Status → Option (Dada × Status)
  after_open signals (d, running) = dada_thread signals d
  after_open signals (d, returned) = some (d, returned)
  after_open signals (d, finished) = some (d, finished)

  -- The whole process, from its attached order buffer. The failures of connecting and locking are
  -- only reported.
  unfoldable pub dada_process : Memory → List (SnapShot × Signal) → Option (Dada × Status)
  dada_process order signals = after_open signals (
      open_block (record {
        writer = record { buffer = none; order_buffer = some order; order_buffer_tail = 0 };
        ppts_pos = 0;
        opened = 0;
        events = writer_opened ∷ [];
      }))
