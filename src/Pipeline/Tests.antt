-- ===== src/Pipeline/Tests.antt =====
-- A run of the receiver: eleven heaps of two bytes come in order, eight to a block.
use incoherent_beamformer.Common.{
  ℕ, ◌+◌, ◌*◌, ◌≡◌, ◌≢◌, refl, false, Option, none, some, List, [], ◌∷◌, Memory, if◌then◌else◌,
  ◌==◌, memcpy, memset, ◌>>=◌,
}
use mathlib.Core.List.{map}
use incoherent_beamformer.Settings.{Settings}
use incoherent_beamformer.Fixture.{small}
use incoherent_beamformer.OrderBuffer.{write_to_order_buffer, to_dada_buffer}
use incoherent_beamformer.Callback.{
  SnapShot, Worker, Signal, System, Reply, ItemGroup, read_timestamp, heap_offset, first_heap,
  attach, follow, distance, roll_over, advance_tail, next_block, move_on, place_at, place_heap,
  accept_heap, spead_api_callback,
}
use incoherent_beamformer.Callback.Timestamp.{timestamp_item}
use incoherent_beamformer.DadaThread.{
  Dada, closed, header, stopped, writer_opened, Event, handle, change_block, open_block,
  dada_thread,
}
use incoherent_beamformer.Pipeline.{quiet, with_order}

-- A run in which the process of the block takes each worker's signals, in their order, before the
-- next heap comes.
pub record Receiver : Type 0 where
  pub system : System
  pub worker : Worker
  pub dada : Dada

abbrev tagged : SnapShot → List (ℕ × Signal) → List (SnapShot × Signal)
tagged ss [] = []
tagged ss ((pid, signal) ∷ rest) = (ss, signal) ∷ tagged ss rest

abbrev serve : Settings → (ℕ → Option Memory) → Reply → SnapShot → Dada → Option Receiver
serve s blocks reply ss d =
    dada_thread s blocks (tagged ss reply.0.sent) (with_order reply.0.order d) >>= λ r.
    r.0.writer.order_buffer >>= λ order. some (record {
      system = record (reply.0) { sent = []; order = order };
      worker = reply.1;
      dada = r.0;
    })

abbrev deliver : Settings → (ℕ → Option Memory) → ItemGroup → Receiver → Option Receiver
deliver s blocks group r = spead_api_callback s group (quiet r.system) r.worker >>= λ reply.
    elim (reply.0.shared) [
      | none ↦ some (record r { system = reply.0; worker = reply.1 })
      | some ss ↦ serve s blocks reply ss r.dada
    ]

abbrev deliver_all : Settings → (ℕ → Option Memory) → List ItemGroup → Receiver → Option Receiver
deliver_all s blocks [] r = some r
deliver_all s blocks (group ∷ groups) r = deliver s blocks group r >>= deliver_all s blocks groups

-- Heap `n` has the timestamp 1000 + 2n and the bytes 10n + 1 and 10n + 2.
abbrev pub numbered : ℕ → ItemGroup
numbered n id =
    if id == 4097
    then some (timestamp_item (1000 + 2 * n))
    else if id == 4098
    then some (record { size = 2; cell = λ i. 10 * n + 1 + i })
    else none

abbrev pub blank : ℕ → Option Memory
blank n = some (record { size = 16; cell = λ i. 0 })

abbrev start : Receiver
start = record {
  system = record {
    shared = some (record {
      num_heaps = 0;
      parent_pid = 100;
      order_buffer_tail = 0;
      master_pid = 0;
      prior_ts = 0;
      prev_prior_ts = 0 ∷ 0 ∷ 0 ∷ 0 ∷ 0 ∷ 0 ∷ 0 ∷ 0 ∷ 0 ∷ 0 ∷ [];
      ppts_pos = 0;
      buffer_created = 0;
      buffer_connected = 0;
      first_thread = 0;
      dada_key = 0x1234;
      ob_id = 5;
      dpb_id = 6;
      order_buffer_read_pos = 0;
      o_b_sem_id = 9;
    });
    order = record { size = 8; cell = λ i. 0 };
    sent = [];
  };
  worker = record {
    pid = 102;
    prior_ts = 0;
    attached = false;
    order_buffer_tail = 0;
    o_b_sem_id = 0;
  };
  dada = record {
    writer = record { buffer = blank 0; order_buffer = none; order_buffer_tail = 0 };
    ppts_pos = 0;
    opened = 1;
    events = [];
  };
}

-- The bytes of a block, and those of the blocks that were closed.
abbrev bytes_of : Memory → List ℕ
bytes_of block =
    map block.cell (0 ∷ 1 ∷ 2 ∷ 3 ∷ 4 ∷ 5 ∷ 6 ∷ 7 ∷ 8 ∷ 9 ∷ 10 ∷ 11 ∷ 12 ∷ 13 ∷ 14 ∷ 15 ∷ [])

abbrev closed_bytes : List Event → List (List ℕ)
closed_bytes [] = []
closed_bytes (closed none n ∷ events) = closed_bytes events
closed_bytes (closed (some block) n ∷ events) = bytes_of block ∷ closed_bytes events
closed_bytes (header ts ∷ events) = closed_bytes events
closed_bytes (writer_opened ∷ events) = closed_bytes events
closed_bytes (stopped ∷ events) = closed_bytes events

abbrev open_bytes : Option Memory → List ℕ
open_bytes none = []
open_bytes (some block) = bytes_of block

abbrev seen : Option Receiver → List (List ℕ)
seen none = []
seen (some r) = open_bytes r.dada.writer.buffer ∷ closed_bytes r.dada.events

abbrev heaps : List ItemGroup
heaps =
    numbered 0
    ∷ numbered 1
    ∷ numbered 2
    ∷ numbered 3
    ∷ numbered 4
    ∷ numbered 5
    ∷ numbered 6
    ∷ numbered 7
    ∷ numbered 8
    ∷ numbered 9
    ∷ numbered 10
    ∷ []

-- The first block is closed without its last three heaps, which then stand in the open block.
last_heaps_in_next_block :
    seen (deliver_all small blank heaps start)
    ≡ (0 ∷ 0 ∷ 0 ∷ 0 ∷ 0 ∷ 0 ∷ 0 ∷ 0 ∷ 0 ∷ 0 ∷ 51 ∷ 52 ∷ 61 ∷ 62 ∷ 71 ∷ 72 ∷ [])
      ∷ (1 ∷ 2 ∷ 11 ∷ 12 ∷ 21 ∷ 22 ∷ 31 ∷ 32 ∷ 41 ∷ 42 ∷ 0 ∷ 0 ∷ 0 ∷ 0 ∷ 0 ∷ 0 ∷ [])
      ∷ []
unfolding spead_api_callback read_timestamp accept_heap first_heap follow attach place_heap
    heap_offset place_at write_to_order_buffer memcpy move_on distance next_block roll_over
    advance_tail dada_thread handle change_block open_block to_dada_buffer memset
last_heaps_in_next_block = refl

-- The shared data after the first heap.
abbrev pub begun : SnapShot
begun = record {
  num_heaps = 1;
  parent_pid = 100;
  order_buffer_tail = 0;
  master_pid = 102;
  prior_ts = 1000;
  prev_prior_ts = 0 ∷ 0 ∷ 0 ∷ 0 ∷ 0 ∷ 0 ∷ 0 ∷ 0 ∷ 0 ∷ 0 ∷ [];
  ppts_pos = 0;
  buffer_created = 0;
  buffer_connected = 1;
  first_thread = 1;
  dada_key = 0x1234;
  ob_id = 5;
  dpb_id = 6;
  order_buffer_read_pos = 0;
  o_b_sem_id = 9;
}

abbrev pub under_way : Receiver
under_way = record start { system = record (start.system) { shared = some begun } }

pub blank-ne-none : (n : ℕ) → blank n ≢ none
blank-ne-none n h = cc
