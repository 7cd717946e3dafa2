-- ===== src/LifeCycle/Begin.antt =====
-- What setup leaves: shared data in which the receiver can start, and the lock.
use mathlib.Core.List.{append_assoc}
use incoherent_beamformer.Common.{
  ℕ, ◌%◌, ◌≤◌, ◌<◌, ◌≡◌, refl, ap, ◌∙◌, Option, none, some, List, [], ◌∷◌, ◌++◌, arith, Memory,
  memset, memset_lem, ◌>>=◌, length,
}
use incoherent_beamformer.Settings.{Settings}
use incoherent_beamformer.Callback.{SnapShot, Signal}
use incoherent_beamformer.Callback.Steps.{IsValid}
use incoherent_beamformer.DadaThread.{
  Dada, running, returned, writer_opened, open_block, dada_thread, after_open, dada_process,
}
use incoherent_beamformer.Pipeline.InStep.{InStep}
use incoherent_beamformer.LifeCycle.{
  ModuleCall, locked, unlocked, data_set, Resources, Module, call, set_up, serving, fresh_data,
  create_buffers, after_dada_thread, with_buffers, first_setup, new_data, with_data, setup,
}

-- The system has all that setup asks for, and the new memory for the shared data is zero where
-- setup leaves it as it is.
pub record IsSupplied (s : Settings) (env : Resources) (raw : SnapShot) (dropped order : Memory)
    : Type 0 where
  pub malloc : env.shared_malloc ≡ some raw
  pub buffers : env.dropped_packet_buffer ≡ some dropped
  pub room : s.dpb_size ≤ dropped.size
  pub orders : env.order_buffer ≡ some order
  pub not_created : raw.buffer_created ≡ 0
  pub at_start : raw.order_buffer_tail ≡ 0
  pub ring : length raw.prev_prior_ts ≡ 10

-- The process of the DADA block before its first signal.
abbrev pub started : Memory → Memory → Dada
started block order = record {
  writer = record { buffer = some block; order_buffer = some order; order_buffer_tail = 0 };
  ppts_pos = 0;
  opened = 1;
  events = writer_opened ∷ [];
}

-- The module as the process of the DADA block has it.
abbrev pub begun : Settings → ℕ → Resources → SnapShot → Module → Module
begun s pid env raw m = record m {
  shared = some (create_buffers pid env (fresh_data s raw));
  calls = ((m.calls ++ locked ∷ []) ++ data_set ∷ []) ++ unlocked ∷ [];
  num_dropped_packets = 0;
  num_recieved_packets = 0;
}

zero-mod : (n : ℕ) → 0 % n ≡ 0
zero-mod n = grind arith

fresh_created :
    (s : Settings) (ss : SnapShot) → ss.buffer_created ≡ 0 → (fresh_data s ss).buffer_created ≡ 0
unfolding fresh_data
fresh_created s ss h = h

-- Where the system has all that setup asks for, the process becomes that of the DADA block.
setup_lem :
    (s : Settings) (pid : ℕ) (env : Resources) (raw : SnapShot) (dropped order : Memory)
    (blocks : ℕ → Option Memory) (signals : List (SnapShot × Signal)) (m : Module)
    → m.shared ≡ none
    → IsSupplied s env raw dropped order
    → setup s pid env blocks signals m
      ≡ after_dada_thread (begun s pid env raw m) (dada_process s blocks order signals)
unfolding setup with_data new_data first_setup with_buffers
setup_lem s pid env raw dropped order blocks signals m no_data supplied =
    let zeroed = memset_lem dropped 0 0 s.dpb_size (omega arith) in
    let m' = call locked (record m { num_dropped_packets = 0; num_recieved_packets = 0 }) in
    let ss = fresh_data s raw in
    ap (with_data s pid env blocks signals m') no_data
    ∙ ap (new_data s pid env blocks signals m') supplied.malloc
    ∙ simp (fresh_created s raw supplied.not_created) refl
    ∙ ap (λ (r : Option Memory). with_buffers s pid env blocks signals ss m' r env.order_buffer)
        (ap (λ (r : Option Memory). r >>= λ b. memset b 0 0 s.dpb_size) supplied.buffers ∙ zeroed)
    ∙ ap (λ (r : Option Memory). with_buffers s pid env blocks signals ss m' (some dropped) r)
        supplied.orders

-- Before the first block.
abbrev unopened : Memory → Dada
unopened order = record {
  writer = record { buffer = none; order_buffer = some order; order_buffer_tail = 0 };
  ppts_pos = 0;
  opened = 0;
  events = writer_opened ∷ [];
}

-- After the call that opened none.
abbrev unserved : Memory → Dada
unserved order = record (unopened order) { opened = 1 }

abbrev with_block : Memory → Option Memory → Dada
with_block order b = record (unserved order) {
  writer = record { buffer = b; order_buffer = some order; order_buffer_tail = 0 };
}

open_block-some :
    (s : Settings) (blocks : ℕ → Option Memory) (order block : Memory)
    → blocks 0 ≡ some block
    → open_block s blocks (unopened order) ≡ (started block order, running)
unfolding open_block
open_block-some s blocks order block opens =
    rw (open_block, opens) (ap (λ (b : Option Memory). (with_block order b, running)) opens)

open_block-none :
    (s : Settings) (blocks : ℕ → Option Memory) (order : Memory)
    → blocks 0 ≡ none
    → open_block s blocks (unopened order) ≡ (unserved order, returned)
unfolding open_block
open_block-none s blocks order opens =
    rw (open_block, opens) (ap (λ (b : Option Memory). (with_block order b, returned)) opens)

dada_process-some :
    (s : Settings) (blocks : ℕ → Option Memory) (order block : Memory)
    → blocks 0 ≡ some block
    → dada_process s blocks order [] ≡ some (started block order, running)
unfolding dada_process after_open dada_thread
dada_process-some s blocks order block opens =
    ap (after_open s blocks []) (open_block-some s blocks order block opens)

dada_process-none :
    (s : Settings) (blocks : ℕ → Option Memory) (order : Memory)
    → blocks 0 ≡ none
    → dada_process s blocks order [] ≡ some (unserved order, returned)
unfolding dada_process after_open
dada_process-none s blocks order opens =
    ap (after_open s blocks []) (open_block-none s blocks order opens)

-- The first process to call setup, with sizes that are not 0, where the system has all that it asks
-- for, the new shared memory is zero, and PSRDADA opens a block: it waits as the process of that
-- block, with the lock given back. The shared data is well formed and names it as the receiver of
-- signals, and both have the same tail and the same place in the ring of timestamps.
pub setup_first :
    (s : Settings) (pid : ℕ) (env : Resources) (raw : SnapShot) (dropped order block : Memory)
    (blocks : ℕ → Option Memory) (m : Module)
    → 0 < s.dada_buf_size
    → 0 < s.ob_segment
    → m.shared ≡ none
    → IsSupplied s env raw dropped order
    → blocks 0 ≡ some block
    → (ss : SnapShot) × (setup s pid env blocks [] m
        ≡ serving (begun s pid env raw m) (started block order))
      × ((begun s pid env raw m).shared ≡ some ss)
      × IsValid s ss
      × InStep (started block order) ss
      × (ss.parent_pid ≡ pid)
unfolding fresh_data create_buffers after_dada_thread
setup_first s pid env raw dropped order block blocks m size seg no_data supplied opens = (
  create_buffers pid env (fresh_data s raw),
  setup_lem s pid env raw dropped order blocks [] m no_data supplied
      ∙ ap (after_dada_thread (begun s pid env raw m))
          (dada_process-some s blocks order block opens),
  refl,
  record {
    tail_in = ground arith;
    tail_at = ap (λ (n : ℕ). n % s.ob_segment) supplied.at_start ∙ zero-mod s.ob_segment;
    ring = supplied.ring;
    ring_pos = omega arith;
    stamp = omega arith;
  },
  (supplied.at_start, refl),
  refl,
)

-- Where PSRDADA opens no block, the first process returns from setup as any other, but it has given
-- the lock back twice, once more than it took it.
pub setup_without_block :
    (s : Settings) (pid : ℕ) (env : Resources) (raw : SnapShot) (dropped order : Memory)
    (blocks : ℕ → Option Memory) (m : Module)
    → m.shared ≡ none
    → IsSupplied s env raw dropped order
    → blocks 0 ≡ none
    → (m' : Module) × (setup s pid env blocks [] m ≡ set_up m')
      × (m'.calls
          ≡ (((m.calls ++ locked ∷ data_set ∷ unlocked ∷ []) ++ data_set ∷ []) ++ unlocked ∷ []))
      × (m'.shared ≡ some (create_buffers pid env (fresh_data s raw)))
unfolding after_dada_thread
setup_without_block s pid env raw dropped order blocks m no_data supplied opens = (
  record (begun s pid env raw m) {
    calls = ((begun s pid env raw m).calls ++ data_set ∷ []) ++ unlocked ∷ [];
    num_bytes_transferred = 0;
  },
  setup_lem s pid env raw dropped order blocks [] m no_data supplied
      ∙ ap (after_dada_thread (begun s pid env raw m)) (dada_process-none s blocks order opens),
  ap (λ (calls : List ModuleCall). (calls ++ data_set ∷ []) ++ unlocked ∷ [])
      (ap (λ (calls : List ModuleCall). calls ++ unlocked ∷ [])
          (append_assoc m.calls (locked ∷ []) (data_set ∷ []))
        ∙ append_assoc m.calls (locked ∷ data_set ∷ []) (unlocked ∷ [])),
  refl,
)
