-- ===== src/LifeCycle.antt =====
-- The beginning and the end of the receiver, `spead_api_setup` and `spead_api_destroy` of
-- spead_callback/to_buffer.c: the shared data and the order buffer are created, the process that
-- creates them becomes that of the DADA block, and at the end the master deletes them.
pub mod Begin
pub mod End
mod Tests
use Prim.Native.String.{String}
use incoherent_beamformer.Common.{
  ℕ, ◌+◌, ◌*◌, ◌/◌, ◌%◌, ◌^◌, Bool, ◌&&◌, Option, none, some, List, [], ◌∷◌, ◌++◌, ◌==◌,
  if◌then◌else◌, ℤ, u32, Memory, memset, filled, ◌>>=◌,
}
use incoherent_beamformer.Settings.{Settings, Outcome, done, exited, fault, get_settings}
use incoherent_beamformer.Callback.{SnapShot, Signal}
use incoherent_beamformer.DadaThread.{Dada, Status, running, returned, finished, dada_process}

-- The calls of the SPEAD module and of the system, in their order.
pub data ModuleCall : Type 0 where
  locked unlocked data_set data_freed data_cleared : ModuleCall
  order_buffer_deleted dropped_buffer_deleted semaphore_deleted : ℕ → ModuleCall

-- What the system gives: the new shared data, with what it happens to hold, the two blocks of
-- shared memory with their ids, and the semaphore's id; `none` is a null pointer.
pub record Resources : Type 0 where
  pub shared_malloc : Option SnapShot
  pub order_buffer : Option Memory
  pub ob_id : ℕ
  pub dropped_packet_buffer : Option Memory
  pub dpb_id : ℕ
  pub o_b_sem_id : ℕ

-- A process with the receiver's module: the shared data, the calls so far, and its own counters.
pub record Module : Type 0 where
  pub shared : Option SnapShot
  pub calls : List ModuleCall
  pub num_dropped_packets : ℕ
  pub num_recieved_packets : ℕ
  pub num_bytes_transferred : ℕ

abbrev pub call : ModuleCall → Module → Module
call c m = record m { calls = m.calls ++ c ∷ [] }

-- How setup ends: it returns; or the process goes on as that of the DADA block, and waits for
-- signals, or is through and destroys the module; or it faults.
pub data SetupResult : Type 0 where
  set_up : Module → SetupResult
  serving : Module → Dada → SetupResult
  served : Module → Dada → SetupResult
  setup_fault : SetupResult

-- The fields that setup gives the new shared data; the others keep what was in the memory.
unfoldable pub fresh_data : Settings → SnapShot → SnapShot
fresh_data s ss = record ss {
  dada_key = s.dada_buf_id;
  prior_ts = 0;
  first_thread = 0;
  num_heaps = 0;
  ppts_pos = 0;
}

-- `buffer_created == 1` in the code compares.
unfoldable pub create_buffers : ℕ → Resources → SnapShot → SnapShot
create_buffers pid env ss = record ss {
  ob_id = env.ob_id;
  dpb_id = env.dpb_id;
  o_b_sem_id = env.o_b_sem_id;
  parent_pid = pid;
}

-- After dadaThread: it is left with -1 where a block could not be opened, and setup goes on.
unfoldable pub after_dada_thread : Module → Option (Dada × Status) → SetupResult
after_dada_thread m none = setup_fault
after_dada_thread m (some (d, status)) = elim status [
  | running ↦ serving m d
  | finished ↦ served m d
  | returned ↦ set_up (call unlocked (record (call data_set m) { num_bytes_transferred = 0 }))
]

-- The first process to come: it creates the buffers and becomes the process of the DADA block. The
-- dropped-packet buffer is zeroed; a null pointer there faults. So does one for the order buffer,
-- though in the code not before its first use.
module _ (s : Settings) (pid : ℕ) (env : Resources) (blocks : ℕ → Option Memory)
    (signals : List (SnapShot × Signal)) where
  unfoldable pub with_buffers : SnapShot → Module → Option Memory → Option Memory → SetupResult
  with_buffers ss m none order = setup_fault
  with_buffers ss m (some zeroed) none = setup_fault
  with_buffers ss m (some zeroed) (some order) =
      after_dada_thread
        (call unlocked (record (call data_set m) { shared = some (create_buffers pid env ss) }))
        (dada_process s blocks order signals)

  unfoldable pub first_setup : SnapShot → Module → SetupResult
  first_setup ss m =
      if ss.buffer_created == 0
      then with_buffers ss m (env.dropped_packet_buffer >>= λ b. memset b 0 0 s.dpb_size)
          env.order_buffer
      else set_up
          (call unlocked (record (call data_set m) { shared = some ss; num_bytes_transferred = 0 }))

  -- `none` is a null pointer from shared_malloc.
  unfoldable pub new_data : Module → Option SnapShot → SetupResult
  new_data m none = set_up (call unlocked m)
  new_data m (some ss) = first_setup (fresh_data s ss) m

  -- By the shared data of the module, which a later process finds set.
  unfoldable pub with_data : Module → Option SnapShot → SetupResult
  with_data m none = new_data m env.shared_malloc
  with_data m (some ss) = set_up (call unlocked (record m { num_bytes_transferred = 0 }))

  -- From the settings on. `signals` are those that the process of the DADA block waits for.
  unfoldable pub setup : Module → SetupResult
  setup m =
      with_data (call locked (record m { num_dropped_packets = 0; num_recieved_packets = 0 }))
        m.shared

-- `none` is exit(0) in `get_settings`, or its fault.
unfoldable pub spead_api_setup :
    (String → Option String)
    → (String → ℤ)
    → ℕ
    → ℕ
    → Resources
    → (ℕ → Option Memory)
    → List (SnapShot × Signal)
    → Module
    → Option SetupResult
spead_api_setup getenv atoi before pid env blocks signals m =
    elim (get_settings getenv atoi before) [
      | done s ↦ some (setup s pid env blocks signals m)
      | exited ↦ none
      | fault ↦ none
    ]

-- The resources are deleted, by the master only, and the shared data is freed.
unfoldable pub delete_all : SnapShot → Module → Module
delete_all ss m =
    record (call unlocked (
      call data_cleared (
        call data_freed (
          call (semaphore_deleted ss.o_b_sem_id) (
            call (dropped_buffer_deleted ss.dpb_id)
              (call (order_buffer_deleted ss.ob_id) (call locked m))))))) { shared = none }

-- The percentage of dropped packets is printed before: a division by zero faults.
unfoldable pub destroy_by_master : SnapShot → Module → Option Module
destroy_by_master ss m = if m.num_recieved_packets == 0 then none else some (delete_all ss m)

-- With the seconds since the start, by which the bytes are divided; whether the process exits. The
-- wait of the master for the process of the DADA block to exist is left out. `none` is a fault,
-- also that of the null `ss`, whose master is printed. After the master
-- has freed `ss` its parent is read again: it is taken to be what it was.
unfoldable pub spead_api_destroy : ℕ → ℕ → Module → Option (Module × Bool)
spead_api_destroy pid sec m =
    if sec == 0
    then none
    else (m.shared >>= λ ss.
        (if pid == ss.master_pid then destroy_by_master ss m else some m) >>= λ m'.
        some (m', pid == ss.parent_pid))
