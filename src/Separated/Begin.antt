-- ===== src/Separated/Begin.antt =====
-- The beginning and the end of the receiver that leaves the DADA block to another process,
-- spead_callback/to_buffer_separated.c. The dropped-packet buffer is here the memory of its bytes.
use incoherent_beamformer.Common.{
  ℕ, ◌+◌, ◌==◌, if◌then◌else◌, Option, none, some, List, [], ◌∷◌, ◌++◌, ℤ, Memory, memset, ◌>>=◌,
}
use incoherent_beamformer.Separated.{Sizes}

-- `struct snap_shot`, as far as it is used.
pub record SnapData : Type 0 where
  pub master_pid : ℕ
  pub prior_ts : ℕ
  pub bd_id : ℕ
  pub buffer_created : ℕ

-- `struct buffer_details`, which the other process reads.
pub record Details : Type 0 where
  pub ob_id : ℕ
  pub dpb_id : ℕ
  pub ob_key : ℕ
  pub dpb_key : ℕ
  pub o_b_sem_id : ℤ
  pub order_buffer_tail : ℕ
  pub transfer : ℕ

-- What the system gives, each memory with what it happens to hold; `none` is a null pointer. An id of -1
-- of the semaphore is only reported.
pub record Environment : Type 0 where
  pub shared_malloc : Option SnapData
  pub details : Option Details
  pub bd_id : ℕ
  pub order_buffer : Option Memory
  pub ob_id : ℕ
  pub dropped_packet_buffer : Option Memory
  pub dpb_id : ℕ
  pub o_b_sem_id : ℤ

pub data SetupCall : Type 0 where
  locked unlocked data_set data_freed data_cleared : SetupCall

-- The module's data, the blocks of shared memory, and the calls of the module, the oldest first.
pub record Receiver : Type 0 where
  pub shared : Option SnapData
  pub details : Option Details
  pub order : Option Memory
  pub dropped : Option Memory
  pub num_bytes_transferred : ℕ
  pub calls : List SetupCall

abbrev pub call : SetupCall → Receiver → Receiver
call c r = record r { calls = r.calls ++ c ∷ [] }

module _ (s : Sizes) (env : Environment) where
  unfoldable pub fresh_details : Details → Details
  fresh_details bd = record bd {
    ob_key = s.ob_key;
    dpb_key = s.dpb_key;
    ob_id = env.ob_id;
    dpb_id = env.dpb_id;
    o_b_sem_id = env.o_b_sem_id;
  }

  -- Null details or a null dropped-packet buffer fault.
  unfoldable pub create_all : SnapData → Receiver → Option Receiver
  create_all ss r = do
    bd ← env.details
    dropped ← env.dropped_packet_buffer
    zeroed ← memset dropped 0 0 s.dpb_size
    some (record r {
      shared = some (record ss { bd_id = env.bd_id });
      details = some (fresh_details bd);
      order = env.order_buffer;
      dropped = some zeroed;
    })

  -- `buffer_created == 1` in the code compares.
  unfoldable pub with_new : SnapData → Receiver → Option Receiver
  with_new raw r =
      let ss = record raw { prior_ts = 0 } in
      (if raw.buffer_created == 0 then create_all ss r else some (record r { shared = some ss }))
      >>= λ r'. some (call unlocked (record (call data_set r') { num_bytes_transferred = 0 }))

  -- `none` is a fault.
  unfoldable pub setup : Receiver → Option Receiver
  setup r =
      let r₁ = call locked r in
      elim (r.shared) [
        | some ss ↦ some (call unlocked (record r₁ { num_bytes_transferred = 0 }))
        | none ↦ elim (env.shared_malloc) [
          | none ↦ some (call unlocked r₁)
          | some raw ↦ with_new raw r₁
        ]
      ]

-- The shared data is freed; the calls that would delete the buffers are commented out.
abbrev pub freed : Receiver → Receiver
freed r =
    call unlocked (call data_cleared (call data_freed (record (call locked r) { shared = none })))

-- With the seconds since the start, by which the bytes are divided. The shared data is read before it
-- is tested; only the process whose number is the master's plus one frees it. `none` is a fault.
unfoldable pub destroy : ℕ → ℕ → Receiver → Option Receiver
destroy pid sec r =
    if sec == 0
    then none
    else (r.shared >>= λ ss. some (if pid == ss.master_pid + 1 then freed r else r))
