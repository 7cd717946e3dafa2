-- ===== src/Separated.antt =====
-- The receiver that leaves the DADA block to another process, spead_callback/to_buffer_separated.c:
-- its settings, and its callback with all that it calls.
pub mod Segments
pub mod Placed
pub mod Begin
mod Tests
use Prim.Native.String.{String}
use incoherent_beamformer.Common.{
  ℕ, ◌+◌, ◌-◌, ◌*◌, ◌/◌, ◌%◌, ◌^◌, Bool, true, ◌||◌, Option, none, some, List, [], ◌∷◌, ◌++◌, ltb,
  leb, ◌==◌, if◌then◌else◌, ℤ, pos, negsuc, u32, u64, sub64, Memory, memcpy,
}
use incoherent_beamformer.Settings.{
  Outcome, done, exited, fault, rem, exit_unless_zero, setting, ◌>>=◌, ◌>>◌,
}
use incoherent_beamformer.Callback.{read_timestamp}
use incoherent_beamformer.PacketBits.{set_bit}

-- The globals that `get_settings` fills; those that this file uses.
pub record Sizes : Type 0 where
  pub timestamp_spead_id : ℕ
  pub timestamp_increment : ℕ
  pub data_spead_id : ℕ
  pub expected_heap_len : ℕ
  pub num_heaps_per_buf : ℕ
  pub dada_buf_size : ℕ
  pub num_heaps_per_ob : ℕ
  pub ob_size : ℕ
  pub ob_segment : ℕ
  pub ob_key : ℕ
  pub dpb_size : ℕ
  pub dpb_key : ℕ
  pub dbp_sem_key : ℕ

-- The dropped-packet buffer has a byte for each heap, where a bit is used.
unfoldable pub get_settings : (String → Option String) → (String → ℤ) → Outcome Sizes
get_settings getenv atoi = do
  let timestamps_per_heap = setting getenv atoi 32 "TIMESTAMPS_PER_HEAP" 1
  let chan_per_heap = setting getenv atoi 32 "CHANS_PER_HEAP" 1024
  let pols = setting getenv atoi 32 "POLARIZATIONS" 2
  let bytes_per_sample = setting getenv atoi 32 "BYTES_PER_SAMPLE" 1
  let heap_len = u32 (u32 (u32 (timestamps_per_heap * chan_per_heap) * pols) * bytes_per_sample)
  let heaps_per_buf = setting getenv atoi 64 "NUM_HEAPS_PER_BUFFER" 32
  let heaps_per_ob = setting getenv atoi 32 "NUM_HEAPS_PER_ORDER_BUF" 32
  left ← rem heaps_per_buf heaps_per_ob
  exit_unless_zero left
  let ob_size = u64 (heaps_per_ob * heap_len)
  exit_unless_zero (heaps_per_ob % 4)
  done (record {
    timestamp_spead_id = setting getenv atoi 32 "TIMESTAMP_SPEAD_ID" 4097;
    timestamp_increment = setting getenv atoi 32 "TIMESTAMP_INCREMENT" 512;
    data_spead_id = setting getenv atoi 32 "DATA_SPEAD_ID" 4098;
    expected_heap_len = heap_len;
    num_heaps_per_buf = heaps_per_buf;
    dada_buf_size = u64 (heap_len * heaps_per_buf);
    num_heaps_per_ob = heaps_per_ob;
    ob_size = ob_size;
    ob_segment = ob_size / 4;
    ob_key = setting getenv atoi 32 "ORDER_BUFFER_KEY" 0x10235;
    dpb_size = heaps_per_ob;
    dpb_key = setting getenv atoi 32 "DROPPED_PACKET_BUFFER_KEY" 0x10236;
    dbp_sem_key = setting getenv atoi 32 "DROPPED_PACKET_BUFFER_SEM_KEY" 0x10237;
  })

-- An item: its data, and the memory from its own structure on. Nothing says where the one lies in the
-- other; nothing is written to either.
pub record Item : Type 0 where
  pub i_data : Memory
  pub structure : Memory

abbrev pub ItemGroup : Type 0
ItemGroup = ℕ → Option Item

pub data LockCall : Type 0 where
  locked unlocked data_set : LockCall

-- The shared data (`ss`), the details for the other process (`bd`), the two buffers, and the calls
-- of the module. A cell of `dropped` is a word of 32 bits.
pub record Shared : Type 0 where
  pub master_pid : ℕ
  pub prior_ts : ℕ
  pub bd_order_buffer_tail : ℕ
  pub transfer : ℕ
  pub order : Memory
  pub dropped : Memory
  pub calls : List LockCall

-- The globals of a process. `attached` says that `order_buffer` is no null pointer.
pub record Process : Type 0 where
  pub pid : ℕ
  pub prior_ts : ℕ
  pub attached : Bool
  pub order_buffer_tail : ℕ

abbrev pub call : LockCall → Shared → Shared
call c ss = record ss { calls = ss.calls ++ c ∷ [] }

-- The copy; and the mark, whose two calls of semop are taken to succeed.
unfoldable pub write_to_order_buffer : Sizes → Memory → ℕ → Shared → Outcome Shared
write_to_order_buffer s heap offset ss =
    if s.ob_size == 0 || s.expected_heap_len == 0
    then fault
    else elim (memcpy ss.order (offset % s.ob_size) heap 0 s.expected_heap_len) [
      | none ↦ fault
      | some order' ↦ do
        dropped' ← set_bit true true 32 ss.dropped (offset % s.ob_size / s.expected_heap_len)
        done (record ss { order = order'; dropped = dropped' })
    ]

-- The lock is given back twice.
unfoldable pub first_heap : ℕ → ℕ → Shared → Shared
first_heap pid ts ss =
    if ss.prior_ts == 0
    then call unlocked (
        call unlocked (call data_set (record (call locked ss) { master_pid = pid; prior_ts = ts })))
    else ss

unfoldable pub attach : Shared → Process → Process
attach ss p =
    if p.attached
    then p
    else record p { prior_ts = ss.prior_ts; attached = true; order_buffer_tail = 0 }

-- A process that is behind the shared timestamp keeps its own: that is only reported.
unfoldable pub follow : Shared → Process → Process
follow ss p = if ltb ss.prior_ts p.prior_ts then record p { prior_ts = ss.prior_ts } else p

unfoldable pub heap_offset : Sizes → ℕ → ℕ → Outcome ℕ
heap_offset s ts prior_ts =
    if s.timestamp_increment == 0
    then fault
    else done (u64 (sub64 ts prior_ts / s.timestamp_increment * s.expected_heap_len))

-- (check > obSegment) || (check * -1 > obSegment), both unsigned.
unfoldable pub should_move : ℕ → ℕ → Bool
should_move check segment = ltb segment check || ltb segment (sub64 0 check)

-- The block is full: its timestamp moves on, modulo ULLONG_MAX.
unfoldable pub roll_over : Sizes → Shared → Shared
roll_over s ss = call unlocked (
    call data_set (
      call data_set (record (call locked ss) {
        prior_ts =
            u64 (ss.prior_ts + u64 (s.num_heaps_per_buf * s.timestamp_increment)) % (2 ^ 64 - 1);
      })))

-- The other process is told to transfer a segment.
unfoldable pub hand_over : Sizes → Shared → Process → Outcome (Shared × Process)
hand_over s ss p =
    if s.dada_buf_size == 0
    then fault
    else done (
      record ss { bd_order_buffer_tail = p.order_buffer_tail; transfer = 1 },
      record p { order_buffer_tail = u64 (p.order_buffer_tail + s.ob_segment) % s.dada_buf_size },
    )

unfoldable pub move_on : Sizes → ℕ → Shared → Process → Outcome (Shared × Process)
move_on s offset ss p =
    let rolled = roll_over s ss in
    if p.pid == ss.master_pid
    then (if should_move (sub64 offset p.order_buffer_tail) s.ob_segment
        then (if leb s.dada_buf_size offset
            then hand_over s rolled (record p { prior_ts = rolled.prior_ts })
            else hand_over s ss p)
        else done (ss, p))
    else done (ss, p)

-- A heap of the right size: the structure of its item is written.
unfoldable pub accept_heap : Sizes → ℕ → Memory → Shared → Process → Outcome (Shared × Process)
accept_heap s ts structure ss p =
    let ss₁ = first_heap p.pid ts ss in
    let p₁ = follow ss₁ (attach ss₁ p) in
    do
      offset ← heap_offset s ts p₁.prior_ts
      ss₂ ← write_to_order_buffer s structure offset ss₁
      move_on s offset ss₂ p₁

-- The reply: the shared data, the process and the return value. With no shared data the lock is
-- given back, which is all that the call does.
abbrev pub Reply : Type 0
Reply = Option Shared × Process × ℤ

abbrev pub accepted : Outcome (Shared × Process) → Outcome Reply
accepted (done (ss, p)) = done (some ss, p, pos 0)
accepted exited = exited
accepted fault = fault

unfoldable pub with_shared : Sizes → ℕ → Memory → Process → Option Shared → Outcome Reply
with_shared s ts structure p none = done (none, p, negsuc 0)
with_shared s ts structure p (some ss) = accepted (accept_heap s ts structure ss p)

-- The data item, by the length of its data and its structure.
unfoldable pub with_heap : Sizes → ℕ → ℕ → Memory → Option Shared → Process → Outcome Reply
with_heap s ts i_data_len structure ss p =
    if i_data_len == s.expected_heap_len
    then with_shared s ts structure p ss
    else done (ss, p, negsuc 0)

unfoldable pub with_stamp : Sizes → Option ℕ → Option Item → Option Shared → Process → Outcome Reply
with_stamp s none data_item ss p = fault
with_stamp s (some ts) none ss p = done (ss, p, negsuc 0)
with_stamp s (some ts) (some item) ss p = with_heap s ts item.i_data.size item.structure ss p

unfoldable pub with_items :
    Sizes → Option Item → Option Item → Option Shared → Process → Outcome Reply
with_items s none data_item ss p = done (ss, p, negsuc 0)
with_items s (some ts_item) data_item ss p =
    with_stamp s (read_timestamp ts_item.i_data) data_item ss p

unfoldable pub spead_api_callback : Sizes → ItemGroup → Option Shared → Process → Outcome Reply
spead_api_callback s group ss p =
    with_items s (group s.timestamp_spead_id) (group s.data_spead_id) ss p
