-- ===== src/Callback.antt =====
-- The receive callback of spead_callback/to_buffer.c, run by every worker process for each item
-- group that arrives: it reads the timestamp, places the heap in the shared order buffer, and
-- signals the process of the DADA block when a segment can be moved.
pub mod Timestamp
pub mod Offset
pub mod Steps
pub mod Invariant
pub mod Total
mod Tests
use incoherent_beamformer.Common.{
  ℕ, ◌+◌, ◌-◌, ◌*◌, ◌/◌, ◌%◌, ◌^◌, Bool, true, false, ◌&&◌, Option, none, some, List, [], ◌∷◌, ◌++◌,
  ltb, leb, ◌==◌, if◌then◌else◌, ℤ, pos, negsuc, u32, u64, sub64, Memory, ◌>>=◌, set,
}
use incoherent_beamformer.Settings.{Settings}
use incoherent_beamformer.OrderBuffer.{write_to_order_buffer}

-- `struct snap_shot`, shared by all processes, without its pointers, which the callback does
-- not read.
pub record SnapShot : Type 0 where
  pub num_heaps : ℕ
  pub parent_pid : ℕ
  pub order_buffer_tail : ℕ
  pub master_pid : ℕ
  pub prior_ts : ℕ
  pub prev_prior_ts : List ℕ
  pub ppts_pos : ℕ
  pub buffer_created : ℕ
  pub buffer_connected : ℕ
  pub first_thread : ℕ
  pub dada_key : ℕ
  pub ob_id : ℕ
  pub dpb_id : ℕ
  pub order_buffer_read_pos : ℕ
  pub o_b_sem_id : ℕ

-- The globals of one worker process. `attached` says that `order_buffer` is no null pointer.
pub record Worker : Type 0 where
  pub pid : ℕ
  pub prior_ts : ℕ
  pub attached : Bool
  pub order_buffer_tail : ℕ
  pub o_b_sem_id : ℕ

pub data Signal : Type 0 where
  sigusr1 sigusr2 sigint : Signal

-- What the processes share: the module's data, the memory of the order buffer, and the signals
-- sent so far with their receivers, the oldest first.
pub record System : Type 0 where
  pub shared : Option SnapShot
  pub order : Memory
  pub sent : List (ℕ × Signal)

-- The result of a callback: the state, the worker's globals and the return value.
abbrev pub Reply : Type 0
Reply = System × Worker × ℤ

-- An item group: the data of the item with a given id. (`get_spead_item_with_id`)
abbrev pub ItemGroup : Type 0
ItemGroup = ℕ → Option Memory

abbrev pub max_ts : ℕ
max_ts = 1099511627776

-- The five bytes of a timestamp, lowest first; `none` is a read past the end of the item.
unfoldable pub read_timestamp : Memory → Option ℕ
read_timestamp item =
    if ltb item.size 5
    then none
    else some (
        item.cell 0
        + item.cell 1 * 256
        + item.cell 2 * 256 * 256
        + item.cell 3 * 256 * 256 * 256
        + item.cell 4 * 256 * 256 * 256 * 256)

-- The time that a DADA block spans.
abbrev pub block_span : Settings → ℕ
block_span s = u64 (s.num_heaps_per_buf * s.timestamp_increment)

-- The place of a heap in the block that began at `prior_ts`, as a pattern of 64 bits; `none` is a
-- division by zero.
unfoldable pub heap_offset : Settings → ℕ → ℕ → Option ℕ
heap_offset s ts prior_ts =
    if s.timestamp_increment == 0
    then none
    else if leb ts (block_span s) && ltb (block_span s) prior_ts
    then some (u64 (u64 (sub64 max_ts prior_ts + ts) / s.timestamp_increment * s.expected_heap_len))
    else some (u64 (sub64 ts prior_ts / s.timestamp_increment * s.expected_heap_len))

-- offset < 0, as a `long long`
abbrev pub is_late : ℕ → Bool
is_late offset = leb (2 ^ 63) offset

-- The first worker to run becomes the master.
unfoldable pub first_heap : ℕ → ℕ → SnapShot → SnapShot
first_heap pid ts ss =
    if ss.first_thread == 0
    then record ss { first_thread = 1; master_pid = pid; prior_ts = ts; buffer_connected = 1 }
    else ss

-- A worker's first use of the order buffer.
unfoldable pub attach : SnapShot → Worker → Worker
attach ss w = if w.attached then w else record w {
  prior_ts = ss.prior_ts;
  attached = true;
  o_b_sem_id = ss.o_b_sem_id;
  order_buffer_tail = 0;
}

unfoldable pub follow : SnapShot → Worker → Worker
follow ss w = if w.prior_ts == ss.prior_ts then w else record w { prior_ts = ss.prior_ts }

-- |offset - tail|
unfoldable pub distance : ℕ → ℕ → ℕ
distance offset tail = let d = sub64 offset tail in if ltb d (2 ^ 63) then d else 2 ^ 64 - d

-- The block is full: its first timestamp is recorded, and the next block begins.
unfoldable pub roll_over : Settings → SnapShot → SnapShot
roll_over s ss = record ss {
  prev_prior_ts = set ss.prev_prior_ts ss.ppts_pos ss.prior_ts;
  ppts_pos = (ss.ppts_pos + 1) % 10;
  prior_ts = u64 (ss.prior_ts + block_span s) % (max_ts + 1);
}

abbrev pub send : ℕ → Signal → System → System
send pid signal sys = record sys { sent = sys.sent ++ (pid, signal) ∷ [] }

-- SIGUSR1 for one more segment. The tail's `%` faults on a block of size 0.
unfoldable pub advance_tail : Settings → SnapShot → System → Worker → Option Reply
advance_tail s ss sys w =
    if s.dada_buf_size == 0
    then none
    else let ss' = record ss {
      order_buffer_tail = u64 (ss.order_buffer_tail + s.ob_segment) % s.dada_buf_size;
    } in
      some (record (send ss.parent_pid sigusr1 sys) { shared = some ss' }, w, pos 0)

-- SIGUSR2 at the end of a block, then SIGUSR1.
unfoldable pub next_block : Settings → SnapShot → System → Worker → Option Reply
next_block s ss sys w =
    let ss' = roll_over s ss in
    advance_tail s ss' (send ss.parent_pid sigusr2 sys) (record w { prior_ts = ss'.prior_ts })

-- The end of the callback. The offset that is computed again after a roll-over is not used.
unfoldable pub move_on : Settings → ℕ → SnapShot → System → Worker → Option Reply
move_on s offset ss sys w =
    if ltb (u64 (s.ob_segment * 2)) (distance offset ss.order_buffer_tail)
    then if leb s.dada_buf_size offset then next_block s ss sys w else advance_tail s ss sys w
    else some (record sys { shared = some ss }, w, pos 0)

-- A late heap is dropped; any other goes to its place in the order buffer.
unfoldable pub place_at : Settings → ℕ → Memory → SnapShot → System → Worker → Option Reply
place_at s offset heap ss sys w =
    if is_late offset
    then some (record sys { shared = some ss }, w, pos 0)
    else (write_to_order_buffer s (some sys.order) heap offset >>= λ order'.
        move_on s offset ss (record sys { order = order' }) w)

-- A heap of the right size, with the shared data there.
unfoldable pub place_heap : Settings → ℕ → Memory → SnapShot → System → Worker → Option Reply
place_heap s ts heap ss sys w =
    heap_offset s ts w.prior_ts >>= λ offset. place_at s offset heap ss sys w

unfoldable pub accept_heap : Settings → ℕ → Memory → SnapShot → System → Worker → Option Reply
accept_heap s ts heap ss sys w =
    let ss₁ = first_heap w.pid ts ss in
    let ss₂ = record ss₁ { num_heaps = u32 (ss₁.num_heaps + 1) } in
    if ss₂.buffer_connected == 1
    then place_heap s ts heap ss₂ sys (follow ss₂ (attach ss₂ w))
    else some (record sys { shared = some ss₂ }, w, pos 0)

-- `none` is a fault.
unfoldable pub spead_api_callback : Settings → ItemGroup → System → Worker → Option Reply
spead_api_callback s group sys w = elim (group s.timestamp_spead_id) [
  | none ↦ some (sys, w, negsuc 0)
  | some item ↦ read_timestamp item >>= λ ts. elim (group s.data_spead_id) [
    | none ↦ some (sys, w, negsuc 0)
    | some heap ↦
        if heap.size == s.expected_heap_len
        then elim sys.shared [
          | none ↦ some (sys, w, negsuc 0)
          | some ss ↦ accept_heap s ts heap ss sys w
        ]
        else some (sys, w, negsuc 0)
  ]
]
