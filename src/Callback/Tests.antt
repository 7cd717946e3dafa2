-- ===== src/Callback/Tests.antt =====
-- Runs of the callback at small settings.
use incoherent_beamformer.Common.{
  ℕ, ◌+◌, ◌-◌, ◌*◌, ◌%◌, ◌^◌, ◌≤◌, ◌≡◌, ◌⊎◌, refl, true, false, none, some, [], ◌∷◌, arith, pos,
  negsuc, Memory, if◌then◌else◌, ◌==◌, copied, memcpy,
}
use incoherent_beamformer.Settings.Geometry.{IsGeometry}
use incoherent_beamformer.Fixture.{small}
use incoherent_beamformer.OrderBuffer.{write_to_order_buffer}
use incoherent_beamformer.Callback.{
  SnapShot, Worker, sigusr1, sigusr2, System, Reply, ItemGroup, read_timestamp, heap_offset,
  first_heap, attach, follow, distance, roll_over, advance_tail, next_block, move_on, place_at,
  place_heap, accept_heap, spead_api_callback,
}
use incoherent_beamformer.Callback.Timestamp.{timestamp_item, IsBytes}
use incoherent_beamformer.Callback.Offset.{heap_offset_in_block}
use incoherent_beamformer.Callback.Steps.{
  is_well_formed, IsValid, Moves, Shares, spead_api_callback_return, spead_api_callback-Moves,
}
use incoherent_beamformer.Callback.Invariant.{spead_api_callback-IsValid}
use incoherent_beamformer.Callback.Total.{spead_api_callback_total}

abbrev ss : SnapShot
ss = record {
  num_heaps = 7;
  parent_pid = 100;
  order_buffer_tail = 8;
  master_pid = 101;
  prior_ts = 1000;
  prev_prior_ts = 0 ∷ 0 ∷ 0 ∷ 0 ∷ 0 ∷ 0 ∷ 0 ∷ 0 ∷ 0 ∷ 0 ∷ [];
  ppts_pos = 3;
  buffer_created = 0;
  buffer_connected = 1;
  first_thread = 1;
  dada_key = 0x1234;
  ob_id = 5;
  dpb_id = 6;
  order_buffer_read_pos = 0;
  o_b_sem_id = 9;
}

abbrev worker : Worker
worker = record {
  pid = 102;
  prior_ts = 1000;
  attached = true;
  order_buffer_tail = 0;
  o_b_sem_id = 9;
}

abbrev sys : System
sys = record { shared = some ss; order = record { size = 8; cell = λ i. 0 }; sent = [] }

-- A heap of two bytes with the given timestamp.
abbrev group_at : ℕ → ItemGroup
group_at ts id =
    if id == 4097
    then some (timestamp_item ts)
    else if id == 4098
    then some (record { size = 2; cell = λ i. 40 + i })
    else none

abbrev next_ss : SnapShot
next_ss = record ss {
  num_heaps = 8;
  order_buffer_tail = 10;
  prior_ts = 1016;
  prev_prior_ts = 0 ∷ 0 ∷ 0 ∷ 1000 ∷ 0 ∷ 0 ∷ 0 ∷ 0 ∷ 0 ∷ 0 ∷ [];
  ppts_pos = 4;
}

abbrev reply : Reply
reply = (
  record {
    shared = some next_ss;
    order = copied sys.order 0 (record { size = 2; cell = λ i. 40 + i }) 0 2;
    sent = (100, sigusr2) ∷ (100, sigusr1) ∷ [];
  },
  record worker { prior_ts = 1016 },
  pos 0,
)

-- The first heap of the next block.
next_block_begins : spead_api_callback small (group_at 1016) sys worker ≡ some reply
unfolding spead_api_callback read_timestamp accept_heap first_heap follow attach place_heap
    heap_offset place_at write_to_order_buffer memcpy move_on distance next_block roll_over
    advance_tail
next_block_begins = refl

-- A heap from before the block is dropped.
late_heap :
    spead_api_callback small (group_at 998) sys worker
    ≡ some (record sys { shared = some (record ss { num_heaps = 8 }) }, worker, pos 0)
unfolding spead_api_callback read_timestamp accept_heap first_heap follow attach place_heap
    heap_offset place_at
late_heap = refl

no_items : spead_api_callback small (λ id. none) sys worker ≡ some (sys, worker, negsuc 0)
unfolding spead_api_callback
no_items = refl

ss-IsValid : IsValid small ss
ss-IsValid = omega arith

small-IsGeometry : IsGeometry small
small-IsGeometry = omega arith

group_at-IsBytes : (item : Memory) → group_at 1016 4097 ≡ some item → IsBytes item
group_at-IsBytes item h = ground arith

group_at_long : (item : Memory) → group_at 1016 4097 ≡ some item → 5 ≤ item.size
group_at_long item h = ground arith

-- Heap 3 of a block that began just before the timestamps wrap.
heap_offset_in_block_example :
    heap_offset small ((2 ^ 40 - 4 + 3 * 2) % 2 ^ 40) (2 ^ 40 - 4) ≡ some (3 * 2)
heap_offset_in_block_example =
    heap_offset_in_block small (2 ^ 40 - 4) 3 (omega arith) (omega arith) (omega arith)
      (omega arith) (omega arith)

spead_api_callback_return_example :
    ((is_well_formed small (group_at 1016) sys ≡ true) × (reply.2 ≡ pos 0))
    ⊎ ((is_well_formed small (group_at 1016) sys ≡ false) × (reply ≡ (sys, worker, negsuc 0)))
spead_api_callback_return_example =
    spead_api_callback_return small (group_at 1016) sys worker next_block_begins

spead_api_callback-Moves_example : Shares (λ ss'. Moves small ss ss' sys.sent reply.0.sent) reply
spead_api_callback-Moves_example =
    spead_api_callback-Moves small (group_at 1016) sys worker ss refl (omega arith)
      next_block_begins

spead_api_callback-IsValid_example : Shares (IsValid small) reply
spead_api_callback-IsValid_example =
    spead_api_callback-IsValid small (group_at 1016) sys worker ss small-IsGeometry (omega arith)
      group_at-IsBytes refl ss-IsValid next_block_begins

spead_api_callback_total_example :
    (reply' : Reply) × (spead_api_callback small (group_at 1016) sys worker ≡ some reply')
spead_api_callback_total_example =
    spead_api_callback_total small small-IsGeometry (2 ^ 63) (omega arith) (omega arith)
      (omega arith) (group_at 1016) sys worker (omega arith) group_at_long
