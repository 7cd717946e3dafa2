-- ===== src/LifeCycle/Tests.antt =====
-- A first process, with and without a block from PSRDADA, and the end of the receiver.
use incoherent_beamformer.Common.{
  ℕ, ◌+◌, ◌*◌, ◌≡◌, refl, false, Option, some, none, negsuc, [], ◌∷◌, arith, Memory, if◌then◌else◌,
  ◌==◌,
}
use incoherent_beamformer.Fixture.{small}
use incoherent_beamformer.Callback.{SnapShot, Worker, ItemGroup, System, Reply, spead_api_callback}
use incoherent_beamformer.Callback.Steps.{IsValid}
use incoherent_beamformer.Pipeline.InStep.{InStep}
use incoherent_beamformer.LifeCycle.{Resources, Module, serving, fresh_data, create_buffers, setup}
use incoherent_beamformer.LifeCycle.Begin.{IsSupplied, started, begun, setup_first}
use incoherent_beamformer.LifeCycle.End.{calls}
use incoherent_beamformer.Callback.Timestamp.{timestamp_item}

abbrev zeroed : Memory
zeroed = record { size = 256; cell = λ i. 0 }

abbrev order : Memory
order = record { size = 8; cell = λ i. 0 }

abbrev block : Memory
block = record { size = 16; cell = λ i. 0 }

-- New shared memory, all zero.
abbrev raw : SnapShot
raw = record {
  num_heaps = 0;
  parent_pid = 0;
  order_buffer_tail = 0;
  master_pid = 0;
  prior_ts = 0;
  prev_prior_ts = 0 ∷ 0 ∷ 0 ∷ 0 ∷ 0 ∷ 0 ∷ 0 ∷ 0 ∷ 0 ∷ 0 ∷ [];
  ppts_pos = 0;
  buffer_created = 0;
  buffer_connected = 0;
  first_thread = 0;
  dada_key = 0;
  ob_id = 0;
  dpb_id = 0;
  order_buffer_read_pos = 0;
  o_b_sem_id = 0;
}

abbrev env : Resources
env = record {
  shared_malloc = some raw;
  order_buffer = some order;
  ob_id = 5;
  dropped_packet_buffer = some zeroed;
  dpb_id = 6;
  o_b_sem_id = 9;
}

abbrev empty : Module
empty = record {
  shared = none;
  calls = [];
  num_dropped_packets = 3;
  num_recieved_packets = 4;
  num_bytes_transferred = 5;
}

supplied : IsSupplied small env raw zeroed order
supplied = record {
  malloc = refl;
  buffers = refl;
  room = omega arith;
  orders = refl;
  not_created = refl;
  at_start = refl;
  ring = refl;
}

setup_first_example :
    (ss : SnapShot) × (setup small 100 env (λ n. some block) [] empty
      ≡ serving (begun small 100 env raw empty) (started block order))
    × ((begun small 100 env raw empty).shared ≡ some ss)
    × IsValid small ss
    × InStep (started block order) ss
    × (ss.parent_pid ≡ 100)
setup_first_example =
    setup_first small 100 env raw zeroed order block (λ n. some block) empty (omega arith)
      (omega arith) refl supplied refl

-- Heap `n`, of two bytes.
abbrev numbered : ℕ → ItemGroup
numbered n id =
    if id == 4097
    then some (timestamp_item (1000 + 2 * n))
    else if id == 4098
    then some (record { size = 2; cell = λ i. n })
    else none

-- The shared data that the first process leaves, which worker 102 finds.
abbrev left : SnapShot
unfolding create_buffers fresh_data
left = create_buffers 100 env (fresh_data small raw)

abbrev system : System
system = record { shared = some left; order = order; sent = [] }

abbrev worker : Worker
worker = record { pid = 102; prior_ts = 0; attached = false; order_buffer_tail = 0; o_b_sem_id = 0 }

abbrev or_silent : Option Reply → Reply
or_silent none = (system, worker, negsuc 0)
or_silent (some reply) = reply

abbrev reply : Reply
unfolding spead_api_callback
reply = or_silent (spead_api_callback small (numbered 0) system worker)

abbrev next_reply : Reply
unfolding spead_api_callback
next_reply = or_silent (spead_api_callback small (numbered 1) reply.0 (record worker { pid = 103 }))
