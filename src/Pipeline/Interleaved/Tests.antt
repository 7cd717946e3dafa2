-- ===== src/Pipeline/Interleaved/Tests.antt =====
-- Two workers, and a SIGUSR1 that is sent while another is pending.
use incoherent_beamformer.Common.{
  ℕ, ◌+◌, ◌≡◌, refl, arith, true, false, Option, none, some, Memory, memcpy, memset, negsuc,
}
use incoherent_beamformer.Fixture.{small}
use incoherent_beamformer.OrderBuffer.{write_to_order_buffer, to_dada_buffer}
use incoherent_beamformer.Callback.{
  SnapShot, sigusr1, Reply, read_timestamp, heap_offset, first_heap, attach, follow, distance,
  roll_over, advance_tail, next_block, move_on, place_at, place_heap, accept_heap,
  spead_api_callback,
}
use incoherent_beamformer.DadaThread.{Dada, Status, handle}
use incoherent_beamformer.Pipeline.{quiet, with_order}
use incoherent_beamformer.Pipeline.Tests.{numbered, blank, begun, under_way, blank-ne-none}
use incoherent_beamformer.Pipeline.Interleaved.{
  World, send_to, send_all, after_call, Reach, here, next, heap, segment,
}
use incoherent_beamformer.Pipeline.Ledger.{times, InLedger, Reach-InLedger}
use incoherent_beamformer.Callback.Steps.{Holds}
use incoherent_beamformer.Pipeline.InStep.{InStep}
use incoherent_beamformer.Pipeline.Paced.{
  IsIdle, Paced, at_start, then_heap, none_taken, one_taken, Paced-InStep,
}
use incoherent_beamformer.Pipeline.Taking.{IsTaken, pending-IsTaken}

abbrev two_workers : World
two_workers = record {
  system = under_way.system;
  workers = λ i. record {
    pid = 102 + i;
    prior_ts = 0;
    attached = false;
    order_buffer_tail = 0;
    o_b_sem_id = 0;
  };
  dada = under_way.dada;
  usr1 = false;
  usr2 = false;
  lost1 = 0;
  lost2 = 0;
}

abbrev order_of : Option Memory → Memory
order_of none = under_way.system.order
order_of (some order) = order

abbrev shared_of : World → SnapShot
shared_of w = elim (w.system.shared) [ none ↦ begun | some ss ↦ ss ]

abbrev or_silent : World → ℕ → Option Reply → Reply
or_silent w i none = (w.system, w.workers i, negsuc 0)
or_silent w i (some reply) = reply

-- Worker `i` takes a heap.
abbrev reply_of : World → ℕ → ℕ → Reply
reply_of w i n =
    or_silent w i (spead_api_callback small (numbered n) (quiet w.system) (w.workers i))

abbrev taken_by : World → ℕ → ℕ → World
unfolding send_all
taken_by w i n = send_all (reply_of w i n).0.sent (after_call w i (reply_of w i n))

abbrev one : World
one = taken_by two_workers 0 3

abbrev two : World
two = taken_by one 1 4

-- The second SIGUSR1 is lost.
merged : (two.usr1 ≡ true) × (two.lost1 ≡ 1)
unfolding spead_api_callback read_timestamp accept_heap first_heap follow attach place_heap
    heap_offset place_at write_to_order_buffer memcpy move_on distance next_block roll_over
    advance_tail send_all send_to
merged = (refl, refl)

abbrev or_same : World → Option (Dada × Status) → World
or_same w none = w
or_same w (some r) = record w {
  usr1 = false;
  dada = r.0;
  system = record (w.system) { order = order_of r.0.writer.order_buffer };
}

-- The process of the block takes the one that is pending.
abbrev behind : World
unfolding handle to_dada_buffer
behind = or_same two (handle small blank begun sigusr1 (with_order two.system.order two.dada))

steps : Reach small blank two_workers behind
unfolding spead_api_callback read_timestamp accept_heap first_heap follow attach place_heap
    heap_offset place_at write_to_order_buffer memcpy move_on distance next_block roll_over
    advance_tail send_all send_to handle to_dada_buffer memset
steps =
    next
      (next (next here (heap two_workers 0 (numbered 3) (reply_of two_workers 0 3) refl))
        (heap one 1 (numbered 4) (reply_of one 1 4) refl))
      (segment two (shared_of two) behind.dada behind.system.order refl refl refl refl)

-- With nothing pending, the process of the block is a segment behind the workers for good.
left_behind :
    (behind.usr1 ≡ false)
    × (behind.dada.writer.order_buffer_tail ≡ 2)
    × ((shared_of behind).order_buffer_tail ≡ 4)
unfolding spead_api_callback read_timestamp accept_heap first_heap follow attach place_heap
    heap_offset place_at write_to_order_buffer memcpy move_on distance next_block roll_over
    advance_tail send_all send_to handle to_dada_buffer memset
left_behind = (refl, refl, refl)

Reach-InLedger_example : InLedger small behind
unfolding times
Reach-InLedger_example = Reach-InLedger small blank (record { tail = refl; place = refl }) steps

-- Both signals are pending, and the segment at place 2 of the order buffer waits.
abbrev both_pending : World
both_pending = record two_workers {
  usr1 = true;
  usr2 = true;
  system = record (under_way.system) { order = record { size = 8; cell = λ i. 50 + i } };
  dada = record (under_way.dada) {
    writer = record { buffer = blank 0; order_buffer = none; order_buffer_tail = 2 };
  };
}

pending-IsTaken_example :
    (w' : World) × Reach small blank both_pending w'
    × IsTaken small blank both_pending (record { size = 16; cell = λ i. 0 }) 2 0 w'
pending-IsTaken_example =
    pending-IsTaken small blank both_pending begun (record { size = 16; cell = λ i. 0 }) 2 0
      (record {
        shared = refl;
        in_hand = refl;
        at = refl;
        some_size = omega arith;
        small = omega arith;
        room = omega arith;
        below = omega arith;
        word = omega arith;
        wide = omega arith;
        fits = omega arith;
        stamp = refl;
      })
      (blank-ne-none 1)

-- Worker 0 takes a heap, and the process of the block its SIGUSR1.
abbrev caught_up : World
unfolding handle to_dada_buffer
caught_up = or_same one (handle small blank begun sigusr1 (with_order one.system.order one.dada))

paced : Paced small blank two_workers caught_up
unfolding spead_api_callback read_timestamp accept_heap first_heap follow attach place_heap
    heap_offset place_at write_to_order_buffer memcpy move_on distance next_block roll_over
    advance_tail send_all send_to handle to_dada_buffer memset
paced =
    then_heap at_start (heap two_workers 0 (numbered 3) (reply_of two_workers 0 3) refl) refl
      (one_taken none_taken
        (segment one (shared_of one) caught_up.dada caught_up.system.order refl refl refl refl)
        refl)
      refl refl

Paced-InStep_example : Holds (InStep caught_up.dada) caught_up.system.shared × IsIdle caught_up
Paced-InStep_example =
    Paced-InStep small blank (refl, refl)
      (record { usr1 = refl; usr2 = refl; lost1 = refl; lost2 = refl }) paced
