-- ===== src/HeadNode/Capture.antt =====
-- A thread of `capture_spead` in dada_processing/beamform_head_node.cpp: it takes heaps from a stream of
-- spead2 and adds them to the ring of the head node. A heap is the memory of its second item, in cells
-- of 16 bits.
pub mod Added
pub mod Place
mod Tests
use incoherent_beamformer.Common.{
  ℕ, zero, suc, ◌+◌, ◌*◌, ◌-◌, ◌/◌, ◌%◌, ◌^◌, ◌&&◌, ◌||◌, Bool, true, false, Option, none, some,
  List, [], ◌∷◌, ◌++◌, ltb, leb, if◌then◌else◌, u64, sub64, Memory,
}
use incoherent_beamformer.HeadNode.{bf_align}

-- *((unsigned long long *) ptr)
unfoldable pub read_stamp : Memory → Option ℕ
read_stamp item =
    if ltb item.size 4
    then none
    else some (item.cell 0 + item.cell 1 * 2 ^ 16 + item.cell 2 * 2 ^ 32 + item.cell 3 * 2 ^ 48)

-- sizeof(uint16_t) * 67108864 * 10
abbrev pub out_buffer_size : ℕ
out_buffer_size = 1342177280

-- ((tsdiff2) * 67108864 / 536870912) % out_buffer_size / 2, with `tsdiff2` as a pattern of 64 bits;
-- `none` is an overflow of `long long`.
unfoldable pub position : ℕ → Option ℕ
position tsdiff2 =
    if ltb tsdiff2 (2 ^ 63)
    then if ltb (tsdiff2 * 67108864) (2 ^ 63)
      then some (tsdiff2 * 67108864 / 536870912 % out_buffer_size / 2)
      else none
    else if leb ((2 ^ 64 - tsdiff2) * 67108864) (2 ^ 63)
    then some (sub64 0 ((2 ^ 64 - tsdiff2) * 67108864 / 536870912) % out_buffer_size / 2)
    else none

-- x > 0, as a `long long`
abbrev pub is_positive : ℕ → Bool
is_positive x = ltb 0 x && ltb x (2 ^ 63)

-- The thread with the ring: the heap that it holds, the heaps that are still to come, and what it
-- wrote to `tsync`, the oldest first.
pub record Capture : Type 0 where
  pub first_ts : ℕ
  pub num_vals : ℕ
  pub ring : Memory
  pub item : Memory
  pub ts2 : ℕ
  pub tsdiff2 : ℕ
  pub stream : List Memory
  pub published : List ℕ

-- `stopped` is the end of the stream, which leaves the loop.
pub data Outcome : Type 0 where
  again stopped : Capture → Outcome
  faulted : Outcome

abbrev pub and_then : Outcome → (Capture → Outcome) → Outcome
and_then (again c) f = f c
and_then (stopped c) f = stopped c
and_then faulted f = faulted

abbrev pub holding : Capture → Memory → List Memory → Option ℕ → Outcome
holding c heap rest none = faulted
holding c heap rest (some ts) =
    again (record c { item = heap; ts2 = ts; tsdiff2 = sub64 ts c.first_ts; stream = rest })

abbrev pub pop_from : Capture → List Memory → Outcome
pop_from c [] = stopped c
pop_from c (heap ∷ rest) = holding c heap rest (read_stamp heap)

-- stream1.pop() with what is read from the heap.
unfoldable pub pop : Capture → Outcome
pop c = pop_from c c.stream

abbrev pub with_ring : Capture → Option Memory → Outcome
with_ring c none = faulted
with_ring c (some ring) = again (record c { ring = ring })

abbrev pub added_at : Capture → Option ℕ → Option Memory
added_at c none = none
added_at c (some pos) = bf_align c.item c.ring c.num_vals pos (out_buffer_size / 2)

-- The heap in hand is added to the ring.
unfoldable pub add_heap : Capture → Outcome
add_heap c = with_ring c (added_at c (position c.tsdiff2))

-- What a round reads of the shared times: `tsync`, and whether this thread is the master, at first and
-- at its end.
pub record Reading : Type 0 where
  pub tsync : ℕ
  pub is_master : Bool
  pub still_master : Bool

unfoldable pub publish : Reading → Capture → Capture
publish r c = if r.still_master then record c { published = c.published ++ c.ts2 ∷ [] } else c

-- A round of the last loop. A thread that is not behind sleeps, and adds the heap that it holds.
unfoldable pub round : Reading → Capture → Outcome
round r c =
    let behind = is_positive (sub64 r.tsync c.ts2) || r.is_master in
    and_then (if behind then pop c else again c)
      (λ c₁. and_then (add_heap c₁) (λ c₂. and_then (pop c₂) (λ c₃. again (publish r c₃))))

unfoldable pub rounds : List Reading → Capture → Outcome
rounds [] c = again c
rounds (r ∷ readings) c = and_then (round r c) (rounds readings)

-- Before the loops: the first heap is added if it is after the first timestamp. Here the end of the stream
-- is not caught.
unfoldable pub first_round : Capture → Outcome
first_round c = and_then (pop c) (λ c₁. if is_positive c₁.tsdiff2 then add_heap c₁ else again c₁)
