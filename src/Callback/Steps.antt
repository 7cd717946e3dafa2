-- ===== src/Callback/Steps.antt =====
-- What one call of `spead_api_callback` does to the shared data, on every path.
use incoherent_beamformer.Common.{
  ℕ, ◌+◌, ◌%◌, ◌≤◌, ◌<◌, ◌≡◌, ◌≢◌, ◌⊎◌, Bool, true, false, Option, none, some, List, [], ◌∷◌, ◌++◌,
  arith, ◌==◌, if◌then◌else◌, pos, negsuc, inl, inr, Option-cases, Bool-cases, Memory, length, set,
  u64,
}
use incoherent_beamformer.Settings.{Settings}
use incoherent_beamformer.Callback.{
  SnapShot, Worker, Signal, sigusr1, sigusr2, System, Reply, ItemGroup, max_ts, block_span,
  read_timestamp, first_heap, roll_over, advance_tail, next_block, move_on, place_at, place_heap,
  accept_heap, spead_api_callback,
}

-- Both items are there, the heap has the right length, and the shared data exists.
abbrev pub is_well_formed : Settings → ItemGroup → System → Bool
is_well_formed s group sys = elim (group s.timestamp_spead_id) [
  | none ↦ false
  | some item ↦ elim (group s.data_spead_id) [
    | none ↦ false
    | some heap ↦
        if heap.size == s.expected_heap_len
        then elim sys.shared [ none ↦ false | some ss ↦ true ]
        else false
  ]
]

-- The tail is a place for a segment in the block, and the ring of recorded timestamps is intact.
pub record IsValid (s : Settings) (ss : SnapShot) : Type 0 where
  pub tail_in : ss.order_buffer_tail < s.dada_buf_size
  pub tail_at : ss.order_buffer_tail % s.ob_segment ≡ 0
  pub ring : length ss.prev_prior_ts ≡ 10
  pub ring_pos : ss.ppts_pos < 10
  pub stamp : ss.prior_ts ≤ max_ts

-- How a call may move on: not at all; by a segment, with SIGUSR1; or into the next block, with
-- SIGUSR2 before SIGUSR1, when the ended block's timestamp is recorded.
abbrev pub Moves : Settings → SnapShot → SnapShot → List (ℕ × Signal) → List (ℕ × Signal) → Type 0
Moves s ss ss' sent sent' =
    ((sent' ≡ sent)
      × (ss'.order_buffer_tail ≡ ss.order_buffer_tail)
      × (ss'.prior_ts ≡ ss.prior_ts)
      × (ss'.prev_prior_ts ≡ ss.prev_prior_ts)
      × (ss'.ppts_pos ≡ ss.ppts_pos))
    ⊎ ((sent' ≡ sent ++ (ss.parent_pid, sigusr1) ∷ [])
        × (ss'.order_buffer_tail ≡ u64 (ss.order_buffer_tail + s.ob_segment) % s.dada_buf_size)
        × (ss'.prior_ts ≡ ss.prior_ts)
        × (ss'.prev_prior_ts ≡ ss.prev_prior_ts)
        × (ss'.ppts_pos ≡ ss.ppts_pos))
    ⊎ ((sent' ≡ (sent ++ (ss.parent_pid, sigusr2) ∷ []) ++ (ss.parent_pid, sigusr1) ∷ [])
        × (ss'.order_buffer_tail ≡ u64 (ss.order_buffer_tail + s.ob_segment) % s.dada_buf_size)
        × (ss'.prior_ts ≡ u64 (ss.prior_ts + block_span s) % (max_ts + 1))
        × (ss'.prev_prior_ts ≡ set ss.prev_prior_ts ss.ppts_pos ss.prior_ts)
        × (ss'.ppts_pos ≡ (ss.ppts_pos + 1) % 10))

-- What holds of the shared data after a call.
abbrev pub Holds : (SnapShot → Type 0) → Option SnapShot → Type 0
Holds P none = ⊥
Holds P (some ss) = P ss

abbrev pub Shares : (SnapShot → Type 0) → Reply → Type 0
Shares P reply = Holds P reply.0.shared

pub Holds-map :
    (P Q : SnapShot → Type 0) (shared : Option SnapShot)
    → ((ss : SnapShot) → P ss → Q ss)
    → Holds P shared
    → Holds Q shared
Holds-map P Q none f h = h
Holds-map P Q (some ss) f h = f ss h

abbrev pub Returns : Settings → SnapShot → List (ℕ × Signal) → Reply → Type 0
Returns s ss sent reply = (reply.2 ≡ pos 0) × Shares (λ ss'. Moves s ss ss' sent reply.0.sent) reply

move_on-Returns :
    (s : Settings) (offset : ℕ) (ss : SnapShot) (sys : System) (w : Worker) {reply : Reply}
    → move_on s offset ss sys w ≡ some reply
    → Returns s ss sys.sent reply
unfolding move_on next_block advance_tail roll_over
move_on-Returns s offset ss sys w h = ground arith

place_heap-Returns :
    (s : Settings) (ts : ℕ) (heap : Memory) (ss : SnapShot) (sys : System) (w : Worker)
    {reply : Reply}
    → place_heap s ts heap ss sys w ≡ some reply
    → Returns s ss sys.sent reply
unfolding place_heap place_at
place_heap-Returns s ts heap ss sys w h = grind (arith, move_on-Returns)

pub accept_heap-Returns :
    (s : Settings) (ts : ℕ) (heap : Memory) (ss : SnapShot) (sys : System) (w : Worker)
    {reply : Reply}
    → accept_heap s ts heap ss sys w ≡ some reply
    → Returns s (first_heap w.pid ts ss) sys.sent reply
unfolding accept_heap
accept_heap-Returns s ts heap ss sys w h = grind (arith, place_heap-Returns)

-- A call that returns has either refused the item group or accepted its heap.
pub spead_api_callback_cases :
    (s : Settings) (group : ItemGroup) (sys : System) (w : Worker) (ss : SnapShot) {reply : Reply}
    → sys.shared ≡ some ss
    → spead_api_callback s group sys w ≡ some reply
    → (reply ≡ (sys, w, negsuc 0))
      ⊎ ((item : Memory) × (ts : ℕ) × (heap : Memory) × (group s.timestamp_spead_id ≡ some item)
          × (read_timestamp item ≡ some ts)
          × (accept_heap s ts heap ss sys w ≡ some reply))
unfolding spead_api_callback
spead_api_callback_cases s group sys w ss e h = elim (Option-cases (group s.timestamp_spead_id)) [
  | inl absent ↦ inl (ground arith)
  | inr (item, stamp) ↦ elim (Option-cases (read_timestamp item)) [
    | inl short ↦ absurd (ground arith)
    | inr (ts, read) ↦ elim (Option-cases (group s.data_spead_id)) [
      | inl no_data ↦ inl (ground arith)
      | inr (heap, payload) ↦ elim (Bool-cases (heap.size == s.expected_heap_len)) [
        | inl fits ↦ inr (item, ts, heap, stamp, read, ground arith)
        | inr other ↦ inl (ground arith)
      ]
    ]
  ]
]

-- A call returns -1 and changes nothing exactly where an item is missing, the heap has another
-- length or the shared data is gone; on every other path it returns 0.
pub spead_api_callback_return :
    (s : Settings) (group : ItemGroup) (sys : System) (w : Worker) {reply : Reply}
    → spead_api_callback s group sys w ≡ some reply
    → ((is_well_formed s group sys ≡ true) × (reply.2 ≡ pos 0))
      ⊎ ((is_well_formed s group sys ≡ false) × (reply ≡ (sys, w, negsuc 0)))
unfolding spead_api_callback
spead_api_callback_return s group sys w h = grind (arith, accept_heap-Returns)

-- Once the first heap has come, a call leaves the tail, the timestamps and the signals as they
-- are; or moves the tail by one segment and sends SIGUSR1; or records the block's timestamp,
-- begins the next block, moves the tail by one segment, and sends SIGUSR2 and then SIGUSR1.
pub spead_api_callback-Moves :
    (s : Settings) (group : ItemGroup) (sys : System) (w : Worker) (ss : SnapShot) {reply : Reply}
    → sys.shared ≡ some ss
    → ss.first_thread ≢ 0
    → spead_api_callback s group sys w ≡ some reply
    → Shares (λ ss'. Moves s ss ss' sys.sent reply.0.sent) reply
unfolding spead_api_callback first_heap
spead_api_callback-Moves s group sys w ss e started h = grind (arith, accept_heap-Returns)
