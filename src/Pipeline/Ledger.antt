-- ===== src/Pipeline/Ledger.antt =====
-- What the process of the block is behind the workers, in any order of steps: exactly by the signals
-- that are pending or lost.
use incoherent_beamformer.Common.{
  ℕ, zero, suc, ◌+◌, ◌%◌, ◌≡◌, ◌⊎◌, ◌∙◌, sym, refl, ap, subst, inl, inr, Bool, true, false,
  Option-cases, Option, some, List, [], ◌∷◌, Memory, u64, arith,
}
use incoherent_beamformer.Settings.{Settings}
use incoherent_beamformer.Callback.{
  SnapShot, Worker, Signal, sigusr1, sigusr2, sigint, System, ItemGroup, Reply, first_heap,
  spead_api_callback,
}
use incoherent_beamformer.Callback.Steps.{
  Moves, Holds, Holds-map, spead_api_callback_cases, accept_heap-Returns,
}
use incoherent_beamformer.DadaThread.{Dada, running, open_block, change_block, handle}
use incoherent_beamformer.Pipeline.{quiet, with_order}
use incoherent_beamformer.Pipeline.InStep.{order_buffer_tail-to_dada_buffer}
use incoherent_beamformer.Pipeline.Interleaved.{
  World, one_more, send_to, send_all, after_call, Step, heap, segment, block, Reach, here, next,
}

-- `n` rounds of a function.
unfoldable pub times : (ℕ → ℕ) → ℕ → ℕ → ℕ
times f zero x = x
times f (suc n) x = f (times f n x)

times_inside : (f : ℕ → ℕ) (n x : ℕ) → times f n (f x) ≡ f (times f n x)
unfolding times
times_inside f zero x = refl
times_inside f (suc n) x = ap f (times_inside f n x)

abbrev pub next_tail : Settings → ℕ → ℕ
next_tail s tail = u64 (tail + s.ob_segment) % s.dada_buf_size

abbrev pub next_place : ℕ → ℕ
next_place place = (place + 1) % 10

-- The signals of each kind that were sent and are not handled.
abbrev pub owed1 : World → ℕ
owed1 w = one_more w.usr1 w.lost1

abbrev pub owed2 : World → ℕ
owed2 w = one_more w.usr2 w.lost2

-- The workers are ahead by a segment for each SIGUSR1 owed, and by a block for each SIGUSR2 owed.
pub record IsAhead (s : Settings) (w : World) (ss : SnapShot) : Type 0 where
  pub tail : ss.order_buffer_tail ≡ times (next_tail s) (owed1 w) w.dada.writer.order_buffer_tail
  pub place : ss.ppts_pos ≡ times next_place (owed2 w) w.dada.ppts_pos

abbrev pub InLedger : Settings → World → Type 0
InLedger s w = Holds (IsAhead s w) w.system.shared

-- The shared data of a call, by what it sends.
abbrev pub Counts : Settings → SnapShot → List (ℕ × Signal) → SnapShot → Type 0
Counts s ss sent ss' =
    ((sent ≡ []) × (ss'.order_buffer_tail ≡ ss.order_buffer_tail) × (ss'.ppts_pos ≡ ss.ppts_pos))
    ⊎ ((p : ℕ) × (sent ≡ (p, sigusr1) ∷ [])
        × (ss'.order_buffer_tail ≡ next_tail s ss.order_buffer_tail)
        × (ss'.ppts_pos ≡ ss.ppts_pos))
    ⊎ ((p : ℕ) × (sent ≡ (p, sigusr2) ∷ (p, sigusr1) ∷ [])
        × (ss'.order_buffer_tail ≡ next_tail s ss.order_buffer_tail)
        × (ss'.ppts_pos ≡ next_place ss.ppts_pos))

-- The first heap moves neither the tail nor the place.
first_heap-kept :
    (pid ts : ℕ) (ss : SnapShot)
    → ((first_heap pid ts ss).order_buffer_tail ≡ ss.order_buffer_tail)
      × ((first_heap pid ts ss).ppts_pos ≡ ss.ppts_pos)
unfolding first_heap
first_heap-kept pid ts ss = ground arith

Moves-Counts :
    (s : Settings) (before ss ss' : SnapShot) (sent : List (ℕ × Signal))
    → before.order_buffer_tail ≡ ss.order_buffer_tail
    → before.ppts_pos ≡ ss.ppts_pos
    → Moves s before ss' [] sent
    → Counts s ss sent ss'
Moves-Counts s before ss ss' sent tail place moves = elim moves [
  | inl kept ↦ inl (kept.0, kept.1 ∙ tail, ground arith)
  | inr (inl moved) ↦ inr (inl (before.parent_pid, moved.0, ground arith, ground arith))
  | inr (inr moved) ↦ inr (inr (before.parent_pid, moved.0, ground arith, ground arith))
]

-- One more signal owed, if its like is pending or not.
owed-send :
    (w : World) (f : ℕ → ℕ) (x y : ℕ) (pending : Bool) (lost : ℕ)
    → y ≡ f (times f (one_more pending lost) x)
    → y ≡ times f (one_more true (one_more pending lost)) x
unfolding times
owed-send w f x y pending lost e = e

segment-IsAhead :
    (s : Settings) (w : World) (ss ss' : SnapShot)
    → IsAhead s w ss
    → ss'.order_buffer_tail ≡ next_tail s ss.order_buffer_tail
    → ss'.ppts_pos ≡ ss.ppts_pos
    → IsAhead s (send_to sigusr1 w) ss'
unfolding times send_to
segment-IsAhead s w ss ss' ahead tail place = record {
  tail = tail ∙ ap (next_tail s) ahead.tail;
  place = place ∙ ahead.place;
}

block-IsAhead :
    (s : Settings) (w : World) (ss ss' : SnapShot)
    → IsAhead s w ss
    → ss'.order_buffer_tail ≡ ss.order_buffer_tail
    → ss'.ppts_pos ≡ next_place ss.ppts_pos
    → IsAhead s (send_to sigusr2 w) ss'
unfolding times send_to
block-IsAhead s w ss ss' ahead tail place = record {
  tail = tail ∙ ahead.tail;
  place = place ∙ ap next_place ahead.place;
}

send_all-IsAhead :
    (s : Settings) (w : World) (ss ss' : SnapShot) (sent : List (ℕ × Signal))
    → IsAhead s w ss
    → Counts s ss sent ss'
    → IsAhead s (send_all sent w) ss'
unfolding send_all
send_all-IsAhead s w ss ss' sent ahead counts = elim counts [
  | inl (silent, tail, place) ↦
      let goal : IsAhead s w ss' = record {
        tail = tail ∙ ahead.tail;
        place = place ∙ ahead.place;
      } in
      rw silent goal
  | inr (inl (p, told, tail, place)) ↦ rw told (segment-IsAhead s w ss ss' ahead tail place)
  | inr (inr (p, told, tail, place)) ↦
      let mid : SnapShot = record ss { ppts_pos = next_place ss.ppts_pos } in
      let at_block : IsAhead s (send_to sigusr2 w) mid = block-IsAhead s w ss mid ahead refl refl in
      rw told (segment-IsAhead s (send_to sigusr2 w) mid ss' at_block tail place)
]

system-send_to : (signal : Signal) (w : World) → (send_to signal w).system ≡ w.system
unfolding send_to
system-send_to sigusr1 w = refl
system-send_to sigusr2 w = refl
system-send_to sigint w = refl

system-send_all : (sent : List (ℕ × Signal)) (w : World) → (send_all sent w).system ≡ w.system
unfolding send_all
system-send_all [] w = refl
system-send_all ((p, signal) ∷ sent) w =
    system-send_all sent (send_to signal w) ∙ system-send_to signal w

-- One signal taken, with the step that it asks for.
taken :
    (f : ℕ → ℕ) (lost : ℕ) (b : Bool) (x y x' : ℕ)
    → b ≡ true
    → y ≡ times f (one_more b lost) x
    → x' ≡ f x
    → y ≡ times f lost x'
unfolding times
taken f lost b x y x' on ahead moved =
    let owed : y ≡ f (times f lost x) = simp on at ahead in
    owed ∙ sym (times_inside f lost x) ∙ ap (times f lost) (sym moved)

module _ (s : Settings) (blocks : ℕ → Option Memory) where
  segment_handled :
      (ss : SnapShot) (d : Dada) {d' : Dada}
      → handle s blocks ss sigusr1 d ≡ some (d', running)
      → (d'.writer.order_buffer_tail ≡ next_tail s d.writer.order_buffer_tail)
        × (d'.ppts_pos ≡ d.ppts_pos)
  unfolding handle
  segment_handled ss d h = grind (arith, order_buffer_tail-to_dada_buffer)

  block_handled :
      (ss : SnapShot) (d : Dada) {d' : Dada}
      → handle s blocks ss sigusr2 d ≡ some (d', running)
      → (d'.writer.order_buffer_tail ≡ d.writer.order_buffer_tail)
        × (d'.ppts_pos ≡ next_place d.ppts_pos)
  unfolding handle change_block open_block
  block_handled ss d h = grind arith

  pub callback-Counts :
      (group : ItemGroup) (sys : System) (w : Worker) (ss : SnapShot) {reply : Reply}
      → sys.shared ≡ some ss
      → spead_api_callback s group (quiet sys) w ≡ some reply
      → Holds (λ ss'. Counts s ss reply.0.sent ss') reply.0.shared
  callback-Counts group sys w ss {reply} e called =
      elim (spead_api_callback_cases s group (quiet sys) w ss e called) [
        | inl refused ↦ rw (refused, e) (inl (refl, refl, refl))
        | inr (item, ts, payload, stamp, read, accepted) ↦
            let kept = first_heap-kept w.pid ts ss in
            let returns = accept_heap-Returns s ts payload ss (quiet sys) w accepted in
            Holds-map _ _ reply.0.shared
              (λ ss'. Moves-Counts s (first_heap w.pid ts ss) ss ss' reply.0.sent kept.0 kept.1)
              returns.1
      ]

  heap-InLedger :
      (w : World) (i : ℕ) (group : ItemGroup) (reply : Reply) (ss : SnapShot)
      → spead_api_callback s group (quiet w.system) (w.workers i) ≡ some reply
      → w.system.shared ≡ some ss
      → IsAhead s w ss
      → InLedger s (send_all reply.0.sent (after_call w i reply))
  heap-InLedger w i group reply ss called e ahead =
      let w' : World = after_call w i reply in
      let ahead' : IsAhead s w' ss = record { tail = ahead.tail; place = ahead.place } in
      let held =
        Holds-map _ _ reply.0.shared
          (λ ss' counts. send_all-IsAhead s w' ss ss' reply.0.sent ahead' counts)
          (callback-Counts group w.system (w.workers i) ss e called) in
      subst (λ sys. Holds (IsAhead s (send_all reply.0.sent w')) sys.shared)
        (sym (system-send_all reply.0.sent w')) held

  -- A step of any worker, or of the process of the block.
  pub step-InLedger : {w w' : World} → InLedger s w → Step s blocks w w' → InLedger s w'
  step-InLedger ledger (heap w i group reply called) = elim (Option-cases w.system.shared) [
    | inl gone ↦ absurd (subst (Holds (IsAhead s w)) gone ledger)
    | inr (ss, there) ↦
        heap-InLedger w i group reply ss called there (subst (Holds (IsAhead s w)) there ledger)
  ]
  step-InLedger ledger (segment w ss d order usr1 shared handled at) =
      let ahead = subst (Holds (IsAhead s w)) shared ledger in
      let moved = segment_handled ss (with_order w.system.order w.dada) handled in
      let w' : World = record w {
        usr1 = false;
        dada = d;
        system = record (w.system) { order = order };
      } in
      let ahead' : IsAhead s w' ss = record {
        tail = taken (next_tail s) w.lost1 w.usr1 _ _ _ usr1 ahead.tail moved.0;
        place = ahead.place ∙ ap (times next_place (owed2 w)) (sym moved.1);
      } in
      subst (Holds (IsAhead s w')) (sym shared) ahead'
  step-InLedger ledger (block w ss d usr2 shared handled) =
      let ahead = subst (Holds (IsAhead s w)) shared ledger in
      let moved = block_handled ss (with_order w.system.order w.dada) handled in
      let w' : World = record w { usr2 = false; dada = d } in
      let ahead' : IsAhead s w' ss = record {
        tail = ahead.tail ∙ ap (times (next_tail s) (owed1 w)) (sym moved.0);
        place = taken next_place w.lost2 w.usr2 _ _ _ usr2 ahead.place moved.1;
      } in
      subst (Holds (IsAhead s w')) (sym shared) ahead'

  -- Whatever the order of the steps of any number of workers and of the process of the block, the
  -- workers stay ahead of that process by exactly one segment for each SIGUSR1, and by one place in
  -- the ring of timestamps for each SIGUSR2, that is pending or was lost to a pending one, if they
  -- were so at the start.
  pub Reach-InLedger : {w w' : World} → InLedger s w → Reach s blocks w w' → InLedger s w'
  Reach-InLedger ledger here = ledger
  Reach-InLedger ledger (next reach step) = step-InLedger (Reach-InLedger ledger reach) step
