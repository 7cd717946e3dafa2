-- ===== src/Pipeline/Paced.antt =====
-- Runs in which the process of the block takes all pending signals before the next heap comes.
use incoherent_beamformer.Common.{
  ℕ, ◌≡◌, sym, ap, ◌∙◌, subst, inl, inr, Bool, true, false, Option, Option-cases, some, List, [],
  ◌∷◌, Memory,
}
use incoherent_beamformer.Settings.{Settings}
use incoherent_beamformer.Callback.{
  SnapShot, Signal, sigusr1, sigusr2, ItemGroup, Reply, spead_api_callback,
}
use incoherent_beamformer.Callback.Steps.{Holds, Holds-map}
use incoherent_beamformer.Pipeline.{quiet}
use incoherent_beamformer.Pipeline.InStep.{InStep}
use incoherent_beamformer.Pipeline.Interleaved.{
  World, send_to, send_all, after_call, Step, heap, segment, block,
}
use incoherent_beamformer.Pipeline.Ledger.{
  times, next_tail, next_place, owed1, owed2, IsAhead, InLedger, Counts, callback-Counts,
  step-InLedger,
}

-- No signal is pending, and none was lost.
pub record IsIdle (w : World) : Type 0 where
  pub usr1 : w.usr1 ≡ false
  pub usr2 : w.usr2 ≡ false
  pub lost1 : w.lost1 ≡ 0
  pub lost2 : w.lost2 ≡ 0

-- No signal was lost.
record IsWhole (w : World) : Type 0 where
  pub lost1 : w.lost1 ≡ 0
  pub lost2 : w.lost2 ≡ 0

module _ (s : Settings) (blocks : ℕ → Option Memory) where
  abbrev pub is_heap : {w w' : World} → Step s blocks w w' → Bool
  is_heap (heap w i group reply called) = true
  is_heap (segment w ss d order usr1 shared handled at) = false
  is_heap (block w ss d usr2 shared handled) = false

  -- The process of the block takes signals, either kind first.
  pub data Served (w : World) : World → Type 0 where
    none_taken : Served w w
    one_taken :
        {u v : World} → Served w u → (step : Step s blocks u v) → is_heap step ≡ false → Served w v

  -- Heaps that any workers take, after each of which all pending signals are taken.
  pub data Paced (w : World) : World → Type 0 where
    at_start : Paced w w
    then_heap :
        {u v x : World}
        → Paced w u
        → (step : Step s blocks u v) → is_heap step ≡ true
        → Served v x
        → x.usr1 ≡ false
        → x.usr2 ≡ false
        → Paced w x

  send_all-IsWhole :
      (w : World) (ss ss' : SnapShot) (sent : List (ℕ × Signal))
      → IsIdle w
      → Counts s ss sent ss'
      → IsWhole (send_all sent w)
  unfolding send_all send_to
  send_all-IsWhole w ss ss' sent idle counts = elim counts [
    | inl (silent, tail, place) ↦
        let goal : IsWhole (send_all [] w) = record { lost1 = idle.lost1; lost2 = idle.lost2 } in
        subst (λ l. IsWhole (send_all l w)) (sym silent) goal
    | inr (inl (p, told, tail, place)) ↦
        let goal : IsWhole (send_all ((p, sigusr1) ∷ []) w) = record {
          lost1 = rw (idle.usr1) idle.lost1;
          lost2 = idle.lost2;
        } in
        subst (λ l. IsWhole (send_all l w)) (sym told) goal
    | inr (inr (p, told, tail, place)) ↦
        let goal : IsWhole (send_all ((p, sigusr2) ∷ (p, sigusr1) ∷ []) w) = record {
          lost1 = rw (idle.usr1) idle.lost1;
          lost2 = rw (idle.usr2) idle.lost2;
        } in
        subst (λ l. IsWhole (send_all l w)) (sym told) goal
  ]

  heap-IsWhole :
      (w : World) (i : ℕ) (group : ItemGroup) (reply : Reply)
      → InLedger s w
      → IsIdle w
      → spead_api_callback s group (quiet w.system) (w.workers i) ≡ some reply
      → IsWhole (send_all reply.0.sent (after_call w i reply))
  heap-IsWhole w i group reply ledger idle called =
      let idle' : IsIdle (after_call w i reply) = record {
        usr1 = idle.usr1;
        usr2 = idle.usr2;
        lost1 = idle.lost1;
        lost2 = idle.lost2;
      } in
      elim (Option-cases w.system.shared) [
        | inl gone ↦ absurd (subst (Holds (IsAhead s w)) gone ledger)
        | inr (ss, there) ↦
            let held = callback-Counts s blocks group w.system (w.workers i) ss there called in
            elim (Option-cases reply.0.shared) [
              | inl gone ↦ absurd (subst (Holds (λ ss'. Counts s ss reply.0.sent ss')) gone held)
              | inr (ss', kept) ↦
                  send_all-IsWhole (after_call w i reply) ss ss' reply.0.sent idle'
                    (subst (Holds (λ ss'. Counts s ss reply.0.sent ss')) kept held)
            ]
      ]

  step-IsWhole :
      {u v : World}
      → InLedger s u
      → IsIdle u
      → (step : Step s blocks u v) → is_heap step ≡ true
      → IsWhole v
  step-IsWhole ledger idle (heap w i group reply called) h =
      heap-IsWhole w i group reply ledger idle called
  step-IsWhole ledger idle (segment w ss d order usr1 shared handled at) h = absurd (cc)
  step-IsWhole ledger idle (block w ss d usr2 shared handled) h = absurd (cc)

  taken-IsWhole :
      {u v : World} → IsWhole u → (step : Step s blocks u v) → is_heap step ≡ false → IsWhole v
  taken-IsWhole whole (heap w i group reply called) h = absurd (cc)
  taken-IsWhole whole (segment w ss d order usr1 shared handled at) h = record {
    lost1 = whole.lost1;
    lost2 = whole.lost2;
  }
  taken-IsWhole whole (block w ss d usr2 shared handled) h = record {
    lost1 = whole.lost1;
    lost2 = whole.lost2;
  }

  Served-InLedger : {w v : World} → InLedger s w → IsWhole w → Served w v → InLedger s v × IsWhole v
  Served-InLedger ledger whole none_taken = (ledger, whole)
  Served-InLedger ledger whole (one_taken served step taken) =
      let before = Served-InLedger ledger whole served in
      (step-InLedger s blocks before.0 step, taken-IsWhole before.1 step taken)

  Paced-InLedger : {w v : World} → InLedger s w → IsIdle w → Paced w v → InLedger s v × IsIdle v
  Paced-InLedger ledger idle at_start = (ledger, idle)
  Paced-InLedger ledger idle (then_heap paced step one served usr1 usr2) =
      let before = Paced-InLedger ledger idle paced in
      let after =
        Served-InLedger (step-InLedger s blocks before.0 step)
          (step-IsWhole before.0 before.1 step one) served in
      (after.0, record { usr1 = usr1; usr2 = usr2; lost1 = after.1.lost1; lost2 = after.1.lost2 })

  none_owed : (w : World) → IsIdle w → (owed1 w ≡ 0) × (owed2 w ≡ 0)
  none_owed w idle = (rw (idle.usr1) idle.lost1, rw (idle.usr2) idle.lost2)

  InStep-IsAhead : (w : World) (ss : SnapShot) → IsIdle w → InStep w.dada ss → IsAhead s w ss
  unfolding times
  InStep-IsAhead w ss idle (tail, place) =
      let (no_segment, no_block) = none_owed w idle in
      record {
        tail =
            tail ∙ ap (λ n. times (next_tail s) n w.dada.writer.order_buffer_tail) (sym no_segment);
        place = place ∙ ap (λ n. times next_place n w.dada.ppts_pos) (sym no_block);
      }

  IsAhead-InStep : (w : World) (ss : SnapShot) → IsIdle w → IsAhead s w ss → InStep w.dada ss
  unfolding times
  IsAhead-InStep w ss idle ahead =
      let (no_segment, no_block) = none_owed w idle in
      (
        ahead.tail ∙ ap (λ n. times (next_tail s) n w.dada.writer.order_buffer_tail) no_segment,
        ahead.place ∙ ap (λ n. times next_place n w.dada.ppts_pos) no_block,
      )

  -- In a run in which the process of the block takes all pending signals, in any order, before the next
  -- heap comes, whichever of the workers takes it: if no signal was pending or lost at the start, and
  -- that process had the workers' tail and place in the ring of timestamps, then after each heap it has
  -- them again, and no signal is lost.
  pub Paced-InStep :
      {w w' : World}
      → Holds (InStep w.dada) w.system.shared
      → IsIdle w
      → Paced w w'
      → Holds (InStep w'.dada) w'.system.shared × IsIdle w'
  Paced-InStep {w} {w'} step idle paced =
      let ledger : InLedger s w =
        Holds-map _ _ w.system.shared (λ ss. InStep-IsAhead w ss idle) step in
      let after = Paced-InLedger ledger idle paced in
      (Holds-map _ _ w'.system.shared (λ ss. IsAhead-InStep w' ss after.1) after.0, after.1)
