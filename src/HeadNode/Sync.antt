-- ===== src/HeadNode/Sync.antt =====
-- The loops of NUM_SYNC_LOOPS rounds in which the threads of dada_processing/beamform_head_node.cpp agree
-- on the time to sync with: those of `capture_spead` and, as number 3, that of `run`. The test of
-- `tsync` stands outside the locks, so that it is one step and the assignment is another.
pub mod Heard
pub mod Earliest
mod Tests
use incoherent_beamformer.Common.{
  ℕ, ◌+◌, ◌&&◌, ◌≡◌, ◌==◌, Bool, true, false, not, if◌then◌else◌, ltb,
}

-- Where a thread stands: at the test, at the assignment, or at the next heap of a round, at the test
-- after the loop, at the assignment after it, or past it.
pub data Phase : Type 0 where
  testing setting popping leaving closing left : Phase

-- The shared times, and of each thread its phase and the number of heaps that it got after its first.
pub record Sync : Type 0 where
  pub tsync : ℕ
  pub master_id : ℕ
  pub heaps : ℕ → ℕ
  pub phase : ℕ → Phase

abbrev pub with_at {ℓ} : {A : Type ℓ} → ℕ → A → (ℕ → A) → ℕ → A
with_at i x f j = if j == i then x else f j

-- The test of a thread. Only `capture_spead` leaves a time of 0 out.
unfoldable pub wants : ℕ → ℕ → ℕ → Bool
wants tid ts2 tsync = ltb ts2 tsync && (if tid == 3 then true else not (ts2 == 0))

-- `stamps i n` is the timestamp of the n-th heap of thread i, and `ts2` of the thread after it.
module _ (stamps : ℕ → ℕ → ℕ) where
  abbrev pub ts2 : ℕ → Sync → ℕ
  ts2 i w = stamps i (w.heaps i)

  unfoldable pub test : ℕ → Sync → Sync
  test i w = record w {
    phase = with_at i (if wants i (ts2 i w) w.tsync then setting else popping) w.phase;
  }

  unfoldable pub set_tsync : ℕ → Sync → Sync
  set_tsync i w = record w { tsync = ts2 i w; master_id = i; phase = with_at i popping w.phase }

  unfoldable pub close : ℕ → Sync → Sync
  close i w = record w { tsync = ts2 i w; phase = with_at i left w.phase }

-- The next heap, and the end of the loop after `loops` rounds.
unfoldable pub pop : ℕ → ℕ → Sync → Sync
pop loops i w = record w {
  heaps = with_at i (w.heaps i + 1) w.heaps;
  phase = with_at i (if ltb (w.heaps i + 1) loops then testing else leaving) w.phase;
}

-- The test after the loop, which `run` does not have.
unfoldable pub leave : ℕ → Sync → Sync
leave i w = record w {
  phase = with_at i (if w.master_id == i && not (i == 3) then closing else left) w.phase;
}

module _ (stamps : ℕ → ℕ → ℕ) (loops : ℕ) where
  pub data Step (w : Sync) : Sync → Type 0 where
    tests : (i : ℕ) → w.phase i ≡ testing → Step w (test stamps i w)
    sets : (i : ℕ) → w.phase i ≡ setting → Step w (set_tsync stamps i w)
    pops : (i : ℕ) → w.phase i ≡ popping → Step w (pop loops i w)
    leaves : (i : ℕ) → w.phase i ≡ leaving → Step w (leave i w)
    closes : (i : ℕ) → w.phase i ≡ closing → Step w (close stamps i w)

  pub data Reach (w : Sync) : Sync → Type 0 where
    here : Reach w w
    next : {u v : Sync} → Reach w u → Step u v → Reach w v

-- The time to sync with is the first timestamp of `run`, and every thread has one heap.
abbrev pub begun : (ℕ → ℕ → ℕ) → Sync
begun stamps = record { tsync = stamps 3 0; master_id = 3; heaps = λ i. 0; phase = λ i. testing }
