-- ===== src/HeadNode/Sync/Tests.antt =====
-- Two threads and that of `run`, with the timestamps 5, 7 and 10 at first.
use incoherent_beamformer.Common.{
  ℕ, ◌+◌, ◌≡◌, ◌≤◌, ◌==◌, ◌*◌, if◌then◌else◌, refl, true, [], ◌∷◌, arith,
}
use incoherent_beamformer.HeadNode.Sync.{
  Sync, wants, test, set_tsync, pop, tests, sets, Reach, here, next, begun,
}
use incoherent_beamformer.HeadNode.Sync.Heard.{in_loop, Reach-tsync}
use incoherent_beamformer.HeadNode.Sync.Earliest.{turns, turns_tsync}

abbrev stamps : ℕ → ℕ → ℕ
stamps i n = if i == 0 then 5 + 100 * n else if i == 1 then 7 + 100 * n else 10 + 100 * n

-- Both threads test, and then thread 0 and thread 1 assign.
abbrev raced : Sync
unfolding test set_tsync wants
raced = set_tsync stamps 1 (set_tsync stamps 0 (test stamps 1 (test stamps 0 (begun stamps))))

steps : Reach stamps 2 (begun stamps) raced
unfolding test set_tsync wants
steps = next (next (next (next here (tests 0 refl)) (tests 1 refl)) (sets 0 refl)) (sets 1 refl)

-- The later time wins, and thread 0 was earlier.
later_wins : (raced.tsync ≡ 7) × (raced.master_id ≡ 1)
unfolding test set_tsync wants
later_wins = (refl, refl)

raced_in_loop : (k : ℕ) → in_loop (raced.phase k) ≡ true
unfolding test set_tsync wants
raced_in_loop k = ground arith

Reach-tsync_example :
    ((n : ℕ) × (n ≤ raced.heaps raced.master_id) × (raced.tsync ≡ stamps raced.master_id n))
    × (raced.tsync ≤ stamps 3 0)
Reach-tsync_example = Reach-tsync stamps 2 raced_in_loop steps

abbrev in_turn : Sync
unfolding test set_tsync pop wants
in_turn = turns stamps 2 (1 ∷ 0 ∷ 3 ∷ []) (begun stamps)

turns_tsync_example :
    (in_turn.tsync ≤ stamps 1 0)
    × ((i : ℕ) × (m : ℕ) × (m ≤ in_turn.heaps i) × (in_turn.tsync ≡ stamps i m))
unfolding test set_tsync pop wants
turns_tsync_example = turns_tsync stamps 2 (1 ∷ 0 ∷ 3 ∷ []) 1 0 (omega arith) (omega arith)
