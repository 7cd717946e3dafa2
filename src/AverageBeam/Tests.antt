-- ===== src/AverageBeam/Tests.antt =====
-- Two heaps of ones, 2 ^ 20 apart, with numbers in place of floats.
use incoherent_beamformer.Common.{
  ℕ, ◌+◌, ◌/◌, ◌≡◌, refl, ◌==◌, if◌then◌else◌, some, none, [], ◌∷◌, Memory, arith,
}
use incoherent_beamformer.PulseDetector.{read_int_timestamp}
use incoherent_beamformer.AverageBeam.{FloatOps, Averages, Averager, Group, set_up}
use incoherent_beamformer.AverageBeam.Writes.{AllAtStart, IsGroup, run, set_up-AllAtStart}

abbrev whole : FloatOps ℕ
whole = record { add = λ a b. a + b; of_int8 = λ n. n; div = λ a n. a / n; nought = 0 }

abbrev ones : Memory
ones = record { size = 4096; cell = λ i. 1 }

abbrev stamp : ℕ → Memory
stamp third = record { size = 5; cell = λ i. if i == 2 then third else if i == 0 then 1 else 0 }

abbrev raw : Averages ℕ
raw = record { prior_ts = 0; ave = λ k. k; num_writes = 9; master_pid = 5; filename = 0 }

abbrev process : Averager ℕ
process = record { pid = 100; prior_ts = 0; w_fd2 = 0; files = [] }

abbrev group : ℕ → Group
group third = record { timestamp = some (stamp third); item = some ones }

early : IsGroup (group 0)
unfolding read_int_timestamp
early = record {
  stamp = stamp 0;
  ts = 1;
  bytes = ones;
  timestamp = refl;
  reads = refl;
  item = refl;
  long = omega arith;
}

late : IsGroup (group 16)
unfolding read_int_timestamp
late = record {
  stamp = stamp 16;
  ts = 1048577;
  bytes = ones;
  timestamp = refl;
  reads = refl;
  item = refl;
  long = omega arith;
}

set_up-AllAtStart_example :
    (ss' : Averages ℕ) × (p' : Averager ℕ) × (run whole
        (group 0 ∷ group 16 ∷ [])
        3
        (set_up none (some raw))
        process
      ≡ some (some ss', p'))
    × (ss'.num_writes ≡ 0)
    × AllAtStart p'.files
set_up-AllAtStart_example =
    set_up-AllAtStart whole raw 3 (group 0 ∷ group 16 ∷ []) process (early, (late, tt)) refl
