-- ===== src/HeadNode/Capture/Tests.antt =====
-- Two rounds of the master thread: of four heaps, two are added.
use incoherent_beamformer.Common.{
  ℕ, ◌+◌, ◌*◌, ◌/◌, ◌^◌, ◌≡◌, ◌<◌, ◌≤◌, ◌⊎◌, none, ◌==◌, if◌then◌else◌, refl, some, [], ◌∷◌, Memory,
  arith,
}
use incoherent_beamformer.HeadNode.Capture.{Capture, rounds, position, out_buffer_size}
use incoherent_beamformer.HeadNode.Capture.Added.{
  Rounds, firsts, as_master, in_line, all_added, ring_of, rounds_lem,
}
use incoherent_beamformer.HeadNode.Capture.Place.{position_lem}

abbrev heap : ℕ → Memory
heap n = record { size = 6; cell = λ i. if i == 0 then 16 * n else if i == 4 then n else 0 }

abbrev two_rounds : Rounds
two_rounds = (0, heap 1, heap 2) ∷ (0, heap 3, heap 4) ∷ []

abbrev start : Capture
start = record {
  first_ts = 0;
  num_vals = 6;
  ring = record { size = 671088640; cell = λ i. 0 };
  item = heap 0;
  ts2 = 0;
  tsdiff2 = 0;
  stream = in_line two_rounds;
  published = [];
}

rounds_lem_example :
    ring_of (rounds (as_master two_rounds) start) ≡ all_added 0 6 (firsts two_rounds) start.ring
rounds_lem_example = rounds_lem two_rounds start refl refl

position_lem_example :
    ((p : ℕ) × (position 800 ≡ some p)
      × (p < out_buffer_size / 2)
      × ((800 < 2 ^ 37) ⊎ (2 ^ 64 ≤ 800 + 2 ^ 37)))
    ⊎ ((position 800 ≡ none) × (2 ^ 37 ≤ 800) × (800 + 2 ^ 37 < 2 ^ 64))
position_lem_example = position_lem 800 (omega arith)
