-- ===== src/HeadNode/Output/Tests.antt =====
-- Two rounds, the second of which is far enough behind to write a block.
use incoherent_beamformer.Common.{
  ℕ, ◌≡◌, ◌≤◌, refl, Option, none, some, List, [], ◌∷◌, Memory, memset, length,
}
use incoherent_beamformer.HeadNode.Output.{Output, scaled, write_block, end_round, end_rounds}
use incoherent_beamformer.HeadNode.Output.Ends.{AreConsecutive, at_start, end_rounds_lem}

abbrev ring : Memory
ring = record { size = 1342177280; cell = λ i. 7 }

abbrev block : Memory
block = record { size = 134217728; cell = λ i. 1 }

abbrev two_rounds : List (ℕ × ℕ × Memory)
two_rounds = (67108864, 536870912, block) ∷ (67108864, 4294967296, block) ∷ []

abbrev or_start : Option Output → Output
or_start none = at_start ring
or_start (some o) = o

abbrev after : Output
unfolding end_rounds end_round scaled write_block memset
after = or_start (end_rounds two_rounds (at_start ring))

runs : end_rounds two_rounds (at_start ring) ≡ some after
unfolding end_rounds end_round scaled write_block memset
runs = refl

one_written : length after.writes ≡ 1
unfolding end_rounds end_round scaled write_block memset
one_written = refl

end_rounds_lem_example : AreConsecutive 0 after.writes × (length after.writes ≤ 5)
end_rounds_lem_example = end_rounds_lem ring two_rounds after refl runs
