-- ===== src/ChildBeam/Tests.antt =====
-- Tests of the child beamformer.
use incoherent_beamformer.Common.{
  ℕ, ◌+◌, ◌*◌, ◌%◌, ◌≡◌, refl, none, some, Option, arith, true, false, Memory, List, [], ◌∷◌,
}
use mathlib.Core.List.{map}
use incoherent_beamformer.ChildBeam.{sums, beamform, alignment}
use incoherent_beamformer.ChildBeam.Sum.{IsBeamformed, accumulate_and_beamform-IsBeamformed}
use incoherent_beamformer.ChildBeam.Delay.{zeros}

abbrev pub samples : ℕ → ℕ → Memory
samples seed size = record { size = size; cell = λ i. (i * 37 + seed) % 256 }

abbrev four_cells : Option Memory → List ℕ
four_cells none = []
four_cells (some m) = map m.cell (0 ∷ 1 ∷ 2 ∷ 3 ∷ [])

abbrev large : Memory
large = record { size = 4; cell = λ i. 65530 + i * 2 }

wraps : four_cells (beamform large (samples 7 4) (zeros 4) 3) ≡ 1 ∷ 40 ∷ 79 ∷ 0 ∷ []
unfolding beamform sums
wraps = refl

later_first : alignment 8192 2048 ≡ (true, 24576)
unfolding alignment
later_first = refl

later_second : alignment 2048 8192 ≡ (false, 24576)
unfolding alignment
later_second = refl

accumulate_and_beamform-IsBeamformed_example :
    IsBeamformed (λ i. i) (λ i. i + 1) (samples 3 524288) (samples 4 524288) (zeros 5000) 524288
accumulate_and_beamform-IsBeamformed_example =
    accumulate_and_beamform-IsBeamformed (λ i. i) (λ i. i + 1) (samples 3 524288) (samples 4 524288)
      (zeros 5000) 524288 (omega arith) (omega arith) (omega arith) (omega arith)
