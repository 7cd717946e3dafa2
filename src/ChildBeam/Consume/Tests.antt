-- ===== src/ChildBeam/Consume/Tests.antt =====
-- Two rounds; the first stream is a heap later than the second.
use incoherent_beamformer.Common.{ℕ, ◌+◌, ◌≡◌, refl, some, List, [], ◌∷◌, Memory, arith}
use incoherent_beamformer.ChildBeam.{alignment}
use incoherent_beamformer.ChildBeam.Tests.{samples}
use incoherent_beamformer.ChildBeam.Consume.{Turn, consume, unaligned}
use incoherent_beamformer.ChildBeam.Consume.Sent.{handed_values, pairs_of}
use incoherent_beamformer.ChildBeam.Delay.{AreAligned, zeros}
use incoherent_beamformer.ChildBeam.Consume.Aligned.{consume-AreAligned}

abbrev turn : ℕ → Turn
turn n = record {
  ts1 = 8192;
  ts2 = 6144;
  block1 = samples n 524288;
  block2 = samples (n + 1) 524288;
  ts = 6144 + n;
}

abbrev cells : ℕ → ℕ
cells i = i

consume-AreAligned_example :
    (beams : List Memory) × (handed_values
        (consume (λ b. some b) cells cells cells 524288 (turn 1 ∷ turn 2 ∷ []) unaligned)
      ≡ some beams)
    × AreAligned 524288
        (alignment 8192 6144).1
        (zeros 524288)
        (pairs_of (alignment 8192 6144).0 (turn 1 ∷ turn 2 ∷ []))
        beams
unfolding alignment
consume-AreAligned_example =
    consume-AreAligned (λ b. some b) cells cells cells 524288 (turn 1) (turn 2 ∷ []) (λ b. refl)
      (omega arith) (omega arith) ((omega arith, omega arith), ((omega arith, omega arith), tt))
