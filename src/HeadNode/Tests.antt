-- ===== src/HeadNode/Tests.antt =====
-- Three values from the third of four places on.
use incoherent_beamformer.Common.{◌+◌, ◌*◌, ◌≡◌, some, Memory, arith}
use incoherent_beamformer.HeadNode.{bf_align}
use incoherent_beamformer.HeadNode.Ring.{with_beam, bf_align_lem}

abbrev beam : Memory
beam = record { size = 3; cell = λ i. 10 + i }

abbrev ring : Memory
ring = record { size = 4; cell = λ i. 65530 }

bf_align_lem_example :
    (ring' : Memory) × (bf_align beam ring 3 (2 * 2) (2 * 4) ≡ some ring')
    × (ring'.size ≡ 4)
    × (ring'.cell 0 ≡ with_beam beam ring 3 4 2 0)
bf_align_lem_example =
    bf_align_lem beam ring 3 4 2 (omega arith) (omega arith) (omega arith) (omega arith)
      (omega arith) 0 (omega arith)
