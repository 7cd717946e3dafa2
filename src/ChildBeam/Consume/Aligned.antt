-- ===== src/ChildBeam/Consume/Aligned.antt =====
-- The whole loop: what is handed over of two streams that begin at different times.
use incoherent_beamformer.Common.{
  ℕ, ◌*◌, ◌/◌, ◌^◌, ◌<◌, ◌≤◌, ◌≡◌, ◌∙◌, some, List, ◌∷◌, Memory, arith,
}
use incoherent_beamformer.Accumulate.{num_spectra}
use incoherent_beamformer.ChildBeam.{malloc, alignment}
use incoherent_beamformer.ChildBeam.Delay.{HaveSize, AreAligned, rounds-AreAligned, zeros}
use incoherent_beamformer.ChildBeam.Consume.{Turn, Stack, num_out_vals, consume, unaligned}
use incoherent_beamformer.ChildBeam.Consume.Sent.{handed_values, pairs_of, consume_lem}

beam_room : (size : ℕ) → size ≤ 2 ^ 31 → num_spectra size * 4096 / 256 ≤ num_out_vals size
beam_room size small = omega arith

-- On any blocks of `size` bytes (at most 2 ^ 31), where the streams begin no more than a block apart and
-- the loop's pointers hold in each round what they held in the one before: the loop of `consume` does not
-- fault. In each round, when the heap is handed to `async_send_heap`, the values that it points at are the
-- beamformed ones of the sum of the earlier stream's block with the later stream delayed by the bytes
-- between both, by the timestamps of the first round: the last of them from its block before (zeros in
-- the first round), then the first bytes of its block.
pub consume-AreAligned :
    (stack : Stack) (cells cells1 cells2 : ℕ → ℕ) (size : ℕ) (t : Turn) (turns : List Turn)
    → ((b : Memory × Memory) → stack b ≡ some b)
    → size ≤ 2 ^ 31
    → (alignment t.ts1 t.ts2).1 ≤ size
    → HaveSize size (pairs_of (alignment t.ts1 t.ts2).0 (t ∷ turns))
    → (beams : List Memory) × (handed_values
          (consume stack cells cells1 cells2 size (t ∷ turns) unaligned)
        ≡ some beams)
      × AreAligned size
          (alignment t.ts1 t.ts2).1
          (zeros size)
          (pairs_of (alignment t.ts1 t.ts2).0 (t ∷ turns))
          beams
consume-AreAligned stack cells cells1 cells2 size t turns kept small apart sizes =
    let blocks = pairs_of (alignment t.ts1 t.ts2).0 (t ∷ turns) in
    let few : num_out_vals size < 10 ^ 11 = omega arith in
    let (beams, runs, aligned) =
      rounds-AreAligned cells1 cells2 size (alignment t.ts1 t.ts2).1 blocks
        (malloc (num_out_vals size) cells) small apart sizes (beam_room size small) in
    (beams, consume_lem stack cells cells1 cells2 size t turns kept few ∙ runs, aligned)
