-- ===== src/Separated/Segments.antt =====
-- When the other process is told to transfer a segment.
use incoherent_beamformer.Common.{
  ℕ, ◌+◌, ◌%◌, ◌^◌, ◌<◌, ◌≡◌, ◌∙◌, refl, ap, true, false, not, ◌==◌, leb, if◌then◌else◌, sub64, u64,
  Bool-cases, inl, inr, arith,
}
use incoherent_beamformer.Settings.{done}
use incoherent_beamformer.Separated.{Sizes, Shared, Process, should_move, hand_over, move_on}

should_move_lem :
    (check segment : ℕ)
    → check < 2 ^ 64
    → segment < 2 ^ 63
    → should_move check segment ≡ not (check == 0)
unfolding should_move
should_move_lem check segment word small = ground arith

difference_zero : (a b : ℕ) → a < 2 ^ 64 → b < 2 ^ 64 → (sub64 a b == 0) ≡ (a == b)
difference_zero a b h k = ground arith

-- The master, for a heap of the current block, tells the other process to transfer a segment unless
-- the place of the heap is exactly the tail: the two tests of the difference against a segment of
-- fewer than 2 ^ 63 bytes are on unsigned numbers, and one of them holds for any other difference.
pub move_on_lem :
    (s : Sizes) (offset : ℕ) (ss : Shared) (p : Process)
    → p.pid ≡ ss.master_pid
    → s.ob_segment < 2 ^ 63
    → offset < s.dada_buf_size
    → s.dada_buf_size < 2 ^ 64
    → p.order_buffer_tail < 2 ^ 64
    → move_on s offset ss p ≡ (
        if offset == p.order_buffer_tail
        then done (ss, p)
        else done (
          record ss { bd_order_buffer_tail = p.order_buffer_tail; transfer = 1 },
          record p {
            order_buffer_tail = u64 (p.order_buffer_tail + s.ob_segment) % s.dada_buf_size;
          },
        ))
unfolding move_on hand_over
move_on_lem s offset ss p master small inside word tail =
    let is_master : (p.pid == ss.master_pid) ≡ true = ground arith in
    let sized : (s.dada_buf_size == 0) ≡ false = ground arith in
    let same_block : leb s.dada_buf_size offset ≡ false = ground arith in
    let moves =
      should_move_lem (sub64 offset p.order_buffer_tail) s.ob_segment (omega arith) small in
    let apart = difference_zero offset p.order_buffer_tail (omega arith) tail in
    elim (Bool-cases (offset == p.order_buffer_tail)) [
      | inl on ↦ let still = moves ∙ ap not (apart ∙ on) in simp (is_master, still, on) refl
      | inr off ↦
          let goes = moves ∙ ap not (apart ∙ off) in
          simp (is_master, goes, same_block, sized, off) refl
    ]
