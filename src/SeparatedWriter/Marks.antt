-- ===== src/SeparatedWriter/Marks.antt =====
-- The marks of a segment after its transfer.
use native.Mathlib.Nat.{zero-div}
use incoherent_beamformer.Common.{
  ℕ, zero, suc, ◌+◌, ◌-◌, ◌/◌, ◌%◌, ◌^◌, ◌<◌, ◌≤◌, ◌≡◌, ◌∙◌, sym, refl, Bool, true, false, ◌||◌,
  ◌==◌, ltb, if◌then◌else◌, Bool-cases, inl, inr, some, Memory, stored, filled, within, memset_lem,
  int_offset, u64, arith,
}
use incoherent_beamformer.Separated.{Sizes}
use incoherent_beamformer.SeparatedWriter.{Transfer, zero_rounds, to_dada_buffer}
use incoherent_beamformer.PacketBits.{has_bit, get_bit}
use incoherent_beamformer.PacketBits.Marks.{get_bit-some}

has_bit-empty : (k : ℕ) → has_bit 0 k ≡ false
unfolding has_bit
has_bit-empty k = simp (zero-div (2 ^ k)) refl

module _ (s : Sizes) (dropped : Memory) (off : ℕ) where
  zero_rounds_lem :
      (left i : ℕ) (buffer : Memory)
      → i + left ≤ 32
      → (off / s.expected_heap_len + 31) / 32 < dropped.size
      → off + s.ob_segment ≤ buffer.size
      → (buffer' : Memory) × (zero_rounds s dropped off left i buffer ≡ some buffer')
        × (buffer'.size ≡ buffer.size)
  unfolding zero_rounds
  zero_rounds_lem zero i buffer few words room = (buffer, refl, refl)
  zero_rounds_lem (suc left) i buffer few words room =
      let pos = off / s.expected_heap_len + i in
      let mark = get_bit-some 32 dropped pos (omega arith) (omega arith) (omega arith) in
      elim (Bool-cases (has_bit (dropped.cell (pos / 32)) (pos % 32))) [
        | inr unset ↦
            let (buffer', runs, size) =
              zero_rounds_lem left (i + 1) buffer (omega arith) words room in
            (buffer', simp (mark, unset) runs, size)
        | inl is_set ↦
            let zeroes = memset_lem buffer off 0 s.ob_segment room in
            let (buffer', runs, size) =
              zero_rounds_lem left (i + 1) (filled buffer off 0 s.ob_segment) (omega arith) words
                room in
            (buffer', simp (mark, is_set, zeroes) runs, size)
      ]

  zeroed_block :
      (buffer : Memory) (full : Bool)
      → (off / s.expected_heap_len + 31) / 32 < dropped.size
      → off + s.ob_segment ≤ buffer.size
      → (buffer' : Memory) × ((if full then some buffer else zero_rounds s dropped off 32 0 buffer)
          ≡ some buffer')
        × (buffer'.size ≡ buffer.size)
  zeroed_block buffer true words room = (buffer, refl, refl)
  zeroed_block buffer false words room = zero_rounds_lem 32 0 buffer (omega arith) words room

stored_mark :
    (dropped : Memory) (word q : ℕ)
    → q / 32 < dropped.size
    → get_bit 32 (stored dropped word 0) q
      ≡ (if q / 32 == word then some false else get_bit 32 dropped q)
stored_mark dropped word q room =
    get_bit-some 32 (stored dropped word 0) q (omega arith) (omega arith) room
    ∙ elim (Bool-cases (q / 32 == word)) [
      | inl on ↦
          let here : within word 1 (q / 32) ≡ true = ground arith in
          simp (here, on, has_bit-empty (q % 32)) refl
      | inr off ↦
          let away : within word 1 (q / 32) ≡ false = ground arith in
          simp (away, off) (sym (get_bit-some 32 dropped q (omega arith) (omega arith) room))
    ]

-- The transfer of a segment goes through where its marks and its bytes are in range, its place is below
-- 2 ^ 31 and the sizes are not 0. It takes the marks of the whole word off, and leaves those of all other words; the tail moves on by a segment,
-- round the block; and the block keeps its size.
pub to_dada_buffer_lem :
    (s : Sizes) (t : Transfer) (q : ℕ)
    → 0 < s.ob_size
    → 0 < s.expected_heap_len
    → 0 < s.dada_buf_size
    → t.order_buffer_tail % s.ob_size < 2 ^ 31
    → (t.order_buffer_tail % s.ob_size / s.expected_heap_len + 31) / 32 < t.dropped.size
    → t.order_buffer_tail % s.ob_size + s.ob_segment ≤ t.buffer.size
    → q / 32 < t.dropped.size
    → (t' : Transfer) × (to_dada_buffer s t ≡ some t')
      × (get_bit 32 t'.dropped q ≡ (
          if q / 32 == t.order_buffer_tail % s.ob_size / s.expected_heap_len / 32
          then some false
          else get_bit 32 t.dropped q))
      × (t'.order_buffer_tail ≡ u64 (t.order_buffer_tail + s.ob_segment) % s.dada_buf_size)
      × (t'.buffer.size ≡ t.buffer.size)
unfolding to_dada_buffer
to_dada_buffer_lem s t q some_size some_len some_block small words room asked =
    let off = t.order_buffer_tail % s.ob_size in
    let word = off / s.expected_heap_len / 32 in
    let divisors : (s.ob_size == 0 || s.expected_heap_len == 0 || s.dada_buf_size == 0) ≡ false =
      ground arith in
    let offset : int_offset off ≡ some off = ground arith in
    let in_array : ltb word t.dropped.size ≡ true = grind arith in
    let (buffer', zeroes, size) =
      zeroed_block s t.dropped off t.buffer (t.dropped.cell word == 2 ^ 32 - 1) words room in
    (
      record {
        buffer = buffer';
        dropped = stored t.dropped word 0;
        order_buffer_tail = u64 (t.order_buffer_tail + s.ob_segment) % s.dada_buf_size;
        num_bytes_transferred = u64 (t.num_bytes_transferred + s.ob_segment);
      },
      simp (divisors, offset, in_array, zeroes) refl,
      stored_mark t.dropped word q asked,
      refl,
      size,
    )
