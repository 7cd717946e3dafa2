-- ===== src/PacketBits/Zeroing.antt =====
-- What `zero_dropped_packets` counts and zeroes.
use mathlib.Core.Path.{fun_ext}
use incoherent_beamformer.Common.{
  ℕ, zero, suc, ◌+◌, ◌*◌, ◌/◌, ◌%◌, ◌^◌, ◌<◌, ◌≤◌, ◌≡◌, ◌∙◌, refl, ap, Bool, true, false, ◌==◌,
  ◌||◌, ltb, if◌then◌else◌, Bool-cases, inl, inr, some, Memory, filled, within, memset_lem,
  int_offset, arith,
}
use incoherent_beamformer.Settings.{Settings}
use incoherent_beamformer.PacketBits.{
  has_bit, get_bit, zero_round, zero_rounds, zero_dropped_packets,
}
use incoherent_beamformer.PacketBits.Marks.{get_bit-some}

-- How many of the bits of a word from `i` on are set.
unfoldable pub count_set : ℕ → ℕ → ℕ → ℕ
count_set word i zero = 0
count_set word i (suc left) = (if has_bit word i then 1 else 0) + count_set word (i + 1) left

abbrev pub zeroed_if : Bool → Memory → ℕ → ℕ → Memory
zeroed_if on buffer off n = if on then filled buffer off 0 n else buffer

twice : (b : Bool) (c : ℕ) → (if b then 0 else if b then 0 else c) ≡ (if b then 0 else c)
twice true c = refl
twice false c = refl

filled_twice :
    (buffer : Memory) (off n : ℕ) → filled (filled buffer off 0 n) off 0 n ≡ filled buffer off 0 n
filled_twice buffer off n =
    ap (λ (c : ℕ → ℕ). record buffer { cell = c })
      (fun_ext (λ i. twice (within off n i) (buffer.cell i)))

zeroed_if-filled :
    (on : Bool) (buffer : Memory) (off n : ℕ)
    → zeroed_if on (filled buffer off 0 n) off n ≡ filled buffer off 0 n
zeroed_if-filled true buffer off n = filled_twice buffer off n
zeroed_if-filled false buffer off n = refl

module _ (s : Settings) (dropped : Memory) (o_b_off segment : ℕ)
    (some_bits : 0 < s.num_bits_in_segment) (in_word : s.num_bits_in_segment ≤ 32)
    (start : o_b_off / s.expected_heap_len ≡ segment * s.num_bits_in_segment)
    (in_array : segment < dropped.size) where
  mark_of :
      (i : ℕ)
      → i < s.num_bits_in_segment
      → get_bit s.num_bits_in_segment dropped (o_b_off / s.expected_heap_len + i)
        ≡ some (has_bit (dropped.cell segment) i)
  mark_of i small =
      let bits = s.num_bits_in_segment in
      let pos = o_b_off / s.expected_heap_len + i in
      let at : pos ≡ segment * bits + i = ap (λ (n : ℕ). n + i) start in
      let word : pos / bits ≡ segment = ap (λ (n : ℕ). n / bits) at ∙ grind arith in
      let bit : pos % bits ≡ i = ap (λ (n : ℕ). n % bits) at ∙ grind arith in
      get_bit-some bits dropped pos some_bits in_word (omega (arith, word))
      ∙ ap (λ (w : ℕ). some (has_bit (dropped.cell w) (pos % bits))) word
      ∙ ap (λ (k : ℕ). some (has_bit (dropped.cell segment) k)) bit

  round_set :
      (i n : ℕ) (buffer : Memory)
      → i < s.num_bits_in_segment
      → has_bit (dropped.cell segment) i ≡ true
      → o_b_off + s.ob_segment ≤ buffer.size
      → n + 1 < 2 ^ 32
      → zero_round s dropped o_b_off i (buffer, n)
        ≡ some (filled buffer o_b_off 0 s.ob_segment, n + 1)
  unfolding zero_round
  round_set i n buffer small on room word =
      let zeroes = memset_lem buffer o_b_off 0 s.ob_segment room in
      simp (mark_of i small, on, zeroes)
        (ap (λ (k : ℕ). some (filled buffer o_b_off 0 s.ob_segment, k)) (omega arith))

  round_unset :
      (i n : ℕ) (buffer : Memory)
      → i < s.num_bits_in_segment
      → has_bit (dropped.cell segment) i ≡ false
      → zero_round s dropped o_b_off i (buffer, n) ≡ some (buffer, n)
  unfolding zero_round
  round_unset i n buffer small off = simp (mark_of i small, off) refl

  zero_rounds_lem :
      (left i n : ℕ) (buffer : Memory)
      → i + left ≤ s.num_bits_in_segment
      → o_b_off + s.ob_segment ≤ buffer.size
      → n + left < 2 ^ 32
      → zero_rounds s dropped o_b_off left i (buffer, n)
        ≡ some (
          zeroed_if (ltb 0 (count_set (dropped.cell segment) i left)) buffer o_b_off s.ob_segment,
          n + count_set (dropped.cell segment) i left,
        )
  unfolding zero_rounds count_set
  zero_rounds_lem zero i n buffer bits room word = ap (λ (k : ℕ). some (buffer, k)) (omega arith)
  zero_rounds_lem (suc left) i n buffer bits room word =
      let w = dropped.cell segment in
      let rest = count_set w (i + 1) left in
      elim (Bool-cases (has_bit w i)) [
        | inr off ↦
            let later = zero_rounds_lem left (i + 1) n buffer (omega arith) room (omega arith) in
            let none_here : 0 + rest ≡ rest = omega arith in
            simp (round_unset i n buffer (omega arith) off, off, none_here) later
        | inl on ↦
            let later =
              zero_rounds_lem left (i + 1) (n + 1) (filled buffer o_b_off 0 s.ob_segment)
                (omega arith) room (omega arith) in
            let some_set : ltb 0 (1 + rest) ≡ true = ground arith in
            let total : n + 1 + rest ≡ n + (1 + rest) = omega arith in
            simp (round_set i n buffer (omega arith) on room (omega arith), on, some_set)
              (later
                ∙ ap (λ (b : Memory). some (b, n + 1 + rest))
                    (zeroed_if-filled (ltb 0 rest) buffer o_b_off s.ob_segment)
                ∙ ap (λ (k : ℕ). some (filled buffer o_b_off 0 s.ob_segment, k)) total)
      ]

-- At the start of a segment of 1 to 32 heaps, whose word is in the array and whose place is below 2 ^ 31
-- and in the DADA block, with sizes that are not 0 and a count at least 32 below 2 ^ 32: the count of
-- dropped heaps grows by the number of marks that are set, which are those of heaps that have come; and
-- the segment of the DADA block at that place of the order buffer is zeroed unless no mark is set.
pub zero_dropped_packets_lem :
    (s : Settings) (dropped buffer : Memory) (tail n segment : ℕ)
    → 0 < s.num_bits_in_segment
    → s.num_bits_in_segment ≤ 32
    → 0 < s.ob_size
    → 0 < s.expected_heap_len
    → tail % s.ob_size < 2 ^ 31
    → tail % s.ob_size / s.expected_heap_len ≡ segment * s.num_bits_in_segment
    → segment < dropped.size
    → tail % s.ob_size + s.ob_segment ≤ buffer.size
    → n + 32 < 2 ^ 32
    → zero_dropped_packets s dropped tail buffer n
      ≡ some (
        zeroed_if
            (ltb 0 (count_set (dropped.cell segment) 0 s.num_bits_in_segment))
            buffer
            (tail % s.ob_size)
            s.ob_segment,
        n + count_set (dropped.cell segment) 0 s.num_bits_in_segment,
      )
unfolding zero_dropped_packets
zero_dropped_packets_lem s dropped buffer tail n segment some_bits in_word some_size some_len small
      start in_array room word =
    let divisors : (s.ob_size == 0 || s.expected_heap_len == 0) ≡ false = ground arith in
    let off : int_offset (tail % s.ob_size) ≡ some (tail % s.ob_size) = ground arith in
    simp (divisors, off)
      (zero_rounds_lem s dropped (tail % s.ob_size) segment some_bits in_word start in_array
        s.num_bits_in_segment 0 n buffer (omega arith) room (omega arith))
