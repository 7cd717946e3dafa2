-- ===== src/PacketBits/Marks.antt =====
-- Marking a heap and asking for a mark.
use native.Mathlib.Nat.{mod-lt, div-add-mod}
use incoherent_beamformer.Common.{
  ℕ, zero, suc, ◌+◌, ◌*◌, ◌/◌, ◌%◌, ◌<◌, ◌≤◌, ◌≡◌, ◌∙◌, sym, refl, ap, Bool, true, false, ◌==◌, ltb,
  if◌then◌else◌, Bool-cases, inl, inr, Option, some, Memory, stored, within, arith,
}
use incoherent_beamformer.Settings.{done}
use incoherent_beamformer.PacketBits.{has_bit, with_bit, place, or_bit, set_bit, get_bit}
use incoherent_beamformer.PacketBits.Words.{has_bit-with_bit}

if-some : (c b : Bool) → some (if c then true else b) ≡ (if c then some true else some b)
if-some true b = refl
if-some false b = refl

pub place-some :
    (bits pos : ℕ) → 0 < bits → bits ≤ 32 → place bits pos ≡ some (pos / bits, pos % bits)
unfolding place
place-some zero pos some_bits word = absurd (omega arith)
place-some (suc n) pos some_bits word =
    let small = mod-lt pos some_bits in
    let in_word : ltb (pos % suc n) 32 ≡ true = grind arith in simp in_word refl

module _ (bits : ℕ) (array : Memory) (some_bits : 0 < bits) (word : bits ≤ 32) where
  -- The array with the mark of a heap.
  abbrev marked : ℕ → Memory
  marked pos = stored array (pos / bits) (with_bit (array.cell (pos / bits)) (pos % bits))

  set_bit-done :
      (pos : ℕ) → pos / bits < array.size → set_bit true true bits array pos ≡ done (marked pos)
  unfolding set_bit or_bit
  set_bit-done pos room =
      let in_range : ltb (pos / bits) array.size ≡ true = ground arith in
      simp (place-some bits pos some_bits word, in_range) refl

  same_place : (p q : ℕ) → (p / bits == q / bits) ≡ true → (p % bits == q % bits) ≡ true → p ≡ q
  same_place p q h k =
      let i : p / bits ≡ q / bits = ground arith in
      let j : p % bits ≡ q % bits = ground arith in
      sym (div-add-mod p bits)
      ∙ ap (λ (n : ℕ). bits * n + p % bits) i
      ∙ ap (λ (n : ℕ). bits * (q / bits) + n) j
      ∙ div-add-mod q bits

  -- Heaps with different words, with the same word, and the same heap.
  different : (pos q : ℕ) → (q / bits == pos / bits) ≡ false → (q == pos) ≡ false
  different pos q other = elim (Bool-cases (q == pos)) [
    | inr off ↦ off
    | inl on ↦ let e : q ≡ pos = ground arith in absurd (grind (arith, ap (λ (n : ℕ). n / bits) e))
  ]

  same_word : (pos q : ℕ) → (q / bits == pos / bits) ≡ true → (q % bits == pos % bits) ≡ (q == pos)
  same_word pos q same = elim (Bool-cases (q % bits == pos % bits)) [
    | inl on ↦
        let e = same_place q pos same on in let eq : (q == pos) ≡ true = ground arith in on ∙ sym eq
    | inr off ↦ elim (Bool-cases (q == pos)) [
      | inr apart ↦ off ∙ sym apart
      | inl on ↦
          let e : q ≡ pos = ground arith in absurd (grind (arith, ap (λ (n : ℕ). n % bits) e))
    ]
  ]

  marked_cell :
      (pos q : ℕ)
      → has_bit ((marked pos).cell (q / bits)) (q % bits)
        ≡ (if q == pos then true else has_bit (array.cell (q / bits)) (q % bits))
  marked_cell pos q = elim (Bool-cases (q / bits == pos / bits)) [
    | inr other ↦
        let away : within (pos / bits) 1 (q / bits) ≡ false = ground arith in
        let apart = different pos q other in simp (away, apart) refl
    | inl same ↦
        let here : within (pos / bits) 1 (q / bits) ≡ true = ground arith in
        let word : q / bits ≡ pos / bits = ground arith in
        ap
          (λ (b : Bool).
            has_bit
              (if b then with_bit (array.cell (pos / bits)) (pos % bits) else array.cell (q / bits))
              (q % bits))
          here
        ∙ has_bit-with_bit (array.cell (pos / bits)) (pos % bits) (q % bits)
        ∙ ap (λ (b : Bool). if b then true else has_bit (array.cell (pos / bits)) (q % bits))
            (same_word pos q same)
        ∙ ap (λ (i : ℕ). if q == pos then true else has_bit (array.cell i) (q % bits)) (sym word)
  ]

pub get_bit-some :
    (bits : ℕ) (array : Memory) (pos : ℕ)
    → 0 < bits
    → bits ≤ 32
    → pos / bits < array.size
    → get_bit bits array pos ≡ some (has_bit (array.cell (pos / bits)) (pos % bits))
unfolding get_bit
get_bit-some bits array pos some_bits word room =
    let in_range : ltb (pos / bits) array.size ≡ true = ground arith in
    simp (place-some bits pos some_bits word, in_range) refl

-- With at most 32 bits in a word, marking a heap whose word is in the array succeeds, where both
-- semaphore calls do, and afterwards the heap has its mark and every other has the one it had.
pub get_bit-set_bit :
    (bits : ℕ) (array : Memory) (pos q : ℕ)
    → 0 < bits
    → bits ≤ 32
    → pos / bits < array.size
    → q / bits < array.size
    → (array' : Memory) × (set_bit true true bits array pos ≡ done array')
      × (get_bit bits array' q ≡ (if q == pos then some true else get_bit bits array q))
get_bit-set_bit bits array pos q some_bits word room room' =
    let old = get_bit-some bits array q some_bits word room' in
    (
      stored array (pos / bits) (with_bit (array.cell (pos / bits)) (pos % bits)),
      set_bit-done bits array some_bits word pos room,
      get_bit-some bits _ q some_bits word room'
          ∙ ap (λ (b : Bool). some b) (marked_cell bits array some_bits word pos q)
          ∙ if-some (q == pos) _
          ∙ ap (λ (b : Option Bool). if q == pos then some true else b) (sym old),
    )
