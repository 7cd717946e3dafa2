-- ===== src/ChildBeam/Delay.antt =====
-- How the rounds of `consume` align the two streams: the later one is delayed by the bytes
-- between them, across the ends of the blocks.
use incoherent_beamformer.Common.{
  ℕ, zero, suc, ◌+◌, ◌-◌, ◌*◌, ◌/◌, ◌%◌, ◌^◌, ◌≤◌, ◌<◌, ◌≡◌, refl, some, arith, ltb, if◌then◌else◌,
  Bool-cases, inl, inr, true, ◌∙◌, sub64, Memory, copied, memcpy_lem, List, [], ◌∷◌,
}
use incoherent_beamformer.Accumulate.{num_spectra}
use incoherent_beamformer.Accumulate.Sample.{pair_value}
use incoherent_beamformer.Accumulate.Loops.{sum_from, spectrum_value, accumulated_value}
use incoherent_beamformer.ChildBeam.{fill_align_buffer, keep_tail, round, rounds}
use incoherent_beamformer.ChildBeam.Sum.{beamformed_value, accumulate_and_beamform-IsBeamformed}

-- Two memories agree on the first `size` cells.
abbrev pub Agrees : ℕ → Memory → Memory → Type 0
Agrees size a b = (i : ℕ) → i < size → a.cell i ≡ b.cell i

pair_value_cong :
    (size : ℕ) (a b : Memory) (at r : ℕ)
    → Agrees size a b
    → at + 4 ≤ size
    → r < 8
    → pair_value a at r ≡ pair_value b at r
pair_value_cong size a b at r h room few =
    rw (h (at + r / 4) (omega arith), h (at + r / 4 + 2) (omega arith)) refl

sum_from_cong :
    (f g : ℕ → ℕ) (n k left : ℕ)
    → k + left ≤ n
    → ((i : ℕ) → i < n → f i ≡ g i)
    → sum_from f k left ≡ sum_from g k left
sum_from_cong f g n k zero h e = refl
sum_from_cong f g n k (suc left) h e =
    rw (e k (omega arith), sum_from_cong f g n (k + 1) left (omega arith) e) refl

accumulated_value_cong :
    (size : ℕ) (a b : Memory) (j q : ℕ)
    → Agrees size a b
    → (j + 1) * 256 * 2048 ≤ size
    → q < 4096
    → accumulated_value a j q ≡ accumulated_value b j q
unfolding accumulated_value spectrum_value
accumulated_value_cong size a b j q h room few =
    sum_from_cong _ _ 256 0 256 (omega arith) (λ k below.
      pair_value_cong size a b (j * 256 * 2048 + k * 2048 + q / 8 * 4) (q % 8) h (omega arith)
        (omega arith))

beamformed_value_cong :
    (size : ℕ) (al a b : Memory) (p : ℕ)
    → Agrees size a b
    → beamformed_value al a size p ≡ beamformed_value al b size p
beamformed_value_cong size al a b p h = elim (Bool-cases (ltb p (num_spectra size / 256 * 4096))) [
  | inl whole ↦
      let e =
        accumulated_value_cong size a b (p / 4096) (p % 4096) h (ground arith) (omega arith) in
      rw e refl
  | inr rest ↦ rw rest refl
]

-- The block that is summed: the last `late` bytes of the block before, then this block's first.
abbrev pub delayed : ℕ → ℕ → Memory → Memory → Memory
delayed size late before this = record this {
  cell = λ i. if ltb i late then before.cell (size - late + i) else this.cell (i - late);
}

-- The results of the rounds on blocks that come after `before`.
abbrev pub AreAligned : ℕ → ℕ → Memory → List (Memory × Memory) → List Memory → Type 0
AreAligned size late before [] [] = Unit
AreAligned size late before [] (beam ∷ beams) = ⊥
AreAligned size late before (block ∷ blocks) [] = ⊥
AreAligned size late before ((alligned, missalligned) ∷ blocks) (beam ∷ beams) =
    ((p : ℕ)
      → (if ltb p (num_spectra size * 4096 / 256) then beam.cell p else 0) ≡ (
          if ltb p (num_spectra size * 4096 / 256)
          then beamformed_value alligned (delayed size late before missalligned) size p
          else 0))
    × AreAligned size late missalligned blocks beams

abbrev pub zeros : ℕ → Memory
zeros size = record { size = size; cell = λ i. 0 }

-- Every block has `size` bytes.
abbrev pub HaveSize : ℕ → List (Memory × Memory) → Type 0
HaveSize size [] = Unit
HaveSize size ((alligned, missalligned) ∷ blocks) =
    ((size ≤ alligned.size) × (size ≤ missalligned.size)) × HaveSize size blocks

-- The align buffer begins with the last `late` bytes of the block before.
abbrev pub HasTail : ℕ → ℕ → Memory → Memory → Type 0
HasTail size late before align =
    (align.size ≡ size) × ((i : ℕ) → i < late → align.cell i ≡ before.cell (size - late + i))

module _ (cells1 cells2 : ℕ → ℕ) (size late : ℕ) (small : size ≤ 2 ^ 31)
    (within_block : late ≤ size) where
  shifted : sub64 size late ≡ size - late
  shifted = omega arith

  fill_lem :
      (mis before align : Memory)
      → size ≤ mis.size
      → HasTail size late before align
      → (filled : Memory) × (fill_align_buffer size late mis align ≡ some filled)
        × (filled.size ≡ size)
        × Agrees size filled (delayed size late before mis)
  unfolding fill_align_buffer
  fill_lem mis before align room tail =
      let len = tail.0 in
      (
        copied align late mis 0 (size - late),
        rw (shifted, memcpy_lem align late mis 0 (size - late) (omega arith) (omega arith)) refl,
        tail.0,
        λ i h. let e = tail.1 i in ground arith,
      )

  keep_lem :
      (mis filled : Memory)
      → size ≤ mis.size
      → filled.size ≡ size
      → (align' : Memory) × (keep_tail size late mis filled ≡ some align')
        × HasTail size late mis align'
  unfolding keep_tail
  keep_lem mis filled room len = (
    copied filled 0 mis (size - late) late,
    rw (shifted, memcpy_lem filled 0 mis (size - late) late (omega arith) (omega arith)) refl,
    (len, λ i h. ground arith),
  )

  round_lem :
      (al mis before align beam : Memory)
      → size ≤ al.size
      → size ≤ mis.size
      → num_spectra size * 4096 / 256 ≤ beam.size
      → HasTail size late before align
      → (align' beam' : Memory) × (round cells1 cells2 size late al mis align beam
          ≡ some (align', beam'))
        × HasTail size late mis align'
        × (beam'.size ≡ beam.size)
        × ((p : ℕ)
            → p < num_spectra size * 4096 / 256
            → beam'.cell p ≡ beamformed_value al (delayed size late before mis) size p)
  unfolding round
  round_lem al mis before align beam h1 h2 room tail =
      let (filled, fills, filled_size, agrees) = fill_lem mis before align h2 tail in
      let result =
        accumulate_and_beamform-IsBeamformed cells1 cells2 al filled beam size h1 (omega arith)
          small room in
      let (align', keeps, tail') = keep_lem mis filled h2 filled_size in
      (
        align',
        result.beamformed',
        rw (fills, result.returns, keeps) refl,
        tail',
        result.same_size,
        λ p h.
            let inside : ltb p (num_spectra size * 4096 / 256) ≡ true = ground arith in
            let e = result.values p in
            let e' = beamformed_value_cong size al filled (delayed size late before mis) p agrees in
            (rw inside at e) ∙ e',
      )

  rounds_lem :
      (blocks : List (Memory × Memory)) (before align beam : Memory)
      → HaveSize size blocks
      → num_spectra size * 4096 / 256 ≤ beam.size
      → HasTail size late before align
      → (beams : List Memory) × (rounds cells1 cells2 size late blocks align beam ≡ some beams)
        × AreAligned size late before blocks beams
  unfolding rounds
  rounds_lem [] before align beam h room tail = ([], refl, tt)
  rounds_lem ((al, mis) ∷ blocks) before align beam h room tail =
      let (align', beam', runs, tail', same, values) =
        round_lem al mis before align beam h.0.0 h.0.1 room tail in
      let (beams, run, aligned) = rounds_lem blocks mis align' beam' h.1 (omega arith) tail' in
      (
        beam' ∷ beams,
        rw (runs, run) refl,
        (
          λ p. elim (Bool-cases (ltb p (num_spectra size * 4096 / 256))) [
            | inl inside ↦ rw inside (values p (ground arith))
            | inr outside ↦ rw outside refl
          ],
          aligned,
        ),
      )

-- The rounds of `consume`, from an align buffer of `size` zeros: on any blocks of `size` bytes (at
-- most 2 ^ 31), with the later stream `late` bytes behind (at most a block) and room for the
-- results, no round faults, and the values sent in each round are those of the sum of the aligned
-- block with the other stream delayed by `late` bytes: the last `late` bytes of its block before
-- (zeros in the first round), then the first bytes of its block.
pub rounds-AreAligned :
    (cells1 cells2 : ℕ → ℕ) (size late : ℕ) (blocks : List (Memory × Memory)) (beam : Memory)
    → size ≤ 2 ^ 31
    → late ≤ size
    → HaveSize size blocks
    → num_spectra size * 4096 / 256 ≤ beam.size
    → (beams : List Memory) × (rounds cells1 cells2 size late blocks (zeros size) beam ≡ some beams)
      × AreAligned size late (zeros size) blocks beams
rounds-AreAligned cells1 cells2 size late blocks beam small below h room =
    rounds_lem cells1 cells2 size late small below blocks (zeros size) (zeros size) beam h room
      (refl, λ i h. refl)
