-- ===== src/ChildBeam/Consume/Sent.antt =====
-- Which values are handed over.
use mathlib.Core.List.{map, map-append, append-nil, append_assoc}
use incoherent_beamformer.Common.{
  if◌then◌else◌, false, ℕ, ◌^◌, ◌≡◌, ◌≢◌, ◌<◌, ◌∙◌, refl, sym, ap, Bool, true, Option, none, some,
  List, [], ◌∷◌, ◌++◌, Memory, arith, ◌>>=◌,
}
use incoherent_beamformer.ChildBeam.{malloc, alignment, round, rounds}
use incoherent_beamformer.ChildBeam.Consume.Text.{text_fits_lem}
use incoherent_beamformer.ChildBeam.Consume.{
  HandedHeap, Turn, Consumer, Stack, align, pick, num_out_vals, make_buffers, text_fits, send_heap,
  consume_round, consume, unaligned,
}

-- The bytes between both streams are a number of whole heaps, which is never 13.
alignment_unlike : (ts1 ts2 : ℕ) → (alignment ts1 ts2).1 ≢ 13
unfolding alignment
alignment_unlike ts1 ts2 h = ground arith

abbrev pub values_of : List HandedHeap → List Memory
values_of heaps = map (λ h. h.values) heaps

abbrev pub handed_values : Option Consumer → Option (List Memory)
handed_values none = none
handed_values (some c) = some (values_of c.handed)

-- The values so far with those of later rounds.
abbrev and_later : List Memory → Option (List Memory) → Option (List Memory)
and_later before none = none
and_later before (some later) = some (before ++ later)

abbrev picked : Bool → List Turn → List (Memory × Memory)
picked late_first turns = map (pick late_first) turns

-- The blocks of each round, the earlier stream's first.
abbrev pub pairs_of : Bool → List Turn → List (Memory × Memory)
pairs_of late_first [] = []
pairs_of late_first (t ∷ turns) =
    (if late_first then (t.block2, t.block1) else (t.block1, t.block2)) ∷ pairs_of late_first turns

picked_pairs :
    (late_first : Bool) (turns : List Turn) → picked late_first turns ≡ pairs_of late_first turns
picked_pairs true [] = refl
picked_pairs false [] = refl
picked_pairs true (t ∷ turns) = ap (λ l. (t.block2, t.block1) ∷ l) (picked_pairs true turns)
picked_pairs false (t ∷ turns) = ap (λ l. (t.block1, t.block2) ∷ l) (picked_pairs false turns)

-- The first align buffer.
abbrev pub zeroed : ℕ → Memory
zeroed size = record { size = size; cell = λ i. 0 }

and_later_next :
    (before : List Memory) (v : Memory) (r : Option (List Memory))
    → and_later (before ++ v ∷ []) r ≡ and_later before (r >>= λ later. some (v ∷ later))
and_later_next before v none = refl
and_later_next before v (some later) = ap some (append_assoc before (v ∷ []) later)

module _ (stack : Stack) (kept : (b : Memory × Memory) → stack b ≡ some b)
    (cells cells1 cells2 : ℕ → ℕ) (size : ℕ) (fits : text_fits (num_out_vals size) ≡ true) where
  align_kept : (t : Turn) (c : Consumer) → c.buffer_allignment ≢ 13 → align t c ≡ c
  unfolding align
  align_kept t c aligned = ground arith

  -- The rest of the loop after a round has made its buffers.
  with_made :
      (t : Turn) (turns : List Turn) (c : Consumer) (made : Option (Memory × Memory))
      → ((c' : Consumer) (a b : Memory)
          → c'.buffer_allignment ≡ c.buffer_allignment
          → c'.late_first ≡ c.late_first
          → c'.buffers ≡ some (a, b)
          → handed_values (consume stack cells cells1 cells2 size turns c')
            ≡ and_later
                (values_of c'.handed)
                (rounds cells1 cells2 size c.buffer_allignment (picked c.late_first turns) a b))
      → handed_values (
          made
          >>= send_heap t (num_out_vals size) c
          >>= consume stack cells cells1 cells2 size turns)
        ≡ and_later (values_of c.handed) (
            made >>= λ m.
            rounds cells1 cells2 size c.buffer_allignment (picked c.late_first turns) m.0 m.1
            >>= λ later. some (m.1 ∷ later))
  with_made t turns c none goes = refl
  with_made t turns c (some (a, b)) goes =
      let r = rounds cells1 cells2 size c.buffer_allignment (picked c.late_first turns) a b in
      simp fits (
        goes _ a b refl refl refl
        ∙ ap (λ l. and_later l r) (map-append (λ h. h.values) c.handed _)
        ∙ and_later_next (values_of c.handed) b r)

  later_rounds :
      (turns : List Turn) (c : Consumer) (align_buffer beam : Memory)
      → c.buffer_allignment ≢ 13
      → make_buffers stack cells size c.buffers ≡ some (align_buffer, beam)
      → handed_values (consume stack cells cells1 cells2 size turns c)
        ≡ and_later (values_of c.handed) (
            rounds cells1 cells2 size c.buffer_allignment
              (picked c.late_first turns)
              align_buffer
              beam)
  unfolding consume consume_round rounds
  later_rounds [] c align_buffer beam aligned same = ap some (sym (append-nil (values_of c.handed)))
  later_rounds (t ∷ turns) c align_buffer beam aligned same =
      simp (align_kept t c aligned, same)
        (with_made t turns c
          (round cells1 cells2 size c.buffer_allignment (pick c.late_first t).0
            (pick c.late_first t).1 align_buffer beam)
          (λ c' a b al late bufs.
            later_rounds turns c' a b (λ e. aligned (sym al ∙ e))
              (ap (make_buffers stack cells size) bufs ∙ kept (a, b))
            ∙ ap
                (λ n.
                  and_later (values_of c'.handed)
                    (rounds cells1 cells2 size n (picked c'.late_first turns) a b))
                al
            ∙ ap
                (λ l.
                  and_later (values_of c'.handed)
                    (rounds cells1 cells2 size c.buffer_allignment (picked l turns) a b))
                late))

  -- The streams as the first round aligns them.
  abbrev aligned_by : Turn → Consumer
  aligned_by t = record unaligned {
    late_first = (alignment t.ts1 t.ts2).0;
    buffer_allignment = (alignment t.ts1 t.ts2).1;
  }

  first_aligned : (t : Turn) → align t unaligned ≡ aligned_by t
  unfolding align
  first_aligned t = refl

  and_later_none : (r : Option (List Memory)) → and_later [] r ≡ r
  and_later_none none = refl
  and_later_none (some later) = refl

  -- The first round is one from aligned streams.
  first_turn :
      (t : Turn)
      → consume_round stack cells cells1 cells2 size t unaligned
        ≡ consume_round stack cells cells1 cells2 size t (aligned_by t)
  unfolding consume_round
  first_turn t =
      let same =
        first_aligned t ∙ sym (align_kept t (aligned_by t) (alignment_unlike t.ts1 t.ts2)) in
      ap
        (λ c₁.
          let blocks = pick c₁.late_first t in
          make_buffers stack cells size c₁.buffers >>= λ buffers.
          round cells1 cells2 size c₁.buffer_allignment blocks.0 blocks.1 buffers.0 buffers.1
          >>= send_heap t (num_out_vals size) c₁)
        same

  aligned_once :
      (t : Turn) (turns : List Turn)
      → handed_values (consume stack cells cells1 cells2 size (t ∷ turns) unaligned)
        ≡ rounds cells1 cells2 size
            (alignment t.ts1 t.ts2).1
            (picked (alignment t.ts1 t.ts2).0 (t ∷ turns))
            (zeroed size)
            (malloc (num_out_vals size) cells)
  unfolding consume
  aligned_once t turns =
      ap (λ c. handed_values (c >>= consume stack cells cells1 cells2 size turns)) (first_turn t)
      ∙ later_rounds (t ∷ turns) (aligned_by t) (zeroed size) (malloc (num_out_vals size) cells)
          (alignment_unlike t.ts1 t.ts2) refl
      ∙ and_later_none (
          rounds cells1 cells2 size (alignment t.ts1 t.ts2).1
            (picked (alignment t.ts1 t.ts2).0 (t ∷ turns)) (zeroed size)
            (malloc (num_out_vals size) cells))

-- Where the pointers keep what they held: what is handed over are the beamformed values of rounds on
-- streams that are aligned once, with a first align buffer of zeros.
pub consume_lem :
    (stack : Stack) (cells cells1 cells2 : ℕ → ℕ) (size : ℕ) (t : Turn) (turns : List Turn)
    → ((b : Memory × Memory) → stack b ≡ some b)
    → num_out_vals size < 10 ^ 11
    → handed_values (consume stack cells cells1 cells2 size (t ∷ turns) unaligned)
      ≡ rounds cells1 cells2 size
          (alignment t.ts1 t.ts2).1
          (pairs_of (alignment t.ts1 t.ts2).0 (t ∷ turns))
          (zeroed size)
          (malloc (num_out_vals size) cells)
consume_lem stack cells cells1 cells2 size t turns kept small =
    aligned_once stack kept cells cells1 cells2 size (text_fits_lem (num_out_vals size) small) t
      turns
    ∙ ap
        (λ pairs.
          rounds cells1 cells2 size (alignment t.ts1 t.ts2).1 pairs (zeroed size)
            (malloc (num_out_vals size) cells))
        (picked_pairs (alignment t.ts1 t.ts2).0 (t ∷ turns))
