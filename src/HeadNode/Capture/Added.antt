-- ===== src/HeadNode/Capture/Added.antt =====
-- Which heaps of its stream the master thread adds.
use incoherent_beamformer.Common.{
  ℕ, ◌/◌, ◌≡◌, ◌∙◌, refl, ◌&&◌, ◌||◌, Bool, true, Option-cases, inl, inr, Option, none, some, List,
  [], ◌∷◌, ◌++◌, leb, sub64, Memory, arith, ◌>>=◌,
}
use incoherent_beamformer.HeadNode.{bf_align}
use incoherent_beamformer.HeadNode.Capture.{
  read_stamp, out_buffer_size, position, is_positive, Capture, Outcome, again, stopped, faulted,
  and_then, pop, with_ring, added_at, add_heap, Reading, publish, round, rounds,
}

abbrev pub ring_of : Outcome → Option Memory
ring_of (again c) = some c.ring
ring_of (stopped c) = some c.ring
ring_of faulted = none

-- The rounds of a thread: what it reads as `tsync`, and the two heaps that come.
abbrev pub Rounds : Type 0
Rounds = List (ℕ × Memory × Memory)

-- Every heap has a timestamp.
abbrev pub all_stamped : Rounds → Bool
all_stamped [] = true
all_stamped ((tsync, h, h') ∷ turns) = leb 4 h.size && leb 4 h'.size && all_stamped turns

-- The heaps, one after the other.
abbrev pub in_line : Rounds → List Memory
in_line [] = []
in_line ((tsync, h, h') ∷ turns) = h ∷ h' ∷ in_line turns

-- The first heap of every round.
abbrev pub firsts : Rounds → List Memory
firsts [] = []
firsts ((tsync, h, h') ∷ turns) = h ∷ firsts turns

-- The thread is the master all the time.
abbrev pub as_master : Rounds → List Reading
as_master [] = []
as_master ((tsync, h, h') ∷ turns) =
    record { tsync = tsync; is_master = true; still_master = true } ∷ as_master turns

-- The ring with some heaps added, each at the place for its time.
abbrev pub all_added : ℕ → ℕ → List Memory → Memory → Option Memory
all_added first_ts num_vals [] ring = some ring
all_added first_ts num_vals (h ∷ heaps) ring = read_stamp h >>= λ ts.
    position (sub64 ts first_ts) >>= λ pos.
    bf_align h ring num_vals pos (out_buffer_size / 2) >>= λ ring'.
    all_added first_ts num_vals heaps ring'

stamped : (h : Memory) → leb 4 h.size ≡ true → (ts : ℕ) × (read_stamp h ≡ some ts)
unfolding read_stamp
stamped h long = elim (Option-cases (read_stamp h)) [
  | inl none_there ↦ absurd (ground arith)
  | inr there ↦ there
]

-- A round of the master once its heap is added.
abbrev after_round : Capture → Memory → ℕ → List Memory → Option Memory → Outcome
after_round c h' t' rest none = faulted
after_round c h' t' rest (some ring) = again (record c {
  ring = ring;
  item = h';
  ts2 = t';
  tsdiff2 = sub64 t' c.first_ts;
  stream = rest;
  published = c.published ++ t' ∷ [];
})

module _ (c : Capture) (h h' : Memory) (rest : List Memory) (t t' : ℕ) where
  abbrev held : Capture
  held = record c { item = h; ts2 = t; tsdiff2 = sub64 t c.first_ts; stream = h' ∷ rest }

  end_round :
      (r : Reading) (ring : Option Memory)
      → r.still_master ≡ true
      → read_stamp h' ≡ some t'
      → and_then (with_ring held ring) (λ c₂. and_then (pop c₂) (λ c₃. again (publish r c₃)))
        ≡ after_round c h' t' rest ring
  unfolding pop publish
  end_round r none still read = refl
  end_round r (some ring) still read = simp (read, still) refl

  round_master :
      (r : Reading)
      → r.is_master ≡ true
      → r.still_master ≡ true
      → c.stream ≡ h ∷ h' ∷ rest
      → read_stamp h ≡ some t
      → read_stamp h' ≡ some t'
      → round r c ≡ after_round c h' t' rest (added_at held (position (sub64 t c.first_ts)))
  unfolding round pop add_heap
  round_master r master still line read read' =
      let on : (is_positive (sub64 r.tsync c.ts2) || r.is_master) ≡ true = ground arith in
      simp (on, line, read)
        (end_round r (added_at held (position (sub64 t c.first_ts))) still read')

  added_at_lem :
      (pos : Option ℕ) (f : Memory → Option Memory)
      → (added_at held pos >>= f)
        ≡ (pos >>= λ p. bf_align h c.ring c.num_vals p (out_buffer_size / 2) >>= f)
  added_at_lem none f = refl
  added_at_lem (some p) f = refl

  later_rounds :
      (turns : Rounds) (ring : Option Memory)
      → ((c' : Capture)
          → c'.stream ≡ rest
          → ring_of (rounds (as_master turns) c')
            ≡ all_added c'.first_ts c'.num_vals (firsts turns) c'.ring)
      → ring_of (and_then (after_round c h' t' rest ring) (rounds (as_master turns)))
        ≡ (ring >>= all_added c.first_ts c.num_vals (firsts turns))
  later_rounds turns none goes = refl
  later_rounds turns (some ring) goes = goes _ refl

-- While a thread is the master and heaps with timestamps come, two for each round, its rounds leave
-- the ring with the first heap of every round added at the place for its time, and with no other; where
-- that is a fault, they fault.
pub rounds_lem :
    (turns : Rounds) (c : Capture)
    → c.stream ≡ in_line turns
    → all_stamped turns ≡ true
    → ring_of (rounds (as_master turns) c) ≡ all_added c.first_ts c.num_vals (firsts turns) c.ring
unfolding rounds
rounds_lem [] c line long = refl
rounds_lem ((tsync, h, h') ∷ turns) c line long =
    let (t, read) = stamped h (ground arith) in
    let (t', read') = stamped h' (ground arith) in
    let later : all_stamped turns ≡ true = ground arith in
    let reading : Reading = record { tsync = tsync; is_master = true; still_master = true } in
    let first = round_master c h h' (in_line turns) t t' reading refl refl line read read' in
    let placed = position (sub64 t c.first_ts) in
    simp (first, read)
      (later_rounds c h h' (in_line turns) t t' turns
          (added_at (held c h h' (in_line turns) t t') placed)
          (λ c' line'. rounds_lem turns c' line' later)
        ∙ added_at_lem c h h' (in_line turns) t t' placed
            (all_added c.first_ts c.num_vals (firsts turns)))
