-- ===== src/HeadNode/Sync/Earliest.antt =====
-- The time that the threads agree on when each test and its assignment are not interrupted.
use incoherent_beamformer.Common.{
  ℕ, ◌+◌, ◌≤◌, ◌<◌, ◌≡◌, ◌≢◌, ◌==◌, ◌∙◌, refl, sym, ap, subst, ◌⊎◌, inl, inr, Bool-cases,
  if◌then◌else◌, ltb, List, [], ◌∷◌, arith,
}
use incoherent_beamformer.HeadNode.Sync.{Sync, with_at, wants, ts2, test, set_tsync, pop, begun}

-- A round of thread `i` with no other in between.
abbrev pub turn : (ℕ → ℕ → ℕ) → ℕ → ℕ → Sync → Sync
turn stamps loops i w =
    let tested = test stamps i w in
    pop loops i (if wants i (ts2 stamps i w) w.tsync then set_tsync stamps i tested else tested)

abbrev pub turns : (ℕ → ℕ → ℕ) → ℕ → List ℕ → Sync → Sync
turns stamps loops [] w = w
turns stamps loops (i ∷ rest) w = turns stamps loops rest (turn stamps loops i w)

-- The time is that of some heap that came, and no later than any that was tested, but for 0.
record IsEarliest (stamps : ℕ → ℕ → ℕ) (w : Sync) : Type 0 where
  pub least : (j n : ℕ) → n < w.heaps j → stamps j n ≢ 0 → w.tsync ≤ stamps j n
  pub attained : (j : ℕ) × (n : ℕ) × (n ≤ w.heaps j) × (w.tsync ≡ stamps j n)

module _ (stamps : ℕ → ℕ → ℕ) (loops : ℕ) where
  turn_tsync :
      (i : ℕ) (w : Sync)
      → ((turn stamps loops i w).tsync ≡ w.tsync
          × ((ts2 stamps i w ≡ 0) ⊎ (w.tsync ≤ ts2 stamps i w)))
        ⊎ ((turn stamps loops i w).tsync ≡ ts2 stamps i w × (ts2 stamps i w < w.tsync))
  unfolding test set_tsync pop wants
  turn_tsync i w = ground arith

  turn_heaps :
      (i : ℕ) (w : Sync) → (turn stamps loops i w).heaps ≡ with_at i (w.heaps i + 1) w.heaps
  unfolding test set_tsync pop
  turn_heaps i w = elim (Bool-cases (wants i (ts2 stamps i w) w.tsync)) [
    | inl on ↦ simp on refl
    | inr off ↦ simp off refl
  ]

  -- A heap that was tested in this turn or before it.
  heap_cases :
      (i j n : ℕ) (w : Sync)
      → n < with_at i (w.heaps i + 1) w.heaps j
      → ((j ≡ i) × (n ≡ w.heaps i)) ⊎ (n < w.heaps j)
  heap_cases i j n w h = elim (Bool-cases (j == i)) [
    | inl same ↦
        let at : j ≡ i = ground arith in
        elim (Bool-cases (ltb n (w.heaps j))) [
          | inl old ↦ inr (ground arith)
          | inr new ↦ inl (at, ground arith)
        ]
    | inr other ↦ inr (simp other at h)
  ]

  more_heaps : (i j : ℕ) (w : Sync) → w.heaps j ≤ (turn stamps loops i w).heaps j
  more_heaps i j w =
      let grown : w.heaps j ≤ with_at i (w.heaps i + 1) w.heaps j = ground arith in
      subst (λ (f : ℕ → ℕ). w.heaps j ≤ f j) (sym (turn_heaps i w)) grown

  turn-IsEarliest :
      (i : ℕ) (w : Sync) → IsEarliest stamps w → IsEarliest stamps (turn stamps loops i w)
  turn-IsEarliest i w e =
      let taken = turn_tsync i w in
      let (j₀, n₀, before₀, same₀) = e.attained in
      let more = more_heaps i j₀ w in
      let own = more_heaps i i w in
      record {
        least = λ j n before real.
            let before' : n < with_at i (w.heaps i + 1) w.heaps j =
              subst (λ (f : ℕ → ℕ). n < f j) (turn_heaps i w) before in
            elim (heap_cases i j n w before') [
              | inl (same_j, same_n) ↦
                  let at : stamps j n ≡ ts2 stamps i w =
                    ap (λ k. stamps k n) same_j ∙ ap (stamps i) same_n in
                  ground arith
              | inr old ↦ let least = e.least j n old real in ground arith
            ];
        attained = elim taken [
          | inl (kept, late) ↦ (j₀, n₀, omega arith, kept ∙ same₀)
          | inr (new, early) ↦ (i, w.heaps i, own, new)
        ];
      }

  turns-IsEarliest :
      (order : List ℕ) (w : Sync)
      → IsEarliest stamps w
      → IsEarliest stamps (turns stamps loops order w)
  turns-IsEarliest [] w e = e
  turns-IsEarliest (i ∷ order) w e =
      turns-IsEarliest order (turn stamps loops i w) (turn-IsEarliest i w e)

  -- Where no test and assignment are interrupted by another thread, whatever the order of the
  -- threads, the time to sync with is the timestamp of some heap that came, or the first of `run`, and
  -- is no later than any timestamp other than 0 that a thread tested.
  pub turns_tsync :
      (order : List ℕ) (j n : ℕ)
      → n < (turns stamps loops order (begun stamps)).heaps j
      → stamps j n ≢ 0
      → ((turns stamps loops order (begun stamps)).tsync ≤ stamps j n)
        × ((i : ℕ) × (m : ℕ) × (m ≤ (turns stamps loops order (begun stamps)).heaps i)
            × ((turns stamps loops order (begun stamps)).tsync ≡ stamps i m))
  turns_tsync order j n tested real =
      let e = turns-IsEarliest order (begun stamps) (record {
        least = λ j n before real. absurd (omega arith);
        attained = (3, 0, omega arith, refl);
      }) in
      (e.least j n tested real, e.attained)
