-- ===== src/HeadNode/Sync/Heard.antt =====
-- Which time the threads agree on.
use incoherent_beamformer.Common.{
  ℕ, ◌≤◌, ◌<◌, ◌≡◌, ◌==◌, refl, sym, ap, subst, ◌⊎◌, inl, inr, Bool, true, false, Bool-cases,
  if◌then◌else◌, arith,
}
use incoherent_beamformer.HeadNode.Sync.{
  Phase, testing, setting, popping, leaving, closing, left, Sync, with_at, wants, ts2, test,
  set_tsync, close, pop, leave, Step, tests, sets, pops, leaves, closes, Reach, here, next, begun,
}

-- In the loop.
abbrev pub in_loop : Phase → Bool
in_loop testing = true
in_loop setting = true
in_loop popping = true
in_loop leaving = true
in_loop closing = false
in_loop left = false

-- `first` bounds the time, and those that a thread is about to set; and the time is one of the
-- master's.
record IsBounded (stamps : ℕ → ℕ → ℕ) (w : Sync) : Type 0 where
  pub bound : w.tsync ≤ stamps 3 0
  pub setters : (i : ℕ) → w.phase i ≡ setting → ts2 stamps i w < stamps 3 0
  pub heard : (n : ℕ) × (n ≤ w.heaps w.master_id) × (w.tsync ≡ stamps w.master_id n)

module _ (stamps : ℕ → ℕ → ℕ) (loops : ℕ) where
  wants-less : (i x y : ℕ) → wants i x y ≡ true → x < y
  unfolding wants
  wants-less i x y h = ground arith

  -- What stands at a place after an update.
  at_place :
      (i j : ℕ) (p q : Phase) (phase : ℕ → Phase)
      → with_at i p phase j ≡ q
      → ((j ≡ i) × (p ≡ q)) ⊎ (phase j ≡ q)
  at_place i j p q phase h = ground arith

  tested : (i : ℕ) (x y : ℕ) → (if wants i x y then setting else popping) ≡ setting → x < y
  tested i x y h = elim (Bool-cases (wants i x y)) [
    | inl on ↦ wants-less i x y on
    | inr off ↦ absurd (ground arith)
  ]

  test-IsBounded : (i : ℕ) (w : Sync) → IsBounded stamps w → IsBounded stamps (test stamps i w)
  unfolding test
  test-IsBounded i w b = record {
    bound = b.bound;
    setters = λ j at. elim (at_place i j _ setting w.phase at) [
      | inl (same, on) ↦
          let less = tested i (ts2 stamps i w) w.tsync on in
          let bound = b.bound in subst (λ k. ts2 stamps k w < stamps 3 0) (sym same) (omega arith)
      | inr before ↦ b.setters j before
    ];
    heard = b.heard;
  }

  set_tsync-IsBounded :
      (i : ℕ) (w : Sync)
      → w.phase i ≡ setting
      → IsBounded stamps w
      → IsBounded stamps (set_tsync stamps i w)
  unfolding set_tsync
  set_tsync-IsBounded i w at b =
      let less = b.setters i at in
      record {
        bound = omega arith;
        setters = λ j on. elim (at_place i j popping setting w.phase on) [
          | inl (same, other) ↦ absurd (ground arith)
          | inr before ↦ b.setters j before
        ];
        heard = (w.heaps i, omega arith, refl);
      }

  pop-IsBounded :
      (i : ℕ) (w : Sync)
      → w.phase i ≡ popping
      → IsBounded stamps w
      → IsBounded stamps (pop loops i w)
  unfolding pop
  pop-IsBounded i w at b =
      let (n, before, same) = b.heard in
      record {
        bound = b.bound;
        setters = λ j on. elim (Bool-cases (j == i)) [
          | inl same ↦ absurd (ground arith)
          | inr other ↦
              let kept : w.phase j ≡ setting = simp other at on in
              let less = b.setters j kept in ground arith
        ];
        heard = (n, ground arith, same);
      }

  leave-IsBounded : (i : ℕ) (w : Sync) → IsBounded stamps w → IsBounded stamps (leave i w)
  unfolding leave
  leave-IsBounded i w b = record {
    bound = b.bound;
    setters = λ j on. elim (at_place i j _ setting w.phase on) [
      | inl (same, other) ↦ absurd (ground arith)
      | inr before ↦ b.setters j before
    ];
    heard = b.heard;
  }

  kept_in_loop :
      (i : ℕ) (p : Phase) (phase : ℕ → Phase)
      → in_loop (phase i) ≡ true
      → ((k : ℕ) → in_loop (with_at i p phase k) ≡ true)
      → (j : ℕ) → in_loop (phase j) ≡ true
  kept_in_loop i p phase at after j = elim (Bool-cases (j == i)) [
    | inl same ↦ ground arith
    | inr other ↦ simp other at (after j)
  ]

  in_loop_before :
      {u v : Sync}
      → ((k : ℕ) → in_loop (v.phase k) ≡ true)
      → Step stamps loops u v
      → (j : ℕ) → in_loop (u.phase j) ≡ true
  unfolding test set_tsync close pop leave
  in_loop_before {u} after (tests i at) = kept_in_loop i _ u.phase (ap in_loop at) after
  in_loop_before {u} after (sets i at) = kept_in_loop i _ u.phase (ap in_loop at) after
  in_loop_before {u} after (pops i at) = kept_in_loop i _ u.phase (ap in_loop at) after
  in_loop_before {u} after (leaves i at) = kept_in_loop i _ u.phase (ap in_loop at) after
  in_loop_before {u} after (closes i at) = let gone = after i in absurd (ground arith)

  step-IsBounded :
      {u v : Sync}
      → ((k : ℕ) → in_loop (v.phase k) ≡ true)
      → IsBounded stamps u
      → Step stamps loops u v
      → IsBounded stamps v
  unfolding close
  step-IsBounded {u} after b (tests i at) = test-IsBounded i u b
  step-IsBounded {u} after b (sets i at) = set_tsync-IsBounded i u at b
  step-IsBounded {u} after b (pops i at) = pop-IsBounded i u at b
  step-IsBounded {u} after b (leaves i at) = leave-IsBounded i u b
  step-IsBounded {u} after b (closes i at) = let gone = after i in absurd (ground arith)

  Reach-IsBounded :
      {w : Sync}
      → ((k : ℕ) → in_loop (w.phase k) ≡ true)
      → Reach stamps loops (begun stamps) w
      → IsBounded stamps w
  Reach-IsBounded after here = record {
    bound = omega arith;
    setters = λ i at. absurd (ground arith);
    heard = (0, omega arith, refl);
  }
  Reach-IsBounded after (next reach step) =
      step-IsBounded after (Reach-IsBounded (in_loop_before after step) reach) step

  -- In whatever order the threads test and assign, while none of them is past its loop the time to
  -- sync with is the timestamp of a heap that the master thread got, and is not after the first
  -- timestamp of `run`.
  pub Reach-tsync :
      {w : Sync}
      → ((k : ℕ) → in_loop (w.phase k) ≡ true)
      → Reach stamps loops (begun stamps) w
      → ((n : ℕ) × (n ≤ w.heaps w.master_id) × (w.tsync ≡ stamps w.master_id n))
        × (w.tsync ≤ stamps 3 0)
  Reach-tsync after reach =
      let bounded = Reach-IsBounded after reach in (bounded.heard, bounded.bound)
