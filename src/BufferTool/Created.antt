-- ===== src/BufferTool/Created.antt =====
-- What a ring that was created is like, and what becomes of the loops that `main` enters.
use incoherent_beamformer.Common.{
  ℕ, ◌<◌, ◌≤◌, ◌≡◌, refl, ap, sym, subst, ◌∙◌, Bool, true, false, ◌||◌, Option, none, some, List,
  inl, inr, Option-cases, if◌then◌else◌, ℤ, pos, negsuc, ltb_ℤ, signed, wrap, Memory, ◌>>=◌, arith,
}
use incoherent_beamformer.Hexdump.{Printed}
use incoherent_beamformer.BufferTool.{
  IpcBuf, Globals, Tool, or_default, with_defaults, lock_buffer, created, create_buffer,
  connect_to_buffer, Arg, Scanner, options, Parsed, parsed, shown, failed,
}
use incoherent_beamformer.BufferTool.Produce.{
  Producer, sprintf_test, remainder_256, with_block, roll, produce_round,
}
use incoherent_beamformer.BufferTool.Main.{
  Ended, exit, consuming, producing, show_block, act, by_options, main,
}

-- Globals of which PSRDADA can make a ring.
pub record IsUsable (g : Globals) : Type 0 where
  pub key : 0 < g.dada_key
  pub readers : (n : ℕ) × (g.num_readers ≡ pos n) × (1 ≤ n) × (n ≤ 5)
  pub blocks : 0 < g.nbufs
  pub bytes : 0 < g.bufsz

or_default-pos : (n d : ℕ) → 0 < d → 0 < or_default n d
or_default-pos n d h = ground arith

readers_lem :
    (r : ℤ)
    → (ltb_ℤ r (pos 1) || ltb_ℤ (pos 5) r) ≡ false
    → (n : ℕ) × (r ≡ pos n) × (1 ≤ n) × (n ≤ 5)
readers_lem (pos n) h = (n, refl, ground arith, ground arith)
readers_lem (negsuc n) h = absurd (ground arith)

-- The size of a block in the loops that `main` enters.
abbrev looping {ℓ} : {B : Type ℓ} → Ended B → ℕ
looping (exit t result) = 0
looping (consuming t) = t.globals.bufsz
looping (producing t) = t.globals.bufsz

-- A result of 0 comes from the branch that does not fail.
not_failed {ℓ} :
    {A : Type ℓ} (failure : Bool) (a : A) (b : A × ℤ)
    → (if failure then (a, negsuc 0) else b).1 ≡ pos 0
    → (failure ≡ false) × ((if failure then (a, negsuc 0) else b).0 ≡ b.0) × (b.1 ≡ pos 0)
not_failed true a b h = absurd (ground arith)
not_failed false a b h = (refl, refl, h)

module _ {ℓ} {B : Type ℓ} (ipc : IpcBuf B) where
  lock_option_globals :
      (t : Tool B) (b : Bool) → (if b then lock_buffer ipc t else (t, pos 0)).0.globals ≡ t.globals
  unfolding lock_buffer
  lock_option_globals t true = refl
  lock_option_globals t false = refl

  created_lem :
      (t : Tool B) (result : ℤ)
      → (created ipc t result).1 ≡ pos 0
      → (ltb_ℤ result (pos 0) ≡ false) × ((created ipc t result).0.globals ≡ t.globals)
  unfolding created lock_buffer
  created_lem t result h =
      let (made, same, rest) = not_failed (ltb_ℤ result (pos 0)) t _ h in
      (made, ap (λ (t' : Tool B). t'.globals) same ∙ lock_option_globals t t.globals.lock)

  -- `create_buffer` returns 0 only with globals of which a ring can be made, whatever its arguments,
  -- with a ring that PSRDADA was asked for with just these, and that it did not refuse.
  pub create_buffer_lem :
      (d_k : ℕ) (n_r : ℤ) (nb bs : ℕ) (t : Tool B)
      → (create_buffer ipc d_k n_r nb bs t).1 ≡ pos 0
      → (g : Globals) × IsUsable g
        × ((create_buffer ipc d_k n_r nb bs t).0.globals ≡ g)
        × (ltb_ℤ ((ipc.create t.block g.dada_key g.nbufs g.bufsz g.num_readers).1) (pos 0) ≡ false)
  unfolding create_buffer
  create_buffer_lem d_k n_r nb bs t success =
      let g = with_defaults d_k n_r nb bs t.globals in
      let (b, result) = ipc.create t.block g.dada_key g.nbufs g.bufsz g.num_readers in
      let (sensible, same, rest) =
        not_failed (ltb_ℤ g.num_readers (pos 1) || ltb_ℤ (pos 5) g.num_readers) _ _ success in
      let (made, kept) = created_lem (record { block = b; globals = g }) result rest in
      (
        g,
        record {
          key = or_default-pos d_k 0x1234 (omega arith);
          readers = readers_lem g.num_readers sensible;
          blocks = or_default-pos nb 8 (omega arith);
          bytes = or_default-pos bs 3252 (omega arith);
        },
        ap (λ (t' : Tool B). t'.globals) same ∙ kept,
        made,
      )

  if-looping :
      (b : Bool) (x y : Ended B) → looping x ≡ 0 → looping y ≡ 0 → looping (if b then x else y) ≡ 0
  if-looping true x y h k = h
  if-looping false x y h k = k

  act-looping : (t : Tool B) → looping (act ipc t) ≡ 0
  unfolding act connect_to_buffer
  act-looping t =
      let g = t.globals in
      let made = (create_buffer ipc g.dada_key g.num_readers g.nbufs g.bufsz t).0 in
      if-looping t.globals.destroy _ _ refl (
        if-looping t.globals.consume_flag _ _ refl (
          if-looping t.globals.produce_flag _ _ refl (
            if-looping made.globals.lock (exit ((lock_buffer ipc made).0) (pos 0))
              (exit made (pos 0)) refl refl)))

  by_options-looping : (t : Tool B) (o : Parsed) → looping (by_options ipc t o) ≡ 0
  unfolding by_options
  by_options-looping t (parsed g) = act-looping (record t { globals = g })
  by_options-looping t shown = refl
  by_options-looping t failed = refl

  main-looping : (sc : Scanner) (args : List Arg) (t : Tool B) → looping (main ipc sc args t) ≡ 0
  unfolding main
  main-looping sc args t = by_options-looping t (options sc args t.globals)

  produce_round-zero : (fuel : ℕ) (num : ℤ) (p : Producer B) → produce_round ipc fuel 0 num p ≡ none
  unfolding produce_round
  produce_round-zero fuel num p = elim (Option-cases (sprintf_test (remainder_256 num))) [
    | inl no_text ↦ simp no_text refl
    | inr (text, fits) ↦ elim (Option-cases ((roll ipc 0 (with_block ipc p.buf p)).buf)) [
      | inl null ↦ simp (fits, null) refl
      | inr (m, there) ↦ simp (fits, there) refl
    ]
  ]

  -- Whatever the options say, also of the size of a block: where `main` goes on to write test data to a
  -- ring, it does so with a size of 0, and any round of the loop of `produce` faults, since it divides by
  -- that size if not before, so that no text is ever written.
  pub main-producing :
      (sc : Scanner) (args : List Arg) (t t' : Tool B) (fuel : ℕ) (num : ℤ) (p : Producer B)
      → main ipc sc args t ≡ producing t'
      → produce_round ipc fuel t'.globals.bufsz num p ≡ none
  main-producing sc args t t' fuel num p enters =
      let no_size : 0 ≡ t'.globals.bufsz = sym (main-looping sc args t) ∙ ap looping enters in
      subst (λ (n : ℕ). produce_round ipc fuel n num p ≡ none) no_size
        (produce_round-zero fuel num p)

  -- What a round makes of what ipcbuf_get_next_read returns.
  abbrev round_of : B × Option Memory × ℕ → Option (B × List Printed)
  round_of (b', out, read) =
      show_block ipc out (wrap 64 (signed 32 (wrap 32 (pos read)))) >>= λ shown_bytes.
      some (ipc.unlock_read (ipc.mark_cleared b'), shown_bytes)
