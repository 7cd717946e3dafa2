-- ===== src/HeadNode/Output/Ends.antt =====
-- What is written in many rounds, and how many blocks can be.
use incoherent_beamformer.Common.{
  ℕ, ◌+◌, ◌*◌, ◌%◌, ◌≡◌, ◌<◌, ◌≤◌, refl, subst, Bool-cases, Option-cases, inl, inr, some, List, [],
  ◌∷◌, ◌++◌, ltb, leb, length, length-append, filled, u64, sub64, Memory, memset, arith,
}
use mathlib.Core.Option.{some-injective}
use incoherent_beamformer.HeadNode.Capture.{out_buffer_size}
use incoherent_beamformer.HeadNode.Output.{
  FileWrite, Output, scaled, block_bytes, write_block, end_round, end_rounds,
}

-- The blocks stand one after the other from `at` on.
abbrev pub AreConsecutive : ℕ → List FileWrite → Type 0
AreConsecutive at [] = Unit
AreConsecutive at (w ∷ writes) =
    (w.offset ≡ at) × (w.len ≡ block_bytes) × AreConsecutive (at + block_bytes) writes

AreConsecutive-append :
    (at : ℕ) (writes : List FileWrite) (w : FileWrite)
    → AreConsecutive at writes
    → w.offset ≡ at + length writes * block_bytes
    → w.len ≡ block_bytes
    → AreConsecutive at (writes ++ w ∷ [])
AreConsecutive-append at [] w before place len = (omega arith, len, tt)
AreConsecutive-append at (v ∷ writes) w (here, size, before) place len =
    (here, size, AreConsecutive-append (at + block_bytes) writes w before (omega arith) len)

pub record IsWritten (o : Output) : Type 0 where
  pub head : o.read_head ≡ length o.writes * block_bytes
  pub size : o.out.size ≡ out_buffer_size
  pub few : length o.writes ≤ 5
  pub blocks : AreConsecutive 0 o.writes

-- The state after a block.
abbrev after_block : ℕ → Memory → Output → Output
after_block n accumulated o = record {
  read_head = u64 (o.read_head + block_bytes);
  out = filled o.out (2 * (o.read_head % out_buffer_size)) 0 n;
  writes = o.writes ++ record { from = accumulated; len = block_bytes; offset = o.read_head } ∷ [];
}

write_block_inside :
    (n : ℕ) (accumulated : Memory) (o o' : Output)
    → write_block n accumulated o ≡ some o'
    → (2 * (o.read_head % out_buffer_size) + n ≤ o.out.size) × (after_block n accumulated o ≡ o')
unfolding write_block memset
write_block_inside n accumulated o o' h =
    elim (Bool-cases (leb (2 * (o.read_head % out_buffer_size) + n) o.out.size)) [
      | inl inside ↦ (ground arith, some-injective _ _ (simp inside at h))
      | inr beyond ↦ absurd (ground arith)
    ]

after_block-IsWritten :
    (n : ℕ) (accumulated : Memory) (o : Output)
    → 0 < n
    → 2 * (o.read_head % out_buffer_size) + n ≤ o.out.size
    → IsWritten o
    → IsWritten (after_block n accumulated o)
after_block-IsWritten n accumulated o pos inside written =
    let head = written.head in
    let size = written.size in
    let few = written.few in
    let more : length (after_block n accumulated o).writes ≡ length o.writes + 1 =
      length-append o.writes _ in
    record {
      head = omega arith;
      size = size;
      few = omega arith;
      blocks = AreConsecutive-append 0 o.writes _ written.blocks (omega arith) refl;
    }

end_round-IsWritten :
    (num_vals tsdiff2 : ℕ) (accumulated : Memory) (o o' : Output)
    → end_round num_vals tsdiff2 accumulated o ≡ some o'
    → IsWritten o
    → IsWritten o'
unfolding end_round
end_round-IsWritten num_vals tsdiff2 accumulated o o' h written =
    elim (Option-cases (scaled tsdiff2)) [
      | inl over ↦ absurd (ground arith)
      | inr (q, is_q) ↦
          let behind = sub64 q o.read_head in
          let limit = u64 (u64 (num_vals * 2) * 2) in
          elim (Bool-cases (ltb limit behind)) [
            | inl on ↦
                let size = sub64 behind limit in
                let pos : 0 < size = ground arith in
                let (inside, same) =
                  write_block_inside size accumulated o o' (simp (is_q, on) at h) in
                subst IsWritten same (after_block-IsWritten size accumulated o pos inside written)
            | inr off ↦ subst IsWritten (some-injective _ _ (simp (is_q, off) at h)) written
          ]
    ]

rounds-IsWritten :
    (rounds : List (ℕ × ℕ × Memory)) (o o' : Output)
    → end_rounds rounds o ≡ some o'
    → IsWritten o
    → IsWritten o'
unfolding end_rounds
rounds-IsWritten [] o o' h written = subst IsWritten (some-injective _ _ h) written
rounds-IsWritten ((num_vals, tsdiff2, accumulated) ∷ rest) o o' h written =
    elim (Option-cases (end_round num_vals tsdiff2 accumulated o)) [
      | inl fault ↦ absurd (ground arith)
      | inr (o₁, ran) ↦
          rounds-IsWritten rest o₁ o' (simp ran at h)
            (end_round-IsWritten num_vals tsdiff2 accumulated o o₁ ran written)
    ]

-- At its start `run` has written nothing.
abbrev pub at_start : Memory → Output
at_start out = record { read_head = 0; out = out; writes = [] }

-- As long as the rounds of `run` zero nothing beyond its ring, the blocks that they write stand one
-- after the other in the file, and there are at most five of them: a sixth would zero the ring beyond
-- its end.
pub end_rounds_lem :
    (out : Memory) (rounds : List (ℕ × ℕ × Memory)) (o : Output)
    → out.size ≡ out_buffer_size
    → end_rounds rounds (at_start out) ≡ some o
    → AreConsecutive 0 o.writes × (length o.writes ≤ 5)
end_rounds_lem out rounds o size runs =
    let written =
      rounds-IsWritten rounds (at_start out) o runs
        (record { head = omega arith; size = size; few = omega arith; blocks = tt }) in
    (written.blocks, written.few)
