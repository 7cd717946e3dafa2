-- ===== src/ChildBeam.antt =====
-- `beamform` of dada_processing/dada_beamform.c, and of dada_processing/child_beam.c
-- `accumulate_and_beamform` and what the loop of `consume` does with its buffers. The arrays of
-- `int16_t` are memories of 16-bit patterns, the others are of bytes.
pub mod Sum
pub mod Delay
pub mod Ahead
pub mod Consume
pub mod Drain
mod Tests
use incoherent_beamformer.Common.{
  ℕ, zero, suc, Bool, true, false, ◌+◌, ◌-◌, ◌*◌, ◌/◌, ◌%◌, ◌^◌, Option, none, some, List, [], ◌∷◌,
  ◌&&◌, ltb, if◌then◌else◌, u64, sub64, wrap, Memory, stored, memcpy, ◌>>=◌,
}
use incoherent_beamformer.Accumulate.{in_array, accumulate}

-- beamformed[i] = acc1[i] + acc2[i], with `left` rounds left.
unfoldable pub sums : Memory → Memory → ℕ → ℕ → Memory → Option Memory
sums acc1 acc2 zero i beamformed = some beamformed
sums acc1 acc2 (suc left) i beamformed =
    if in_array acc1 i && in_array acc2 i && in_array beamformed i
    then sums acc1 acc2 left (i + 1) (stored beamformed i ((acc1.cell i + acc2.cell i) % 2 ^ 16))
    else none

unfoldable pub beamform : Memory → Memory → Memory → ℕ → Option Memory
beamform acc1 acc2 beamformed num_vals = sums acc1 acc2 num_vals 0 beamformed

-- malloc(n * sizeof(int16_t)), with the cells that it happens to have.
abbrev pub malloc : ℕ → (ℕ → ℕ) → Memory
malloc n cells = record { size = n; cell = cells }

-- `cells1` and `cells2` are the unknown cells of the new arrays.
unfoldable pub accumulate_and_beamform :
    (ℕ → ℕ) → (ℕ → ℕ) → Memory → Memory → Memory → ℕ → Option Memory
accumulate_and_beamform cells1 cells2 incoming1 incoming2 beamformed size =
    let num_out_vals = u64 (size * 2) / 256 in
    do
      (acc1, num_vals) ← accumulate incoming1 (malloc num_out_vals cells1) size
      (acc2, ignored) ← accumulate incoming2 (malloc num_out_vals cells2) size
      beamform acc1 acc2 beamformed (wrap 64 num_vals)

-- How the two streams are aligned: whether the first is the later one, so that it is delayed, and
-- the bytes between them. (`missalligned`, `buffer_allignment`)
unfoldable pub alignment : ℕ → ℕ → Bool × ℕ
alignment ts1 ts2 =
    if ltb ts2 ts1
    then (true, u64 (sub64 ts1 ts2 / 2048 * 8192))
    else (false, u64 (sub64 ts2 ts1 / 2048 * 8192))

-- memcpy (align_buffer + buffer_allignment, curbuf, curbufsz - buffer_allignment)
unfoldable pub fill_align_buffer : ℕ → ℕ → Memory → Memory → Option Memory
fill_align_buffer size buffer_allignment curbuf align_buffer =
    memcpy align_buffer buffer_allignment curbuf 0 (sub64 size buffer_allignment)

-- memcpy (align_buffer, curbuf + curbufsz - buffer_allignment, buffer_allignment)
unfoldable pub keep_tail : ℕ → ℕ → Memory → Memory → Option Memory
keep_tail size buffer_allignment curbuf align_buffer =
    memcpy align_buffer 0 curbuf (sub64 size buffer_allignment) buffer_allignment

-- A round of the loop of `consume` on the two blocks that were opened: the align buffer that it
-- leaves, and the beamformed values. Both blocks have `size` bytes.
unfoldable pub round :
    (ℕ → ℕ) → (ℕ → ℕ) → ℕ → ℕ → Memory → Memory → Memory → Memory → Option (Memory × Memory)
round cells1 cells2 size buffer_allignment alligned missalligned align_buffer beam = do
  filled ← fill_align_buffer size buffer_allignment missalligned align_buffer
  beam' ← accumulate_and_beamform cells1 cells2 alligned filled beam size
  align' ← keep_tail size buffer_allignment missalligned filled
  some (align', beam')

-- The rounds from a given align buffer on, with the beamformed values of each; the next round
-- writes over them.
unfoldable pub rounds :
    (ℕ → ℕ) → (ℕ → ℕ) → ℕ → ℕ → List (Memory × Memory) → Memory → Memory → Option (List Memory)
rounds cells1 cells2 size buffer_allignment [] align_buffer beam = some []
rounds cells1 cells2 size buffer_allignment ((alligned, missalligned) ∷ blocks) align_buffer beam =
    do
      (align', beam') ←
          round cells1 cells2 size buffer_allignment alligned missalligned align_buffer beam
      later ← rounds cells1 cells2 size buffer_allignment blocks align' beam'
      some (beam' ∷ later)
