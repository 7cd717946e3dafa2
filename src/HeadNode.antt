-- ===== src/HeadNode.antt =====
-- `bf_align` of dada_processing/beamform_head_node.cpp, which adds a block of beams to a ring, with
-- `beamform` of dada_processing/dada_beamform.c as it calls it, in place. Cells are 16-bit patterns;
-- a position that is not negative is a number of bytes.
pub mod Ring
pub mod Sync
pub mod Capture
pub mod Output
pub mod Reader
mod Tests
use incoherent_beamformer.Common.{
  ℕ, zero, suc, ◌+◌, ◌*◌, ◌/◌, ◌%◌, ◌^◌, ◌&&◌, Option, none, some, ltb, if◌then◌else◌, u64, sub64,
  Memory, stored, ◌>>=◌,
}

-- beamform (beam + from, align + at, align + at, n), with `left` rounds left; its counter `i` is an
-- `int`, whose overflow is a fault.
unfoldable pub add_into : Memory → ℕ → ℕ → ℕ → ℕ → Memory → Option Memory
add_into beam from at zero i align = some align
add_into beam from at (suc left) i align =
    if ltb (from + i) beam.size && ltb (at + i) align.size && ltb (i + 1) (2 ^ 31)
    then add_into beam from at left (i + 1)
        (stored align (at + i) ((beam.cell (from + i) + align.cell (at + i)) % 2 ^ 16))
    else none

unfoldable pub bf_align : Memory → Memory → ℕ → ℕ → ℕ → Option Memory
bf_align beam align num_vals pos align_size =
    if ltb (u64 (pos + u64 (num_vals * 2))) align_size
    then add_into beam 0 (pos / 2) num_vals 0 align
    else (let wrap = sub64 align_size pos / 2 in
        add_into beam 0 (pos / 2) wrap 0 align >>= λ align'.
        add_into beam wrap 0 (sub64 num_vals wrap) 0 align')
