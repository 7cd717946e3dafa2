-- ===== src/HeadNode/Reader.antt =====
-- What a round of `run` in dada_processing/beamform_head_node.cpp reads: blocks of its own DADA buffer,
-- which it accumulates and adds to the ring. The ring and the accumulated values have cells of 16 bits.
pub mod Each
mod Tests
use incoherent_beamformer.Common.{
  ℕ, ◌+◌, ◌*◌, ◌/◌, ◌&&◌, ◌||◌, Bool, true, false, Option, none, some, List, [], ◌∷◌, ◌++◌,
  if◌then◌else◌, sub64, wrap, Memory, ◌>>=◌,
}
use incoherent_beamformer.Accumulate.{accumulate}
use incoherent_beamformer.ChildBeam.{malloc}
use incoherent_beamformer.HeadNode.{bf_align}
use incoherent_beamformer.HeadNode.Capture.{out_buffer_size, position, is_positive, Reading}

-- The block that is open, with its time; the last values and their number; the blocks that are still to
-- come with their timestamps; and what was written to `tsync`, the oldest first.
pub record Reader : Type 0 where
  pub first_ts : ℕ
  pub ts2 : ℕ
  pub tsdiff2 : ℕ
  pub block : Memory
  pub ring : Memory
  pub accumulated : Memory
  pub num_vals : ℕ
  pub stream : List (ℕ × Memory)
  pub published : List ℕ

-- `waiting` is that PSRDADA has no further block.
pub data Progress : Type 0 where
  going waiting : Reader → Progress
  crashed : Progress

abbrev pub and_on : Progress → (Reader → Progress) → Progress
and_on (going c) f = f c
and_on (waiting c) f = waiting c
and_on crashed f = crashed

-- The block that is closed, and the next one with its timestamp.
abbrev pub advance : Reader → List (ℕ × Memory) → Progress
advance c [] = waiting c
advance c ((ts, block) ∷ rest) =
    going (record c { ts2 = ts; tsdiff2 = sub64 ts c.first_ts; block = block; stream = rest })

-- A block has `size` bytes; `cells` are those of the new array for its values.
module _ (cells : ℕ → ℕ) (size : ℕ) where
  -- The ring with a block added, its values and their number.
  unfoldable pub add_block : ℕ → Memory → Memory → Option (Memory × Memory × ℕ)
  add_block tsdiff2 block ring = do
    pos1 ← position tsdiff2
    (values, n) ← accumulate block (malloc 67108864 cells) size
    ring' ← bf_align values ring (wrap 64 n) pos1 (out_buffer_size / 2)
    some (ring', values, wrap 64 n)

  abbrev pub with_added : Reader → Option (Memory × Memory × ℕ) → Progress
  with_added c none = crashed
  with_added c (some (ring, values, n)) =
      advance (record c { ring = ring; accumulated = values; num_vals = n }) c.stream

  unfoldable pub read_block : Reader → Progress
  read_block c = with_added c (add_block c.tsdiff2 c.block c.ring)

  abbrev pub read_if : Bool → Reader → Progress
  read_if true c = read_block c
  read_if false c = going c

  -- A block is read if the thread is behind or the master, and one more if it is still behind.
  unfoldable pub round : Reading → Reader → Progress
  round r c =
      let c₀ = record c { accumulated = malloc 67108864 cells } in
      and_on (read_if (is_positive (sub64 r.tsync c₀.ts2) || r.is_master) c₀) (λ c₁.
        and_on (read_if (is_positive (sub64 r.tsync c₁.ts2)) c₁) (λ c₂.
          going
            (if r.still_master then record c₂ { published = c₂.published ++ c₂.ts2 ∷ [] } else c₂)))

  unfoldable pub rounds : List Reading → Reader → Progress
  rounds [] c = going c
  rounds (r ∷ readings) c = and_on (round r c) (rounds readings)
