-- ===== src/HeadNode/Output.antt =====
-- The end of a round of `run` in dada_processing/beamform_head_node.cpp: a block is written to the file,
-- and a part of the ring `out` is zeroed. The ring is here the memory of its bytes.
pub mod Ends
mod Tests
use incoherent_beamformer.Common.{
  ℕ, zero, suc, ◌+◌, ◌*◌, ◌-◌, ◌/◌, ◌%◌, ◌^◌, ◌&&◌, Option, none, some, List, [], ◌∷◌, ◌++◌, ltb,
  leb, if◌then◌else◌, u64, sub64, Memory, memset, ◌>>=◌,
}
use incoherent_beamformer.HeadNode.Capture.{out_buffer_size}

-- A write of `len` bytes from a memory to an offset of the file.
pub record FileWrite : Type 0 where
  pub from : Memory
  pub len : ℕ
  pub offset : ℕ

pub record Output : Type 0 where
  pub read_head : ℕ
  pub out : Memory
  pub writes : List FileWrite

-- tsdiff2 * 67108864 / 536870912, with `tsdiff2` and the result as patterns of 64 bits; `none` is an
-- overflow of `int64_t`.
unfoldable pub scaled : ℕ → Option ℕ
scaled tsdiff2 =
    if ltb tsdiff2 (2 ^ 63)
    then if ltb (tsdiff2 * 67108864) (2 ^ 63) then some (tsdiff2 * 67108864 / 536870912) else none
    else if leb ((2 ^ 64 - tsdiff2) * 67108864) (2 ^ 63)
    then some (sub64 0 ((2 ^ 64 - tsdiff2) * 67108864 / 536870912))
    else none

-- sizeof(uint16_t) * 67108864
abbrev pub block_bytes : ℕ
block_bytes = 134217728

-- The block is written, and the ring is zeroed from the element `read_head % out_buffer_size` on, which
-- has two bytes.
unfoldable pub write_block : ℕ → Memory → Output → Option Output
write_block size accumulated o =
    memset o.out (2 * (o.read_head % out_buffer_size)) 0 size >>= λ out'. some (record {
      read_head = u64 (o.read_head + block_bytes);
      out = out';
      writes =
          o.writes ++ record { from = accumulated; len = block_bytes; offset = o.read_head } ∷ [];
    })

-- The end of a round, with the time since the first timestamp and the accumulated block.
unfoldable pub end_round : ℕ → ℕ → Memory → Output → Option Output
end_round num_vals tsdiff2 accumulated o = scaled tsdiff2 >>= λ q.
    let behind = sub64 q o.read_head in
    let limit = u64 (u64 (num_vals * 2) * 2) in
    if ltb limit behind then write_block (sub64 behind limit) accumulated o else some o

-- The ends of several rounds, with the number of values, the time and the block of each.
unfoldable pub end_rounds : List (ℕ × ℕ × Memory) → Output → Option Output
end_rounds [] o = some o
end_rounds ((num_vals, tsdiff2, accumulated) ∷ rest) o =
    end_round num_vals tsdiff2 accumulated o >>= end_rounds rest
