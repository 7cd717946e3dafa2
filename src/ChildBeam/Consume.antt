-- ===== src/ChildBeam/Consume.antt =====
-- The loop of `consume` in dada_processing/child_beam.c: it aligns both streams once, and hands the
-- beamformed values of every two blocks to the SPEAD library in a heap. Its pointers to the align buffer
-- and the beam are declared in the loop and set in its first round only: what they hold in a later round
-- is open, and a parameter.
pub mod Sent
pub mod Aligned
pub mod Text
mod Tests
use incoherent_beamformer.Common.{
  ℕ, zero, suc, ◌+◌, ◌*◌, ◌/◌, ◌%◌, ◌^◌, Bool, true, false, Option, none, some, List, [], ◌∷◌, ◌++◌,
  ltb, leb, ◌==◌, if◌then◌else◌, u64, Memory, ◌>>=◌,
}
use incoherent_beamformer.ChildBeam.{malloc, alignment, round}

-- What a heap points at when it is handed to `async_send_heap`: the timestamp of the aligned stream, and
-- the values with their number. The library may read them later, up to the next call of `flush`, when the
-- next round has written new ones over them.
pub record HandedHeap : Type 0 where
  pub ts : ℕ
  pub num_vals : ℕ
  pub values : Memory

-- What a round reads: both timestamps, if they are looked at, both blocks, and the timestamp of the aligned
-- stream at its end.
pub record Turn : Type 0 where
  pub ts1 : ℕ
  pub ts2 : ℕ
  pub block1 : Memory
  pub block2 : Memory
  pub ts : ℕ

-- `buffer_allignment` is 13 before the streams are aligned; `late_first` says that the first stream is the
-- one to be delayed. Then the align buffer and the beam of the last round, once there are any, and what
-- was handed over.
pub record Consumer : Type 0 where
  pub buffer_allignment : ℕ
  pub late_first : Bool
  pub buffers : Option (Memory × Memory)
  pub handed : List HandedHeap

unfoldable pub align : Turn → Consumer → Consumer
align t c =
    if c.buffer_allignment == 13
    then record c {
      late_first = (alignment t.ts1 t.ts2).0;
      buffer_allignment = (alignment t.ts1 t.ts2).1;
    }
    else c

-- *alligned and *missalligned
abbrev pub pick : Bool → Turn → Memory × Memory
pick true t = (t.block2, t.block1)
pick false t = (t.block1, t.block2)

abbrev pub num_out_vals : ℕ → ℕ
num_out_vals size = u64 (size * 2) / 256

-- What the pointers of a later round hold, by the buffers of the round before; `none` is no buffer.
abbrev pub Stack : Type 0
Stack = Memory × Memory → Option (Memory × Memory)

-- The first round makes the buffers; `cells` are those of the new beam.
abbrev pub make_buffers : Stack → (ℕ → ℕ) → ℕ → Option (Memory × Memory) → Option (Memory × Memory)
make_buffers stack cells size none =
    some (record { size = size; cell = λ i. 0 }, malloc (num_out_vals size) cells)
make_buffers stack cells size (some buffers) = stack buffers

-- The number of decimal digits of a number below 10 ^ (left + 1).
unfoldable pub digits : ℕ → ℕ → ℕ
digits zero n = 1
digits (suc left) n = if ltb n 10 then 1 else suc (digits left (n / 10))

-- sprintf(buffer, "{'shape': (%llu), 'fortran_order': False, 'descr': 'i2'}", num_out_vals) with 52
-- characters, the digits and the null character, in a buffer of 64; a longer text is a fault.
unfoldable pub text_fits : ℕ → Bool
text_fits n = leb (52 + digits 19 n + 1) 64

abbrev pub send_heap : Turn → ℕ → Consumer → Memory × Memory → Option Consumer
send_heap t n c (align_buffer, beam) =
    if text_fits n
    then some (record c {
      buffers = some (align_buffer, beam);
      handed = c.handed ++ record { ts = t.ts; num_vals = n; values = beam } ∷ [];
    })
    else none

module _ (stack : Stack) (cells cells1 cells2 : ℕ → ℕ) (size : ℕ) where
  -- A round of the loop; both blocks have `size` bytes.
  unfoldable pub consume_round : Turn → Consumer → Option Consumer
  consume_round t c =
      let c₁ = align t c in
      let blocks = pick c₁.late_first t in
      make_buffers stack cells size c₁.buffers >>= λ buffers.
      round cells1 cells2 size c₁.buffer_allignment blocks.0 blocks.1 buffers.0 buffers.1
      >>= λ made. send_heap t (num_out_vals size) c₁ made

  unfoldable pub consume : List Turn → Consumer → Option Consumer
  consume [] c = some c
  consume (t ∷ turns) c = consume_round t c >>= consume turns

abbrev pub unaligned : Consumer
unaligned = record { buffer_allignment = 13; late_first = false; buffers = none; handed = [] }
