-- ===== src/BufferTool/Produce.antt =====
-- `produce` of dada_testing/dada_buffer.c: texts of eight bytes, one after the other, in blocks
-- that are marked as filled when the next text does not fit.
use incoherent_beamformer.Common.{
  ℕ, zero, suc, ◌+◌, ◌*◌, ◌/◌, ◌%◌, Option, none, some, List, [], ◌∷◌, ◌++◌, ltb, leb,
  if◌then◌else◌, ℤ, pos, negsuc, sub_ℕ, u64, Memory, memcpy, ◌>>=◌,
}
use incoherent_beamformer.BufferTool.{IpcBuf}

-- The local variables of `produce`, and the blocks that it has marked as filled with the number of
-- bytes, the oldest first.
pub record Producer {ℓ} (B : Type ℓ) : Type ℓ where
  pub block : B
  pub buf : Option Memory
  pub i : ℕ
  pub filled : List (Option Memory × ℕ)

-- A string in the memory that malloc returned for it.
abbrev pub char_at : List ℕ → ℕ → ℕ
char_at [] i = 0
char_at (c ∷ rest) zero = c
char_at (c ∷ rest) (suc i) = char_at rest i

abbrev pub digit : ℕ → ℕ
digit n = 48 + n % 10

-- num % 256, with the sign of `num`.
unfoldable pub remainder_256 : ℤ → ℤ
remainder_256 (pos n) = pos (n % 256)
remainder_256 (negsuc n) = sub_ℕ 0 ((n + 1) % 256)

-- sprintf with "test%03d" of a number of at most three digits, into eight bytes. `none` is a write
-- past them, which the sign makes before three digits.
unfoldable pub sprintf_test : ℤ → Option Memory
sprintf_test (pos n) = some (record {
  size = 8;
  cell = char_at (116 ∷ 101 ∷ 115 ∷ 116 ∷ digit (n / 100) ∷ digit (n / 10) ∷ digit n ∷ 0 ∷ []);
})
sprintf_test (negsuc n) =
    if leb n 98
    then some (record {
      size = 8;
      cell = char_at (116 ∷ 101 ∷ 115 ∷ 116 ∷ 45 ∷ digit ((n + 1) / 10) ∷ digit (n + 1) ∷ 0 ∷ []);
    })
    else none

-- The remainder, which faults at zero.
abbrev pub rem : ℕ → ℕ → Option ℕ
rem n zero = none
rem n (suc m) = some (n % suc m)

module _ {ℓ} {B : Type ℓ} (ipc : IpcBuf B) where
  unfoldable pub mark_filled : B → ℕ → B
  mark_filled b n = ipc.unlock_write (ipc.mark_filled (ipc.lock_write b) n)

  unfoldable pub get_next_buf : B → B × Option Memory
  get_next_buf b =
      let (b', new_buf) = ipc.get_next_write (ipc.lock_write b) in (ipc.unlock_write b', new_buf)

  unfoldable pub mark_filled_and_get_next_buf : B → ℕ → B × Option Memory
  mark_filled_and_get_next_buf b n =
      let (b', new_buf) = ipc.get_next_write (ipc.mark_filled (ipc.lock_write b) n) in
      (ipc.unlock_write b', new_buf)

  -- The loop of `write_to_buf` until the process is the writer; `fuel` bounds its rounds.
  unfoldable pub wait_writer : ℕ → B → Option B
  wait_writer zero b = if ipc.is_writer b then some b else none
  wait_writer (suc fuel) b =
      let later = wait_writer fuel (ipc.lock_write b) in if ipc.is_writer b then some b else later

  -- `none` is also a copy out of range. What it returns is the number of bytes.
  unfoldable pub write_to_buf : ℕ → B → Memory → ℕ → Memory → ℕ → Option (B × Memory)
  write_to_buf fuel b buffer off text size = do
    b' ← wait_writer fuel b
    buffer' ← memcpy buffer off text 0 size
    some (ipc.unlock_write b', buffer')

  abbrev pub next_block : Producer B → Producer B
  next_block p = record p { block = (get_next_buf p.block).0; buf = (get_next_buf p.block).1 }

  -- if (!buf) buf = get_next_buf(data_block);
  unfoldable pub with_block : Option Memory → Producer B → Producer B
  with_block none p = next_block p
  with_block (some m) p = p

  -- The block is marked as filled up to the last text, where no other fits.
  unfoldable pub roll : ℕ → Producer B → Producer B
  roll bufsz p =
      if ltb bufsz (u64 (8 * p.i + 8))
      then record (next_block (record p {
        block = mark_filled p.block (8 * p.i);
        filled = p.filled ++ (p.buf, 8 * p.i) ∷ [];
      })) { i = 0 }
      else p

  -- One round; `num` is what its variable happens to hold, since the inner one is never set.
  unfoldable pub produce_round : ℕ → ℕ → ℤ → Producer B → Option (Producer B)
  produce_round fuel bufsz num p =
      let p' = roll bufsz (with_block p.buf p) in
      do
        input ← sprintf_test (remainder_256 num)
        buffer ← p'.buf
        off ← rem (8 * p'.i) bufsz
        (b, buffer') ← write_to_buf fuel p'.block buffer off input 8
        some (record p' { block = b; buf = some buffer'; i = p'.i + 1 })

  -- Some rounds, by what the variable holds in each.
  unfoldable pub produce : ℕ → ℕ → List ℤ → Producer B → Option (Producer B)
  produce fuel bufsz [] p = some p
  produce fuel bufsz (num ∷ rest) p =
      produce_round fuel bufsz num p >>= λ p'. produce fuel bufsz rest p'
