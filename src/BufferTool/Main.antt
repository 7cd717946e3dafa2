-- ===== src/BufferTool/Main.antt =====
-- `consume` and `main` of dada_testing/dada_buffer.c: a ring is deleted, read, written to or created,
-- by the options.
use incoherent_beamformer.Common.{
  ℕ, Option, none, some, List, ◌==◌, leb, if◌then◌else◌, ℤ, pos, negsuc, wrap, Memory, ◌>>=◌,
}
use incoherent_beamformer.Hexdump.{Printed, hexdump}
use incoherent_beamformer.BufferTool.{
  IpcBuf, Tool, lock_buffer, create_buffer, connect_to_buffer, delete_buffer, read_next_buf, Arg,
  Parsed, parsed, shown, failed, Scanner, options,
}

-- How the program ends, with its result, or the loop that it enters, which never ends.
pub data Ended {ℓ} (B : Type ℓ) : Type ℓ where
  exit : Tool B → ℤ → Ended B
  consuming producing : Tool B → Ended B

module _ {ℓ} {B : Type ℓ} (ipc : IpcBuf B) where
  -- hexdump(read, num_read, 16); `none` is a read out of range.
  unfoldable pub show_block : Option Memory → ℕ → Option (List Printed)
  show_block none n = if n == 0 then some (hexdump (λ i. 0) 0 16) else none
  show_block (some m) n = if leb n m.size then some (hexdump m.cell n 16) else none

  -- One round. The number of bytes goes through an `int`, and its test for a failure is on an
  -- unsigned number, so it never holds.
  unfoldable pub consume_round : B → Option (B × List Printed)
  consume_round b =
      let (b', read, num_read) = read_next_buf ipc b in
      show_block read (wrap 64 num_read) >>= λ out. some (b', out)

  -- With the options read.
  unfoldable pub act : Tool B → Ended B
  act t =
      let connected = connect_to_buffer ipc t.globals.dada_key t in
      let made =
        (create_buffer ipc t.globals.dada_key t.globals.num_readers t.globals.nbufs t.globals.bufsz
          t).0 in
      if t.globals.destroy
      then exit ((delete_buffer ipc connected).0) (pos 0)
      else if t.globals.consume_flag
      then consuming connected
      else if t.globals.produce_flag
      then producing connected
      else if made.globals.lock
      then exit ((lock_buffer ipc made).0) (pos 0)
      else exit made (pos 0)

  unfoldable pub by_options : Tool B → Parsed → Ended B
  by_options t (parsed g) = act (record t { globals = g })
  by_options t shown = exit t (pos 0)
  by_options t failed = exit t (negsuc 0)

  unfoldable pub main : Scanner → List Arg → Tool B → Ended B
  main sc args t = by_options t (options sc args t.globals)
