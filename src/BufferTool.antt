-- ===== src/BufferTool.antt =====
-- The program dada_testing/dada_buffer.c, which creates and deletes a ring of DADA blocks, and
-- writes test data to it: its globals, its options and what it does by them. PSRDADA's functions on
-- a ring are an interface, `IpcBuf`.
pub mod Produce
pub mod Created
pub mod Waiting
pub mod Main
mod Tests
use Prim.Native.String.{String}
use incoherent_beamformer.Common.{
  ℕ, Bool, true, false, ◌&&◌, ◌||◌, Option, none, some, List, [], ◌∷◌, ◌==◌, if◌then◌else◌, ℤ, pos,
  negsuc, ltb_ℤ, wrap, signed, Memory, ◌>>=◌,
}

-- A result of `int` tells a failure by its sign. `get_next_write` and `get_next_read` give a block, with the number of
-- its bytes where it is read; `none` is a null pointer.
pub record IpcBuf {ℓ} (B : Type ℓ) : Type ℓ where
  pub create : B → ℕ → ℕ → ℕ → ℤ → B × ℤ
  pub connect : B → ℕ → B
  pub destroy : B → B
  pub lock : B → B × ℤ
  pub get_nbufs : B → ℕ
  pub get_nreaders : B → ℤ
  pub lock_write : B → B
  pub unlock_write : B → B
  pub is_writer : B → Bool
  pub mark_filled : B → ℕ → B
  pub get_next_write : B → B × Option Memory
  pub lock_read : B → B
  pub unlock_read : B → B
  pub mark_cleared : B → B
  pub get_next_read : B → B × Option Memory × ℕ

-- The globals; the default of each is 0. `num_readers` is an `int`.
pub record Globals : Type 0 where
  pub dada_key : ℕ
  pub num_readers : ℤ
  pub nbufs : ℕ
  pub bufsz : ℕ
  pub destroy : Bool
  pub lock : Bool
  pub consume_flag : Bool
  pub produce_flag : Bool

abbrev pub or_default : ℕ → ℕ → ℕ
or_default n default = if n == 0 then default else n

abbrev pub is_zero : ℤ → Bool
is_zero (pos n) = n == 0
is_zero (negsuc n) = false

-- What `create_buffer` makes of its arguments.
abbrev pub with_defaults : ℕ → ℤ → ℕ → ℕ → Globals → Globals
with_defaults d_k n_r nb bs g = record g {
  dada_key = or_default d_k 0x1234;
  num_readers = if is_zero n_r then pos 1 else n_r;
  nbufs = or_default nb 8;
  bufsz = or_default bs 3252;
}

-- The ring and the program's globals.
pub record Tool {ℓ} (B : Type ℓ) : Type ℓ where
  pub block : B
  pub globals : Globals

module _ {ℓ} {B : Type ℓ} (ipc : IpcBuf B) where
  unfoldable pub lock_buffer : Tool B → Tool B × ℤ
  lock_buffer t =
      let (b, failed) = ipc.lock t.block in
      (record t { block = b }, if ltb_ℤ failed (pos 0) then negsuc 0 else pos 0)

  -- After ipcbuf_create: the ring is locked into memory where the option says so.
  unfoldable pub created : Tool B → ℤ → Tool B × ℤ
  unfolding lock_buffer
  created t failed =
      if ltb_ℤ failed (pos 0)
      then (t, negsuc 0)
      else if t.globals.lock
      then lock_buffer t
      else (t, pos 0)

  unfoldable pub create_buffer : ℕ → ℤ → ℕ → ℕ → Tool B → Tool B × ℤ
  unfolding created
  create_buffer d_k n_r nb bs t =
      let g = with_defaults d_k n_r nb bs t.globals in
      let (b, failed) = ipc.create t.block g.dada_key g.nbufs g.bufsz g.num_readers in
      if ltb_ℤ g.num_readers (pos 1) || ltb_ℤ (pos 5) g.num_readers
      then (record t { globals = g }, negsuc 0)
      else created (record { block = b; globals = g }) failed

  -- The size of a block is not asked for: `bufsz` is 0 from here on.
  unfoldable pub connect_to_buffer : ℕ → Tool B → Tool B
  connect_to_buffer key t =
      let b = ipc.connect t.block key in
      record {
        block = b;
        globals = record (t.globals) {
          dada_key = key;
          num_readers = ipc.get_nreaders b;
          nbufs = ipc.get_nbufs b;
          bufsz = 0;
        };
      }

  unfoldable pub delete_buffer : Tool B → Tool B × ℤ
  delete_buffer t = (record t { block = ipc.destroy t.block }, pos 0)

  -- The number of bytes is returned as an `int`.
  unfoldable pub read_next_buf : B → B × Option Memory × ℤ
  read_next_buf b =
      let (b', out, read) = ipc.get_next_read (ipc.lock_read b) in
      (ipc.unlock_read (ipc.mark_cleared b'), out, signed 32 (wrap 32 (pos read)))

-- The options as getopt gives them, with the argument of those that take one.
pub data Arg : Type 0 where
  help destroy_arg lock_arg consume_arg produce_arg unknown : Arg
  key_arg nbufs_arg bufsz_arg readers_arg : String → Arg

-- How the options end: all are read, the help is shown, or a number cannot be read.
pub data Parsed : Type 0 where
  parsed : Globals → Parsed
  shown failed : Parsed

-- sscanf with %x, %llu and %d; `none` where it reads no number.
pub record Scanner : Type 0 where
  pub scan_hex : String → Option ℕ
  pub scan_unsigned : String → Option ℕ
  pub scan_int : String → Option ℤ

-- The options, in their order.
unfoldable pub options : Scanner → List Arg → Globals → Parsed
options sc [] g = parsed g
options sc (help ∷ rest) g = shown
options sc (destroy_arg ∷ rest) g = options sc rest (record g { destroy = true })
options sc (lock_arg ∷ rest) g = options sc rest (record g { lock = true })
options sc (consume_arg ∷ rest) g = options sc rest (record g { consume_flag = true })
options sc (produce_arg ∷ rest) g = options sc rest (record g { produce_flag = true })
options sc (unknown ∷ rest) g = options sc rest g
options sc (key_arg s ∷ rest) g = elim (sc.scan_hex s) [
  | none ↦ failed
  | some k ↦ options sc rest (record g { dada_key = k })
]
options sc (nbufs_arg s ∷ rest) g = elim (sc.scan_unsigned s) [
  | none ↦ failed
  | some n ↦ options sc rest (record g { nbufs = n })
]
options sc (bufsz_arg s ∷ rest) g = elim (sc.scan_unsigned s) [
  | none ↦ failed
  | some n ↦ options sc rest (record g { bufsz = n })
]
options sc (readers_arg s ∷ rest) g = elim (sc.scan_int s) [
  | none ↦ failed
  | some n ↦ options sc rest (record g { num_readers = n })
]
