-- ===== src/SimpleWriter.antt =====
-- The example writer, Dada_writer/dada_simple_writer.c: its header and its blocks. It looks for the
-- next header block, but sets its values in the header of the `dada_hdu_t`.
pub mod Open
mod Tests
use Prim.Native.String.{String}
use incoherent_beamformer.Common.{
  ℕ, Bool, true, false, Option, none, some, List, [], ◌∷◌, ℤ, pos, negsuc, if◌then◌else◌, Memory,
  memcpy, ◌>>=◌,
}
use incoherent_beamformer.BlockHeader.{HeaderValue, text, float, AsciiHeader}

-- `header` is `hdu->header`, `next_header` what ipcbuf_get_next_write returns, `filled` the headers
-- marked filled with their sizes; `none` is a null pointer.
pub record Hdu {ℓ} (H : Type ℓ) : Type ℓ where
  pub header : Option H
  pub next_header : Option H
  pub header_size : ℕ
  pub filled : List (H × ℕ)

-- `tsamp` is the float 0.005.
abbrev pub simple_fields : ℕ → List (String × HeaderValue)
simple_fields tsamp =
    ("RA", text "04:37:15.883250") ∷ ("DEC", text "-47:15:09.31863") ∷ ("TSAMP", float tsamp) ∷ []

module _ {ℓ} {H : Type ℓ} (a : AsciiHeader H) where
  -- Values are set until one fails, with whether none did.
  unfoldable pub set_until_failure : List (String × HeaderValue) → H → Bool × H
  set_until_failure [] h = (true, h)
  set_until_failure ((key, value) ∷ rest) h =
      let (ok, h') = a.set h key value in
      let later = set_until_failure rest h' in if ok then later else (false, h')

  -- The return value; `none` is a fault, values set in a null header.
  unfoldable pub simple_writer_open : ℕ → Hdu H → Option (Hdu H × ℤ)
  simple_writer_open tsamp hdu = elim hdu.next_header [
    | none ↦ some (hdu, negsuc 0)
    | some block ↦ hdu.header >>= λ h.
        let (ok, h') = set_until_failure (simple_fields tsamp) h in
        let hdu' = record hdu { header = some h' } in
        some (
          if ok
          then (record hdu' { filled = (block, hdu.header_size) ∷ hdu.filled }, pos 0)
          else (hdu', negsuc 0))
  ]

-- The block that ipcio_open_block_write returned, with the input in it; its size is that of the
-- memory. `none` is a copy out of range.
unfoldable pub simple_writer_write : Option Memory → Memory → ℕ → Option (Option Memory × ℤ)
simple_writer_write none input block_size = some (none, negsuc 0)
simple_writer_write (some block) input block_size =
    memcpy block 0 input 0 block_size >>= λ block'. some (some block', pos 0)
