-- ===== src/BlockHeader.antt =====
-- The headers of DADA blocks: `simple_writer_open` and `set_timestamp_header` of
-- spead_callback/to_buffer.c, which write them, and `initial_header` and `get_timestamp` of
-- dada_processing/dada_beamform.c, which read them. The library's functions on a header are an
-- interface, `AsciiHeader`; a value is what they are given or return, before it is printed as text.
pub mod Fields
mod Tests
use Prim.Native.String.{String}
use incoherent_beamformer.Common.{
  ℕ, Bool, Option, none, some, List, [], ◌∷◌, ℤ, pos, if◌then◌else◌, ◌>>=◌,
}

-- By their formats: %s, %d, %llu and %f, a float as its pattern.
pub data HeaderValue : Type 0 where
  text : String → HeaderValue
  number : ℤ → HeaderValue
  unsigned : ℕ → HeaderValue
  float : ℕ → HeaderValue

-- `set` is ascii_header_set, with whether it succeeds and the header that it leaves; `get` is
-- ascii_header_get, `none` where it finds no value of the key.
pub record AsciiHeader {ℓ} (H : Type ℓ) : Type ℓ where
  pub set : H → String → HeaderValue → Bool × H
  pub get : H → String → Option HeaderValue

-- The values that `simple_writer_open` sets, in its order: `utc` is the start time as text, and
-- `tsamp` the float 0.000256 * 1000000.
abbrev pub fields : String → ℕ → List (String × HeaderValue)
fields utc tsamp =
    ("UTC_START", text utc)
    ∷ ("HDR_SIZE", number (pos 4096))
    ∷ ("RA", text "04:37:15.883250")
    ∷ ("DEC", text "-47:15:09.31863")
    ∷ ("TSAMP", float tsamp)
    ∷ ("TELESCOPE", text "KAT7")
    ∷ ("INSTRUMENT", text "KPSR")
    ∷ ("SOURCE", text "PLACEHOLDER")
    ∷ ("CALFREQ", text "PLACEHOLDER")
    ∷ ("FREQ", text "PLACEHOLDER")
    ∷ ("BANDWIDTH", text "PLACEHOLDER")
    ∷ ("NPOL", number (pos 1))
    ∷ ("NBIT", number (pos 8))
    ∷ ("NCHAN", number (pos 1024))
    ∷ ("NDIM", number (pos 2))
    ∷ ("BYTES_PER_SECOND", number (pos 973640000))
    ∷ ("BW", text "PLACEHOLDER")
    ∷ ("OBS_OFFSET", number (pos 0))
    ∷ ("RESOLUTION", number (pos 1))
    ∷ []

-- What a variable holds after ascii_header_get with %s or %llu: its old value where nothing is found.
abbrev pub scan_text : String → Option HeaderValue → String
scan_text before (some (text t)) = t
scan_text before _ = before

abbrev pub scan_unsigned : ℕ → Option HeaderValue → ℕ
scan_unsigned before (some (unsigned n)) = n
scan_unsigned before _ = before

module _ {ℓ} {H : Type ℓ} (a : AsciiHeader H) where
  -- One value after the other; a failure is only reported.
  unfoldable pub set_fields : List (String × HeaderValue) → H → H
  set_fields [] h = h
  set_fields ((key, value) ∷ rest) h = set_fields rest ((a.set h key value).1)

  -- `next` is the header that ipcbuf_get_next_write returns, and the result the one that is marked
  -- filled, with the size that it is marked with. `none` is a null header, which is reported and
  -- then written to all the same.
  unfoldable pub simple_writer_open : String → ℕ → ℕ → Option H → Option (H × ℕ)
  simple_writer_open utc tsamp header_size next =
      next >>= λ header. some (set_fields (fields utc tsamp) header, header_size)

  unfoldable pub set_timestamp_header : ℕ → ℕ → Option H → Option (H × ℕ)
  set_timestamp_header ts header_size next =
      next >>= λ header. some ((a.set header "TS" (unsigned ts)).1, header_size)

  -- The start time that is printed; `before` is what the variable held.
  unfoldable pub initial_header : String → H → String
  initial_header before header = scan_text before (a.get header "UTC_START")

  -- The timestamp of a header; where there is none, what the variable held.
  unfoldable pub get_timestamp : ℕ → H → ℕ
  get_timestamp before header = scan_unsigned before (a.get header "TS")
