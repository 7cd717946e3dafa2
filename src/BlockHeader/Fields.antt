-- ===== src/BlockHeader/Fields.antt =====
-- What the header of the first block holds.
use Prim.Native.String.{String}
use text.Mathlib.Text.{◌==◌ as str_eq}
use incoherent_beamformer.Common.{
  ℕ, ◌≡◌, refl, sym, ap, subst, ◌∙◌, true, Option, none, some, List, [], ◌∷◌, arith, if◌then◌else◌,
}
use incoherent_beamformer.BlockHeader.{
  HeaderValue, AsciiHeader, fields, set_fields, simple_writer_open,
}

-- After a successful `set`, `get` finds the value under its key, and the same under all others.
abbrev pub IsMap {ℓ} : {H : Type ℓ} → AsciiHeader H → Type ℓ
IsMap {H = H} a =
    (h : H) (key : String) (value : HeaderValue) (other : String)
    → (a.set h key value).0 ≡ true
    → a.get ((a.set h key value).1) other ≡ (if str_eq other key then some value else a.get h other)

-- No `set` runs out of room.
abbrev pub HasRoom {ℓ} : {H : Type ℓ} → AsciiHeader H → Type ℓ
HasRoom {H = H} a = (h : H) (key : String) (value : HeaderValue) → (a.set h key value).0 ≡ true

-- The last value listed for a key, or what there was before.
abbrev pub listed : List (String × HeaderValue) → String → Option HeaderValue → Option HeaderValue
listed [] key before = before
listed ((k, value) ∷ rest) key before =
    listed rest key (if str_eq key k then some value else before)

-- What dspsr requires of a header, by the comment in `simple_writer_open`.
abbrev pub required : List String
required =
    "TELESCOPE" ∷ "SOURCE" ∷ "CALFREQ" ∷ "FREQ" ∷ "BW" ∷ "NPOL" ∷ "NBIT" ∷ "NCHAN" ∷ "NDIM"
    ∷ "TSAMP" ∷ "UTC_START" ∷ "OBS_OFFSET" ∷ []

abbrev pub IsSome {ℓ} : {A : Type ℓ} → Option A → Type 0
IsSome none = ⊥
IsSome (some a) = Unit

module _ {ℓ} {H : Type ℓ} (a : AsciiHeader H) (m : IsMap a) (room : HasRoom a) where
  pub set_fields_lem :
      (fs : List (String × HeaderValue)) (h : H) (key : String)
      → a.get (set_fields a fs h) key ≡ listed fs key (a.get h key)
  unfolding set_fields
  set_fields_lem [] h key = refl
  set_fields_lem ((k, value) ∷ rest) h key =
      set_fields_lem rest ((a.set h k value).1) key
      ∙ ap (listed rest key) (m h k value key (room h k value))

abbrev pub All {ℓ} : {A : Type ℓ} → (A → Type 0) → List A → Type 0
All P [] = Unit
All P (x ∷ xs) = P x × All P xs

All-map {ℓ} :
    {A : Type ℓ} (P Q : A → Type 0) (xs : List A) → ((x : A) → P x → Q x) → All P xs → All Q xs
All-map P Q [] f h = tt
All-map P Q (x ∷ xs) f h = (f x h.0, All-map P Q xs f h.1)

-- Every required key is set, whatever was there before.
required-listed :
    (utc : String) (tsamp : ℕ) (before : String → Option HeaderValue)
    → All (λ key. IsSome (listed (fields utc tsamp) key (before key))) required
required-listed utc tsamp before = omega arith

-- The header that is marked filled for the first block: each key has the value that is listed last
-- for it, and all other keys what they had; all that dspsr requires is there. The header must take
-- all values and keep them by their keys.
pub simple_writer_open_lem {ℓ} :
    {H : Type ℓ} (a : AsciiHeader H) (utc : String) (tsamp header_size : ℕ) (header : H)
    → IsMap a
    → HasRoom a
    → (h : H) × (simple_writer_open a utc tsamp header_size (some header) ≡ some (h, header_size))
      × ((key : String) → a.get h key ≡ listed (fields utc tsamp) key (a.get header key))
      × All (λ key. IsSome (a.get h key)) required
unfolding simple_writer_open
simple_writer_open_lem a utc tsamp header_size header m room =
    let found = set_fields_lem a m room (fields utc tsamp) header in
    (
      set_fields a (fields utc tsamp) header,
      refl,
      found,
      All-map (λ key. IsSome (listed (fields utc tsamp) key (a.get header key)))
          (λ key. IsSome (a.get (set_fields a (fields utc tsamp) header) key)) required
          (λ key h. subst IsSome (sym (found key)) h) (required-listed utc tsamp (a.get header)),
    )
