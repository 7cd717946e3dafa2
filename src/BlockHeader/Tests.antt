-- ===== src/BlockHeader/Tests.antt =====
-- Tests of the headers, with a header as the list of what was set, the last first.
use Prim.Native.String.{String}
use package.text.Mathlib.Text.{◌==◌ as str_eq}
use incoherent_beamformer.Common.{
  ℕ, ◌≡◌, refl, true, Option, none, some, List, [], ◌∷◌, if◌then◌else◌,
}
use incoherent_beamformer.BlockHeader.{
  HeaderValue, AsciiHeader, set_timestamp_header, get_timestamp,
}
use incoherent_beamformer.BlockHeader.Fields.{IsMap, HasRoom}

abbrev Entries : Type 0
Entries = List (String × HeaderValue)

abbrev find : Entries → String → Option HeaderValue
find [] key = none
find ((k, value) ∷ rest) key = if str_eq key k then some value else find rest key

abbrev entries : AsciiHeader Entries
entries = record { set = λ h key value. (true, (key, value) ∷ h); get = find }

entries-IsMap : IsMap entries
entries-IsMap h key value other ok = refl

entries-HasRoom : HasRoom entries
entries-HasRoom h key value = refl

-- A reader gets the timestamp that was set for the block.
abbrev or_empty : Option (Entries × ℕ) → Entries
or_empty none = []
or_empty (some (h, size)) = h

read_again :
    get_timestamp entries 7 (or_empty (set_timestamp_header entries 8192 4096 (some []))) ≡ 8192
unfolding get_timestamp set_timestamp_header
read_again = refl
