-- ===== src/SimpleWriter/Tests.antt =====
-- Tests of the example writer.
use Prim.Native.String.{String}
use text.Mathlib.Text.{◌==◌ as str_eq}
use incoherent_beamformer.Common.{
  ℕ, refl, true, Option, none, some, List, [], ◌∷◌, if◌then◌else◌, Memory,
}
use incoherent_beamformer.BlockHeader.{HeaderValue, AsciiHeader}
use incoherent_beamformer.BlockHeader.Fields.{IsMap}
use incoherent_beamformer.SimpleWriter.{Hdu}

abbrev Entries : Type 0
Entries = List (String × HeaderValue)

abbrev find : Entries → String → Option HeaderValue
find [] key = none
find ((k, value) ∷ rest) key = if str_eq key k then some value else find rest key

abbrev entries : AsciiHeader Entries
entries = record { set = λ h key value. (true, (key, value) ∷ h); get = find }

entries-IsMap : IsMap entries
entries-IsMap h key value other ok = refl

abbrev fresh : Hdu Entries
fresh = record { header = some []; next_header = some []; header_size = 4096; filled = [] }

abbrev sevens : ℕ → Memory
sevens n = record { size = n; cell = λ i. 7 }

abbrev zeros : ℕ → Memory
zeros n = record { size = n; cell = λ i. 0 }
