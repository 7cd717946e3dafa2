-- ===== src/FileWriter/Begin/Tests.antt =====
-- A first group in memory that was not 0.
use Prim.Native.String.{String}
use incoherent_beamformer.Common.{refl, Option, none, ℤ, pos, arith}
use incoherent_beamformer.FileWriter.Tests.{two_items, idle, no_id, second_call}
use incoherent_beamformer.FileWriter.Begin.{fresh_shared}
use incoherent_beamformer.FileWriter.Begin.First.{IsFirst, set_up-IsFirst}

abbrev no_settings : String → Option String
no_settings name = none

abbrev reads_nothing : String → ℤ
reads_nothing text = pos 0

set_up-IsFirst_example : IsFirst no_settings reads_nothing 5 two_items no_id second_call idle
unfolding fresh_shared
set_up-IsFirst_example =
    set_up-IsFirst no_settings reads_nothing 5 two_items no_id second_call idle (omega arith) refl
      refl (omega arith, (omega arith, tt)) (omega arith)
