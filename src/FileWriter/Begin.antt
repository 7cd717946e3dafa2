-- ===== src/FileWriter/Begin.antt =====
-- The beginning and the end of the file writer, spead_callback/toFile.c: its settings are kept in the
-- shared data. The path, of which only the name of the file is made, is left out.
pub mod First
mod Tests
use Prim.Native.String.{String}
use incoherent_beamformer.Common.{
  ℕ, zero, suc, Bool, true, false, Option, none, some, List, [], ◌∷◌, ℤ, pos, negsuc, wrap,
}
use incoherent_beamformer.FileWriter.{FileShared, FileProcess, act, close_file}

-- id == -1
abbrev pub is_any : ℤ → Bool
is_any (pos n) = false
is_any (negsuc zero) = true
is_any (negsuc (suc n)) = false

module _ (getenv : String → Option String) (atoi : String → ℤ) where
  -- New shared data: the offset and the length of a group keep what their memory held.
  unfoldable pub fresh_shared : FileShared → FileShared
  fresh_shared raw =
      let id : ℤ = elim (getenv "SAVEID") [ none ↦ negsuc 0 | some s ↦ atoi s ] in
      record raw {
        any_id = is_any id;
        id = wrap 32 id;
        with_markers = elim (getenv "WITHMARKERS") [ none ↦ false | some s ↦ true ];
        master_id = 0;
        file_count = 0;
      }

  -- `raw` is what shared_malloc returns. Where it is null, setup returns at once.
  unfoldable pub set_up :
      Option FileShared → Option FileShared → FileProcess → Option FileShared × FileProcess
  set_up none none p = (none, p)
  set_up none (some raw) p = (some (fresh_shared raw), record p { heap_cnt = 0; file_count = 0 })
  set_up (some ss) raw p = (some ss, record p { heap_cnt = 0; file_count = 0 })

-- The shared data is freed, and the process closes its file.
unfoldable pub destroy : Option FileShared → FileProcess → Option FileShared × FileProcess
destroy shared p = (none, act (close_file p.w_fd2) p)
