-- ===== src/FileWriter/Begin/First.antt =====
-- The first group of a file.
use Prim.Native.String.{String}
use mathlib.Core.List.{append_assoc}
use incoherent_beamformer.Common.{
  ℕ, ◌+◌, ◌^◌, ◌<◌, ◌≡◌, refl, ap, ◌∙◌, true, Option, none, some, List, [], ◌∷◌, ◌++◌, ◌==◌,
  if◌then◌else◌, ℤ, pos, Memory, arith,
}
use incoherent_beamformer.FileWriter.{
  Item, open_file, FileShared, FileProcess, take_master, next_file, spead_api_callback,
}
use incoherent_beamformer.FileWriter.Layout.{fulls, AreFull, length_of}
use incoherent_beamformer.FileWriter.Slots.{
  group_len, slot, group_layout, spead_api_callback-IsWritten,
}
use incoherent_beamformer.FileWriter.Begin.{fresh_shared, set_up}

-- What the first call after setup leaves.
pub record IsFirst (getenv : String → Option String) (atoi : String → ℤ) (fd : ℕ)
    (datas : List Memory) (by_id : ℕ → Option Item) (raw : FileShared) (p : FileProcess)
    : Type 0 where
  pub ss' : FileShared
  pub p' : FileProcess
  pub returns :
      spead_api_callback fd
        (fulls datas)
        by_id
        (set_up getenv atoi none (some raw) p).0
        (set_up getenv atoi none (some raw) p).1
      ≡ some (ss', p', pos 0)
  pub writes :
      p'.actions
      ≡ p.actions
        ++ open_file fd 0
          ∷ group_layout fd (fresh_shared getenv atoi raw).with_markers datas (slot raw)
  pub known : ss'.data_len ≡ (
      if raw.data_len == 0
      then group_len (fresh_shared getenv atoi raw).with_markers datas
      else raw.data_len)

opened_first :
    (fd : ℕ) (ss : FileShared) (p : FileProcess)
    → p.w_fd2 ≡ 0
    → ss.file_count ≡ 0
    → ((next_file fd (take_master p.pid ss) (record p { locked = true })).actions
        ≡ p.actions ++ open_file fd 0 ∷ [])
      × ((next_file fd (take_master p.pid ss) (record p { locked = true })).w_fd2 ≡ fd)
unfolding next_file take_master
opened_first fd ss p closed first = ground arith

-- The first group after setup in new memory, written by a process that has no file open, opens file 0
-- and goes to the place that the new memory gives: 0 if its length of a group is 0, else its offset.
-- Neither is set by setup. (All items are to be written and none is empty, `open` returns a descriptor
-- other than 0, and no sum of lengths and offsets reaches 2 ^ 64.)
pub set_up-IsFirst :
    (getenv : String → Option String) (atoi : String → ℤ) (fd : ℕ) (datas : List Memory)
    (by_id : ℕ → Option Item) (raw : FileShared) (p : FileProcess)
    → 0 < fd
    → p.w_fd2 ≡ 0
    → getenv "SAVEID" ≡ none
    → AreFull datas
    → slot raw + length_of (fresh_shared getenv atoi raw).with_markers datas + 8 < 2 ^ 64
    → IsFirst getenv atoi fd datas by_id raw p
unfolding set_up fresh_shared
set_up-IsFirst getenv atoi fd datas by_id raw p is_open closed unset all word =
    let ss = fresh_shared getenv atoi raw in
    let q : FileProcess = record p { heap_cnt = 0; file_count = 0 } in
    let any : ss.any_id ≡ true = simp unset refl in
    let written = spead_api_callback-IsWritten fd datas by_id ss q is_open any all word in
    let (opens, descriptor) = opened_first fd ss q closed refl in
    record {
      ss' = written.ss';
      p' = written.p';
      returns = written.returns;
      writes =
          written.writes
          ∙ ap
              (λ a.
                a
                ++ group_layout
                    (next_file fd (take_master q.pid ss) (record q { locked = true })).w_fd2
                    ss.with_markers datas (slot ss))
              opens
          ∙ ap
              (λ n.
                (p.actions ++ open_file fd 0 ∷ [])
                ++ group_layout n ss.with_markers datas (slot ss))
              descriptor
          ∙ append_assoc p.actions (open_file fd 0 ∷ []) _;
      known = written.known;
    }
