-- ===== src/FileWriter.antt =====
-- The SPEAD callback of spead_callback/toFile.c, which writes item groups to a file, each at its own
-- offset. A write of bytes by `pwrite` is an event; its result only decides what is printed.
pub mod Layout
pub mod Calls
pub mod Slots
pub mod Begin
mod Tests
use incoherent_beamformer.Common.{
  ℕ, ◌+◌, ◌*◌, ◌%◌, ◌^◌, Bool, true, false, ◌&&◌, ◌||◌, not, Option, none, some, List, [], ◌∷◌,
  ◌++◌, ◌==◌, if◌then◌else◌, ℤ, pos, negsuc, u64, Memory, ◌>>=◌,
}

-- An item: where its data begin, `none` for a null pointer, and `i_data_len`.
pub record Item : Type 0 where
  pub i_data : Option Memory
  pub i_data_len : ℕ

-- What is written: an item's data, or one of the two markers.
pub data Content : Type 0 where
  item_data : Memory → ℕ → Content
  item_marker packet_marker : Content

pub data FileAction : Type 0 where
  close_file : ℕ → FileAction
  open_file : ℕ → ℕ → FileAction
  pwrite_at : (fd : ℕ) → Content → (len offset : ℕ) → FileAction

-- `struct snap_shot`; `any_id` says that `id` is -1, so that all items are written.
pub record FileShared : Type 0 where
  pub offset : ℕ
  pub data_len : ℕ
  pub any_id : Bool
  pub id : ℕ
  pub with_markers : Bool
  pub file_count : ℕ
  pub master_id : ℕ

-- The globals of a process, and whether it holds the lock of the SPEAD module. A descriptor of 0
-- is the null that the code compares with.
pub record FileProcess : Type 0 where
  pub pid : ℕ
  pub w_fd2 : ℕ
  pub heap_cnt : ℕ
  pub file_count : ℕ
  pub locked : Bool
  pub actions : List FileAction

-- The result of a step that can fail: the process, and whether to go on.
abbrev pub Outcome : Type 0
Outcome = Bool × FileProcess

abbrev pub act : FileAction → FileProcess → FileProcess
act a p = record p { actions = p.actions ++ a ∷ [] }

-- write_data, which is true where it returns 0: null or empty data, and no file, are errors.
unfoldable pub write_data : Option Content → ℕ → ℕ → FileProcess → Outcome
write_data none data_len offset p = (false, p)
write_data (some content) data_len offset p =
    if data_len == 0 || p.w_fd2 == 0
    then (false, p)
    else (true, act (pwrite_at p.w_fd2 content data_len offset) p)

abbrev pub content_of : Item → Option Content
content_of item = elim item.i_data [
  | none ↦ none
  | some cells ↦ some (item_data cells item.i_data_len)
]

-- A marker, where the settings ask for them and a file is open; with the offset after it.
unfoldable pub write_marker : Content → Bool → ℕ → FileProcess → Bool × ℕ × FileProcess
write_marker marker with_markers offset p =
    if with_markers && not (p.w_fd2 == 0)
    then (let (ok, p') = write_data (some marker) 8 offset p in (ok, u64 (offset + 8), p'))
    else (true, offset, p)

-- while ((itm = get_next_spead_item(ig, itm))), with the offset after the items.
unfoldable pub write_items : Bool → List Item → ℕ → FileProcess → Bool × ℕ × FileProcess
write_items with_markers [] local_offset p = (true, local_offset, p)
write_items with_markers (item ∷ items) local_offset p =
    let (ok, p₁) = write_data (content_of item) item.i_data_len local_offset p in
    let (ok', offset', p₂) =
      write_marker item_marker with_markers (u64 (local_offset + item.i_data_len)) p₁ in
    let rest = write_items with_markers items offset' p₂ in
    if ok then if ok' then rest else (false, offset', p₂) else (false, local_offset, p₁)

-- The data of one group: all items, or the one with the id. `none` is a null item's fault.
unfoldable pub write_group :
    FileShared → List Item → (ℕ → Option Item) → ℕ → FileProcess → Option (Bool × ℕ × FileProcess)
write_group ss items by_id local_offset p =
    if ss.any_id
    then some (write_items ss.with_markers items local_offset p)
    else (by_id ss.id >>= λ item.
        let (ok, p') = write_data (content_of item) item.i_data_len local_offset p in
        some (ok, u64 (local_offset + item.i_data_len), p'))

-- The first process to come becomes the master.
unfoldable pub take_master : ℕ → FileShared → FileShared
take_master pid ss = if ss.master_id == 0 then record ss { master_id = pid } else ss

-- A new file is opened at the first call and when the shared number of the file has changed.
-- `fd` is what `open` returns.
unfoldable pub next_file : ℕ → FileShared → FileProcess → FileProcess
next_file fd ss p =
    if p.w_fd2 == 0
    then act (open_file fd ss.file_count) (record p {
      w_fd2 = fd;
      file_count = if ss.master_id == p.pid then ss.file_count + 1 else ss.file_count;
    })
    else if ss.file_count == p.file_count
    then p
    else act (open_file fd ss.file_count)
        (act (close_file p.w_fd2) (record p { w_fd2 = fd; file_count = ss.file_count }))

-- Where this group goes, and the shared offset of the next one. `release` says that the length of
-- a group is not known yet: then the lock is kept until the group is written.
unfoldable pub reserve : FileShared → FileProcess → ℕ × FileShared × FileProcess
reserve ss p =
    let p₁ = record p { heap_cnt = u64 (p.heap_cnt + 1) } in
    if ss.data_len == 0
    then (0, ss, p₁)
    else if p₁.heap_cnt % 8000 == 0 && ss.master_id == p.pid
    then (
      ss.offset,
      record ss { file_count = ss.file_count + 1; offset = 0 },
      record p₁ { locked = false },
    )
    else (
      ss.offset,
      record ss { offset = u64 (ss.offset + ss.data_len) },
      record p₁ { locked = false },
    )

-- if (release)
unfoldable pub set_length : ℕ → FileShared → FileProcess → FileShared × FileProcess
set_length local_offset ss p =
    if ss.data_len == 0
    then (record ss { data_len = local_offset; offset = local_offset }, record p { locked = false })
    else (ss, p)

-- The shared data, the process and the return value.
unfoldable pub finish : FileShared → Bool × ℕ × FileProcess → FileShared × FileProcess × ℤ
finish ss (ok, local_offset, p) =
    let (ok', end, p₁) = write_marker packet_marker ss.with_markers local_offset p in
    let (ss', p₂) = set_length end ss p₁ in
    if not ok then (ss, p, negsuc 0) else if not ok' then (ss, p₁, negsuc 0) else (ss', p₂, pos 0)

-- The callback; `none` is a fault, as of the null pointer `ss`, which is read before it is tested.
unfoldable pub spead_api_callback :
    ℕ
    → List Item
    → (ℕ → Option Item)
    → Option FileShared
    → FileProcess
    → Option (FileShared × FileProcess × ℤ)
spead_api_callback fd items by_id shared p = shared >>= λ ss.
    let ss₁ = take_master p.pid ss in
    let (local_offset, ss₂, p₁) = reserve ss₁ (next_file fd ss₁ (record p { locked = true })) in
    write_group ss₂ items by_id local_offset p₁ >>= λ written. some (finish ss₂ written)
