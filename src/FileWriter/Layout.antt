-- ===== src/FileWriter/Layout.antt =====
-- How the items of a group lie in the file.
use mathlib.Core.List.{append_assoc, append-nil}
use incoherent_beamformer.Common.{
  ℕ, ◌+◌, ◌%◌, ◌^◌, ◌<◌, ◌≡◌, refl, sym, ap, ◌∙◌, Bool, true, false, not, some, List, [], ◌∷◌, ◌++◌,
  arith, if◌then◌else◌, ◌==◌, ◌||◌, u64, Memory,
}
use incoherent_beamformer.FileWriter.{
  Item, Content, item_data, item_marker, FileAction, pwrite_at, FileProcess, write_data,
  write_marker, write_items,
}

-- An item with its data, all of which are written.
abbrev pub full : Memory → Item
full cells = record { i_data = some cells; i_data_len = cells.size }

abbrev pub fulls : List Memory → List Item
fulls [] = []
fulls (cells ∷ datas) = full cells ∷ fulls datas

-- No data is empty.
abbrev pub AreFull : List Memory → Type 0
AreFull [] = Unit
AreFull (cells ∷ datas) = (0 < cells.size) × AreFull datas

abbrev pub marker_len : Bool → ℕ
marker_len markers = if markers then 8 else 0

-- The bytes that the items take, each with its marker.
abbrev pub length_of : Bool → List Memory → ℕ
length_of markers [] = 0
length_of markers (cells ∷ datas) = cells.size + marker_len markers + length_of markers datas

-- The writes of the items, one after the other from `offset` on.
abbrev pub layout : ℕ → Bool → List Memory → ℕ → List FileAction
layout fd markers [] offset = []
layout fd markers (cells ∷ datas) offset =
    (pwrite_at fd (item_data cells cells.size) cells.size offset
      ∷ (if markers then pwrite_at fd item_marker 8 (offset + cells.size) ∷ [] else []))
    ++ layout fd markers datas (offset + cells.size + marker_len markers)

abbrev pub with_actions : FileProcess → List FileAction → FileProcess
with_actions p more = record p { actions = p.actions ++ more }

pub write_data_lem :
    (content : Content) (len offset : ℕ) (p : FileProcess)
    → 0 < len
    → 0 < p.w_fd2
    → write_data (some content) len offset p
      ≡ (true, with_actions p (pwrite_at p.w_fd2 content len offset ∷ []))
unfolding write_data
write_data_lem content len offset p h k =
    let there : (len == 0 || p.w_fd2 == 0) ≡ false = ground arith in rw there refl

none_added : (n : ℕ) → n ≡ n + 0
none_added n = omega arith

pub write_marker_lem :
    (marker : Content) (markers : Bool) (offset : ℕ) (p : FileProcess)
    → 0 < p.w_fd2
    → offset + 8 < 2 ^ 64
    → write_marker marker markers offset p ≡ (
      true,
      offset + marker_len markers,
      with_actions p (if markers then pwrite_at p.w_fd2 marker 8 offset ∷ [] else []),
    )
unfolding write_marker
write_marker_lem marker true offset p h k =
    let there : not (p.w_fd2 == 0) ≡ true = ground arith in
    let word : (offset + 8) % 2 ^ 64 ≡ offset + 8 = omega arith in
    rw (there, write_data_lem marker 8 offset p (omega arith) h, word) refl
write_marker_lem marker false offset p h k =
    ap {A = ℕ × FileProcess} (λ r. (true, r.0, r.1))
      (λ i. (none_added offset i, record p { actions = sym (append-nil p.actions) i }))

with_actions-append :
    (p : FileProcess) (a b : List FileAction)
    → with_actions (with_actions p a) b ≡ with_actions p (a ++ b)
with_actions-append p a b =
    ap (λ (more : List FileAction). record p { actions = more }) (append_assoc p.actions a b)

-- The items of a group, none of them empty, are all written, in order and without gaps, each
-- followed by its marker where markers are asked for; the offset after them is the next one.
pub write_items_lem :
    (markers : Bool) (datas : List Memory) (offset : ℕ) (p : FileProcess)
    → AreFull datas
    → 0 < p.w_fd2
    → offset + length_of markers datas + 8 < 2 ^ 64
    → write_items markers (fulls datas) offset p ≡ (
      true,
      offset + length_of markers datas,
      with_actions p (layout p.w_fd2 markers datas offset),
    )
unfolding write_items
write_items_lem markers [] offset p proper is_open word =
    ap {A = ℕ × FileProcess} (λ r. (true, r.0, r.1))
      (λ i. (none_added offset i, record p { actions = sym (append-nil p.actions) i }))
write_items_lem markers (cells ∷ datas) offset p proper is_open word =
    let item = pwrite_at p.w_fd2 (item_data cells cells.size) cells.size offset ∷ [] in
    let mark =
      (if markers then pwrite_at p.w_fd2 item_marker 8 (offset + cells.size) ∷ [] else []) in
    let p₁ = with_actions p item in
    let p₂ = with_actions p₁ mark in
    let next : u64 (offset + cells.size) ≡ offset + cells.size = omega arith in
    let rest =
      write_items_lem markers datas (offset + cells.size + marker_len markers) p₂ proper.1 is_open
        (omega arith) in
    let sum : offset + cells.size + marker_len markers + length_of markers datas
        ≡ offset + (cells.size + marker_len markers + length_of markers datas) =
      omega arith in
    let later = layout p.w_fd2 markers datas (offset + cells.size + marker_len markers) in
    let joined =
      ap (λ (q : FileProcess). with_actions q later) (with_actions-append p item mark)
      ∙ with_actions-append p (item ++ mark) later in
    rw
      (
        write_data_lem (item_data cells cells.size) cells.size offset p proper.0 is_open,
        next,
        write_marker_lem item_marker markers (offset + cells.size) p₁ is_open (omega arith),
        rest,
      )
      (λ i. (true, sum i, joined i))
