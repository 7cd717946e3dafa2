-- ===== src/FileWriter/Slots.antt =====
-- Where the groups of successive calls go in the file.
use mathlib.Core.List.{append_assoc}
use incoherent_beamformer.Common.{
  ℕ, ◌+◌, ◌%◌, ◌^◌, ◌<◌, ◌≡◌, refl, ap, ◌∙◌, Bool, true, ◌&&◌, Option, some, List, [], ◌∷◌, ◌++◌,
  arith, if◌then◌else◌, ◌==◌, u64, pos, Memory, Bool-cases, inl, inr,
}
use incoherent_beamformer.FileWriter.{
  Item, packet_marker, pwrite_at, FileAction, FileShared, FileProcess, write_group, take_master,
  next_file, reserve, set_length, finish, spead_api_callback,
}
use incoherent_beamformer.FileWriter.Layout.{
  fulls, AreFull, length_of, marker_len, layout, with_actions, write_items_lem, write_marker_lem,
}

-- The bytes of a whole group.
abbrev pub group_len : Bool → List Memory → ℕ
group_len markers datas = length_of markers datas + marker_len markers

-- Where a group goes: at 0 if no group's length is known, else at the shared offset.
abbrev pub slot : FileShared → ℕ
slot ss = if ss.data_len == 0 then 0 else ss.offset

-- The writes of a whole group.
abbrev pub group_layout : ℕ → Bool → List Memory → ℕ → List FileAction
group_layout fd markers datas offset =
    layout fd markers datas offset
    ++ (if markers
        then pwrite_at fd packet_marker 8 (offset + length_of markers datas) ∷ []
        else [])

take_master_fields :
    (pid : ℕ) (ss : FileShared)
    → ((take_master pid ss).data_len ≡ ss.data_len)
      × ((take_master pid ss).offset ≡ ss.offset)
      × ((take_master pid ss).any_id ≡ ss.any_id)
      × ((take_master pid ss).with_markers ≡ ss.with_markers)
unfolding take_master
take_master_fields pid ss = elim (Bool-cases (ss.master_id == 0)) [
  | inl on ↦ simp on (refl, refl, refl, refl)
  | inr off ↦ simp off (refl, refl, refl, refl)
]

next_file_fd : (fd : ℕ) (ss : FileShared) (p : FileProcess) → 0 < fd → 0 < (next_file fd ss p).w_fd2
unfolding next_file
next_file_fd fd ss p h = elim (Bool-cases (p.w_fd2 == 0)) [
  | inl on ↦ simp on h
  | inr off ↦ elim (Bool-cases (ss.file_count == p.file_count)) [
    | inl same ↦ simp (off, same) (ground arith)
    | inr new ↦ simp (off, new) h
  ]
]

reserve_fields :
    (ss : FileShared) (p : FileProcess)
    → ((reserve ss p).0 ≡ slot ss)
      × ((reserve ss p).1.any_id ≡ ss.any_id)
      × ((reserve ss p).1.with_markers ≡ ss.with_markers)
      × ((reserve ss p).1.data_len ≡ ss.data_len)
      × ((reserve ss p).2.w_fd2 ≡ p.w_fd2)
      × ((reserve ss p).2.actions ≡ p.actions)
unfolding reserve
reserve_fields ss p = elim (Bool-cases (ss.data_len == 0)) [
  | inl on ↦ simp on (refl, refl, refl, refl, refl, refl)
  | inr off ↦ elim (Bool-cases (u64 (p.heap_cnt + 1) % 8000 == 0 && ss.master_id == p.pid)) [
    | inl new ↦ simp (off, new) (refl, refl, refl, refl, refl, refl)
    | inr same ↦ simp (off, same) (refl, refl, refl, refl, refl, refl)
  ]
]

set_length_fields :
    (n : ℕ) (ss : FileShared) (p : FileProcess)
    → ((set_length n ss p).0.data_len ≡ (if ss.data_len == 0 then n else ss.data_len))
      × ((set_length n ss p).0.offset ≡ (if ss.data_len == 0 then n else ss.offset))
      × ((set_length n ss p).1.actions ≡ p.actions)
unfolding set_length
set_length_fields n ss p = elim (Bool-cases (ss.data_len == 0)) [
  | inl on ↦ simp on (refl, refl, refl)
  | inr off ↦ simp off (refl, refl, refl)
]

slot_len :
    (a b : ℕ) (ss : FileShared) (at : ℕ)
    → at ≡ slot ss
    → (if ss.data_len == 0 then at + a + b else ss.data_len)
      ≡ (if ss.data_len == 0 then a + b else ss.data_len)
slot_len a b ss at h = ground arith

-- What a call leaves, and what it wrote.
pub record IsWritten (fd : ℕ) (datas : List Memory) (by_id : ℕ → Option Item) (ss : FileShared)
    (p : FileProcess) : Type 0 where
  pub ss' : FileShared
  pub p' : FileProcess
  pub returns : spead_api_callback fd (fulls datas) by_id (some ss) p ≡ some (ss', p', pos 0)
  pub writes :
      let ready = next_file fd (take_master p.pid ss) (record p { locked = true }) in
      p'.actions ≡ ready.actions ++ group_layout ready.w_fd2 ss.with_markers datas (slot ss)
  pub known :
      ss'.data_len ≡ (if ss.data_len == 0 then group_len ss.with_markers datas else ss.data_len)

-- A call with items none of which is empty, where all items are to be written and `open` returns a
-- descriptor other than 0, returns 0 without a fault. It writes the items one after the other from
-- the group's place on, each with its marker if markers are asked for, and at the end the marker of
-- a group. That place is 0 if no length is known, and then the length of this group becomes the
-- known one; else it is the shared offset. (No sum of lengths and offsets reaches 2 ^ 64.)
pub spead_api_callback-IsWritten :
    (fd : ℕ) (datas : List Memory) (by_id : ℕ → Option Item) (ss : FileShared) (p : FileProcess)
    → 0 < fd
    → ss.any_id ≡ true
    → AreFull datas
    → slot ss + length_of ss.with_markers datas + 8 < 2 ^ 64
    → IsWritten fd datas by_id ss p
unfolding spead_api_callback write_group finish
spead_api_callback-IsWritten fd datas by_id ss p is_open all proper word =
    let ss₁ = take_master p.pid ss in
    let (len, offset, any, marks) = take_master_fields p.pid ss in
    let p₁ = next_file fd ss₁ (record p { locked = true }) in
    let fd_pos = next_file_fd fd ss₁ (record p { locked = true }) is_open in
    let (place, any', marks', len', same_fd, same_actions) = reserve_fields ss₁ p₁ in
    let (at, ss₂, p₂) = reserve ss₁ p₁ in
    let at_slot : at ≡ slot ss =
      place
      ∙ ap (λ (n : ℕ). if n == 0 then 0 else ss₁.offset) len
      ∙ ap (λ (n : ℕ). if ss.data_len == 0 then 0 else n) offset in
    let markers = ss.with_markers in
    let same_marks : ss₂.with_markers ≡ markers = marks' ∙ marks in
    let all_items : ss₂.any_id ≡ true = any' ∙ any ∙ all in
    let items = write_items_lem markers datas at p₂ proper (omega arith) (omega arith) in
    let p₃ = with_actions p₂ (layout p₂.w_fd2 markers datas at) in
    let end = at + length_of markers datas in
    let marker = write_marker_lem packet_marker markers end p₃ (omega arith) (omega arith) in
    let p₄ =
      with_actions p₃ (if markers then pwrite_at p₂.w_fd2 packet_marker 8 end ∷ [] else []) in
    let (known, next, actions) = set_length_fields (end + marker_len markers) ss₂ p₄ in
    record {
      ss' = (set_length (end + marker_len markers) ss₂ p₄).0;
      p' = (set_length (end + marker_len markers) ss₂ p₄).1;
      returns = rw (all_items, same_marks, items, marker) refl;
      writes =
          actions
          ∙ append_assoc p₂.actions (layout p₂.w_fd2 markers datas at)
              (if markers then pwrite_at p₂.w_fd2 packet_marker 8 end ∷ [] else [])
          ∙ ap (λ (fs : List FileAction). fs ++ group_layout p₂.w_fd2 markers datas at) same_actions
          ∙ ap (λ (fd : ℕ). p₁.actions ++ group_layout fd markers datas at) same_fd
          ∙ ap (λ (n : ℕ). p₁.actions ++ group_layout p₁.w_fd2 markers datas n) at_slot;
      known =
          known
          ∙ ap (λ (n : ℕ). if n == 0 then end + marker_len markers else n) (len' ∙ len)
          ∙ slot_len (length_of markers datas) (marker_len markers) ss at at_slot;
    }
