-- ===== src/FileWriter/Calls.antt =====
-- Whole calls of the file writer's callback.
use mathlib.Core.Option.{some-injective}
use incoherent_beamformer.Common.{
  ℕ, ◌+◌, ◌%◌, Option-cases, ◌≡◌, refl, sym, ap, ◌∙◌, Bool, true, false, ◌&&◌, not, Option, none,
  some, List, [], ◌∷◌, arith, ◌==◌, ◌||◌, u64, ◌⊎◌, ℤ, pos, negsuc, Bool-cases, inl, inr,
}
use incoherent_beamformer.FileWriter.{
  Item, Content, item_marker, packet_marker, content_of, FileShared, FileProcess, write_data,
  write_marker, write_items, write_group, take_master, next_file, reserve, set_length, finish,
  spead_api_callback,
}

abbrev pub is_error : ℤ → Bool
is_error (pos n) = false
is_error (negsuc n) = true

write_data_locked :
    (content : Option Content) (len offset : ℕ) (p : FileProcess)
    → (write_data content len offset p).1.locked ≡ p.locked
unfolding write_data
write_data_locked none len offset p = refl
write_data_locked (some content) len offset p = elim (Bool-cases (len == 0 || p.w_fd2 == 0)) [
  | inl on ↦ simp on refl
  | inr off ↦ simp off refl
]

write_marker_locked :
    (marker : Content) (markers : Bool) (offset : ℕ) (p : FileProcess)
    → (write_marker marker markers offset p).2.locked ≡ p.locked
unfolding write_marker
write_marker_locked marker markers offset p = elim (Bool-cases (markers && not (p.w_fd2 == 0))) [
  | inl on ↦ simp on (write_data_locked (some marker) 8 offset p)
  | inr off ↦ simp off refl
]

write_items_locked :
    (markers : Bool) (items : List Item) (offset : ℕ) (p : FileProcess)
    → (write_items markers items offset p).2.locked ≡ p.locked
unfolding write_items
write_items_locked markers [] offset p = refl
write_items_locked markers (item ∷ items) offset p =
    let first = write_data (content_of item) item.i_data_len offset p in
    let marked = write_marker item_marker markers (u64 (offset + item.i_data_len)) first.1 in
    let kept = write_data_locked (content_of item) item.i_data_len offset p in
    let kept' = write_marker_locked item_marker markers (u64 (offset + item.i_data_len)) first.1 in
    elim (Bool-cases first.0) [
      | inr failed ↦ simp failed kept
      | inl written ↦ elim (Bool-cases marked.0) [
        | inr failed ↦ simp (written, failed) (kept' ∙ kept)
        | inl ok ↦
            simp (written, ok) (write_items_locked markers items marked.1 marked.2 ∙ kept' ∙ kept)
      ]
    ]

-- A group's writes fault, or leave the lock as it was.
write_group_cases :
    (ss : FileShared) (items : List Item) (by_id : ℕ → Option Item) (offset : ℕ) (p : FileProcess)
    → (write_group ss items by_id offset p ≡ none)
      ⊎ ((r : Bool × ℕ × FileProcess) × (write_group ss items by_id offset p ≡ some r)
          × (r.2.locked ≡ p.locked))
unfolding write_group
write_group_cases ss items by_id offset p = elim (Bool-cases ss.any_id) [
  | inl all ↦ simp all (
      inr (
        write_items ss.with_markers items offset p,
        refl,
        write_items_locked ss.with_markers items offset p,
      ))
  | inr one ↦ elim (Option-cases (by_id ss.id)) [
    | inl missing ↦ simp (one, missing) (inl refl)
    | inr (item, found) ↦
        simp (one, found)
          (inr (_, refl, write_data_locked (content_of item) item.i_data_len offset p))
  ]
]

take_master_len : (pid : ℕ) (ss : FileShared) → (take_master pid ss).data_len ≡ ss.data_len
unfolding take_master
take_master_len pid ss = elim (Bool-cases (ss.master_id == 0)) [
  | inl on ↦ simp on refl
  | inr off ↦ simp off refl
]

next_file_locked :
    (fd : ℕ) (ss : FileShared) (p : FileProcess) → (next_file fd ss p).locked ≡ p.locked
unfolding next_file
next_file_locked fd ss p = elim (Bool-cases (p.w_fd2 == 0)) [
  | inl on ↦ simp on refl
  | inr off ↦ elim (Bool-cases (ss.file_count == p.file_count)) [
    | inl same ↦ simp (off, same) refl
    | inr new ↦ simp (off, new) refl
  ]
]

reserve_locked :
    (ss : FileShared) (p : FileProcess)
    → p.locked ≡ true
    → ((reserve ss p).2.locked ≡ (ss.data_len == 0)) × ((reserve ss p).1.data_len ≡ ss.data_len)
unfolding reserve
reserve_locked ss p h = elim (Bool-cases (ss.data_len == 0)) [
  | inl on ↦ simp on (h, refl)
  | inr off ↦ elim (Bool-cases (u64 (p.heap_cnt + 1) % 8000 == 0 && ss.master_id == p.pid)) [
    | inl new ↦ simp (off, new) (refl, refl)
    | inr same ↦ simp (off, same) (refl, refl)
  ]
]

finish_locked :
    (ss : FileShared) (w : Bool × ℕ × FileProcess)
    → w.2.locked ≡ (ss.data_len == 0)
    → (finish ss w).1.locked ≡ (is_error (finish ss w).2 && ss.data_len == 0)
unfolding finish set_length
finish_locked ss (ok, offset, p) h =
    let marked = write_marker packet_marker ss.with_markers offset p in
    let kept = write_marker_locked packet_marker ss.with_markers offset p in
    elim (Bool-cases ok) [
      | inr failed ↦ simp failed h
      | inl written ↦ elim (Bool-cases marked.0) [
        | inr failed ↦ simp (written, failed) (kept ∙ h)
        | inl ended ↦ elim (Bool-cases (ss.data_len == 0)) [
          | inl on ↦ simp (written, ended, on) refl
          | inr off ↦ simp (written, ended, off) (kept ∙ h ∙ off)
        ]
      ]
    ]

-- A call that does not fault returns without the lock of the module, but for one case, in which it
-- still holds it: the length of a group was not known yet, and the call returns -1.
pub spead_api_callback_locked :
    (fd : ℕ) (items : List Item) (by_id : ℕ → Option Item) (ss ss' : FileShared)
    (p p' : FileProcess) (r : ℤ)
    → spead_api_callback fd items by_id (some ss) p ≡ some (ss', p', r)
    → p'.locked ≡ (is_error r && ss.data_len == 0)
unfolding spead_api_callback
spead_api_callback_locked fd items by_id ss ss' p p' r h =
    let ss₁ = take_master p.pid ss in
    let p₁ = next_file fd ss₁ (record p { locked = true }) in
    let (locked, len) =
      reserve_locked ss₁ p₁ (next_file_locked fd ss₁ (record p { locked = true })) in
    let (offset, ss₂, p₂) = reserve ss₁ p₁ in
    elim (write_group_cases ss₂ items by_id offset p₂) [
      | inl faults ↦ let none_is_some = rw faults at h in absurd (ground arith)
      | inr (w, runs, kept) ↦
          let same = some-injective (finish ss₂ w) (ss', p', r) (rw runs at h) in
          let first_len = len ∙ take_master_len p.pid ss in
          let unknown = kept ∙ locked ∙ ap (λ (n : ℕ). n == 0) (sym len) in
          sym (ap (λ (x : FileShared × FileProcess × ℤ). x.1.locked) same)
          ∙ finish_locked ss₂ w unknown
          ∙ ap (λ (x : FileShared × FileProcess × ℤ). is_error x.2 && ss₂.data_len == 0) same
          ∙ ap (λ (n : ℕ). is_error r && n == 0) first_len
    ]
