-- ===== src/PulseDetector/Scan.antt =====
-- What `check_pulse` finds, writes and counts.
use mathlib.Core.List.{append_assoc, append-nil}
use incoherent_beamformer.Common.{
  ℕ, zero, suc, ◌+◌, ◌*◌, ◌^◌, ◌≤◌, ◌<◌, ◌≡◌, refl, sym, ap, ◌∙◌, Bool, true, ◌&&◌, some, List, [],
  ◌∷◌, ◌++◌, arith, ltb, leb, ◌==◌, if◌then◌else◌, ℤ, pos, negsuc, ltb_ℤ, not, u64, Memory,
  Bool-cases, inl, inr,
}
use incoherent_beamformer.PulseDetector.{
  PulseSettings, FileEvent, pwrite, AddToFloat, Detector, is_pulse, save_power, counted, update,
  scan, check_pulse,
}
use incoherent_beamformer.PulseDetector.Power.{power, IsReadable, total_power_lem}

-- A power is not below the threshold.
abbrev pub reaches : ℤ → ℕ → Bool
reaches threshold p = not (ltb_ℤ (pos p) threshold)

is_pulse-reaches : (threshold : ℤ) (p : ℕ) → is_pulse threshold p ≡ reaches threshold p
unfolding is_pulse
is_pulse-reaches (pos t) p = ground arith
is_pulse-reaches (negsuc t) p = ground arith

-- The last of the first `n` spectra with a pulse, looked for from the end.
abbrev pub last_pulse : PulseSettings → Memory → ℕ → ℤ
last_pulse s heap zero = negsuc 0
last_pulse s heap (suc n) =
    if reaches s.threshold (power s heap n) then pos n else last_pulse s heap n

-- The powers of `left` spectra from `i` on, each at its own place in the file.
abbrev pub power_writes : PulseSettings → Memory → ℕ → ℕ → ℕ → ℕ → List FileEvent
power_writes s heap offset fd i zero = []
power_writes s heap offset fd i (suc left) =
    pwrite fd (power s heap i) 4 (u64 (4 * u64 (offset + i)))
    ∷ power_writes s heap offset fd (suc i) left

abbrev pub saved : PulseSettings → Memory → ℕ → ℕ → ℕ → ℕ → List FileEvent
saved s heap offset fd i left = if s.save_t_p then power_writes s heap offset fd i left else []

module _ (s : PulseSettings) (add : AddToFloat) (heap : Memory) (offset : ℕ)
    (r : IsReadable s heap) where
  abbrev stepped : ℕ → Detector → Detector
  stepped i d = counted add (power s heap i) (save_power s (u64 (offset + i)) (power s heap i) d)

  abbrev scanned : ℕ → ℕ → Detector → Detector
  scanned zero i d = d
  scanned (suc left) i d = scanned left (suc i) (stepped i d)

  update_lem :
      (i : ℕ) (d : Detector)
      → d.count + 1 < 2 ^ 31
      → (update add (power s heap i) (save_power s (u64 (offset + i)) (power s heap i) d)
          ≡ some (stepped i d))
        × ((stepped i d).count ≡ d.count + 1)
  unfolding update save_power counted
  update_lem i d h = ground arith

  scan_lem :
      (left i : ℕ) (d : Detector)
      → i + left ≤ s.ts_per_heap
      → d.count + left < 2 ^ 31
      → scan s add heap offset left i (last_pulse s heap i) d
        ≡ some (last_pulse s heap (i + left), scanned left i d)
  unfolding scan
  scan_lem zero i d h few = ap (λ (n : ℕ). some (last_pulse s heap n, d)) (omega arith)
  scan_lem (suc left) i d h few =
      let (updated, count) = update_lem i d (omega arith) in
      let next : i + 1 ≡ suc i = omega arith in
      let end : i + suc left ≡ suc i + left = omega arith in
      rw
        (
          total_power_lem s heap i r (omega arith),
          is_pulse-reaches s.threshold (power s heap i),
          updated,
          next,
          end,
        )
        (scan_lem left (suc i) (stepped i d) (omega arith) (omega (arith, count)))

  counted_files :
      (p : ℕ) (d : Detector)
      → ((counted add p d).files ≡ d.files)
        × ((counted add p d).t_p_f ≡ d.t_p_f)
        × ((counted add p d).w_fd2 ≡ d.w_fd2)
  unfolding counted
  counted_files p d = elim (Bool-cases (d.count == 0)) [
    | inl first ↦ rw first (refl, refl, refl)
    | inr later ↦ rw later (refl, refl, refl)
  ]

  save_files :
      (i : ℕ) (d : Detector)
      → let d' = save_power s (u64 (offset + i)) (power s heap i) d in
        (d'.files ≡ d.files ++ saved s heap offset d.t_p_f i 1)
        × (d'.t_p_f ≡ d.t_p_f)
        × (d'.w_fd2 ≡ d.w_fd2)
  unfolding save_power
  save_files i d = elim (Bool-cases s.save_t_p) [
    | inl on ↦ rw on (refl, refl, refl)
    | inr off ↦ rw off (sym (append-nil d.files), refl, refl)
  ]

  saved_step :
      (fd i left : ℕ)
      → saved s heap offset fd i 1 ++ saved s heap offset fd (suc i) left
        ≡ saved s heap offset fd i (suc left)
  saved_step fd i left = elim (Bool-cases s.save_t_p) [
    | inl on ↦ simp on refl
    | inr off ↦ simp off refl
  ]

  stepped_bounds :
      (i : ℕ) (d : Detector)
      → d.count + 1 < 2 ^ 31
      → ((stepped i d).count ≡ d.count + 1)
        × ((stepped i d).min ≤ power s heap i)
        × (power s heap i ≤ (stepped i d).max)
  unfolding counted save_power
  stepped_bounds i d h = ground arith

  stepped_keeps :
      (i v : ℕ) (d : Detector)
      → 0 < d.count
      → d.min ≤ v
      → v ≤ d.max
      → ((stepped i d).min ≤ v) × (v ≤ (stepped i d).max)
  unfolding counted save_power
  stepped_keeps i v d h lo hi = ground arith

  scanned_files :
      (left i : ℕ) (d : Detector)
      → ((scanned left i d).files ≡ d.files ++ saved s heap offset d.t_p_f i left)
        × ((scanned left i d).w_fd2 ≡ d.w_fd2)
  scanned_files zero i d = elim (Bool-cases s.save_t_p) [
    | inl on ↦ rw on (sym (append-nil d.files), refl)
    | inr off ↦ rw off (sym (append-nil d.files), refl)
  ]
  scanned_files (suc left) i d =
      let mid = save_power s (u64 (offset + i)) (power s heap i) d in
      let (files, t_p_f, w_fd2) = counted_files (power s heap i) mid in
      let (files', t_p_f', w_fd2') = save_files i d in
      let later = scanned_files left (suc i) (stepped i d) in
      (
        later.0
            ∙ ap (λ (fd : ℕ). (stepped i d).files ++ saved s heap offset fd (suc i) left)
                (t_p_f ∙ t_p_f')
            ∙ ap (λ (fs : List FileEvent). fs ++ saved s heap offset d.t_p_f (suc i) left)
                (files ∙ files')
            ∙ append_assoc d.files (saved s heap offset d.t_p_f i 1)
                (saved s heap offset d.t_p_f (suc i) left)
            ∙ ap (λ (fs : List FileEvent). d.files ++ fs) (saved_step d.t_p_f i left),
        later.1 ∙ w_fd2 ∙ w_fd2',
      )

  scanned_count :
      (left i : ℕ) (d : Detector)
      → d.count + left < 2 ^ 31
      → (scanned left i d).count ≡ d.count + left
  scanned_count zero i d h = omega arith
  scanned_count (suc left) i d h =
      let now = stepped_bounds i d (omega arith) in
      omega (arith, now.0, scanned_count left (suc i) (stepped i d) (omega (arith, now.0)))

  scanned_keeps :
      (left i v : ℕ) (d : Detector)
      → d.count + left < 2 ^ 31
      → 0 < d.count
      → d.min ≤ v
      → v ≤ d.max
      → ((scanned left i d).min ≤ v) × (v ≤ (scanned left i d).max)
  scanned_keeps zero i v d h counted lo hi = (lo, hi)
  scanned_keeps (suc left) i v d h counted lo hi =
      let now = stepped_bounds i d (omega arith) in
      let (lo', hi') = stepped_keeps i v d counted lo hi in
      scanned_keeps left (suc i) v (stepped i d) (omega (arith, now.0)) (omega (arith, now.0)) lo'
        hi'

  scanned_bounds :
      (left i k : ℕ) (d : Detector)
      → d.count + left < 2 ^ 31
      → i ≤ k
      → k < i + left
      → ((scanned left i d).min ≤ power s heap k) × (power s heap k ≤ (scanned left i d).max)
  scanned_bounds zero i k d h lo hi = absurd (omega arith)
  scanned_bounds (suc left) i k d h lo hi =
      let (count, least, most) = stepped_bounds i d (omega arith) in
      elim (Bool-cases (ltb i k)) [
        | inl after ↦
            scanned_bounds left (suc i) k (stepped i d) (omega (arith, count)) (ground arith)
              (omega arith)
        | inr now ↦
            let same : k ≡ i = ground arith in
            rw same (
              scanned_keeps left (suc i) (power s heap i) (stepped i d) (omega (arith, count))
                (omega (arith, count)) least most)
      ]

-- What a call of `check_pulse` returns, writes and counts.
pub record IsChecked (s : PulseSettings) (add : AddToFloat) (heap : Memory) (offset : ℕ)
    (d : Detector) : Type 0 where
  pub d' : Detector
  pub returns : check_pulse s add heap offset d ≡ some (last_pulse s heap s.ts_per_heap, d')
  pub writes : d'.files ≡ d.files ++ saved s heap offset d.t_p_f 0 s.ts_per_heap
  pub same_file : d'.w_fd2 ≡ d.w_fd2
  pub counts : d'.count ≡ d.count + s.ts_per_heap
  pub extremes :
      (k : ℕ)
      → (if ltb k s.ts_per_heap
          then leb d'.min (power s heap k) && leb (power s heap k) d'.max
          else true)
        ≡ true

-- For a heap that has all its spectra, and a count below 2 ^ 31 after it, `check_pulse` runs
-- without a fault. It returns the last spectrum whose power reaches the threshold, or -1 if there
-- is none; where powers are saved it writes that of each spectrum, in order, at 4 times the
-- spectrum's number from the offset on, modulo 2 ^ 64; and the power of each lies between the new
-- minimum and the new maximum.
pub check_pulse-IsChecked :
    (s : PulseSettings) (add : AddToFloat) (heap : Memory) (offset : ℕ) (d : Detector)
    → IsReadable s heap
    → d.count + s.ts_per_heap < 2 ^ 31
    → IsChecked s add heap offset d
unfolding check_pulse
check_pulse-IsChecked s add heap offset d r h =
    let (files, same) = scanned_files s add heap offset r s.ts_per_heap 0 d in
    let whole : 0 + s.ts_per_heap ≡ s.ts_per_heap = omega arith in
    record {
      d' = scanned s add heap offset r s.ts_per_heap 0 d;
      returns = rw whole at (scan_lem s add heap offset r s.ts_per_heap 0 d (omega arith) h);
      writes = files;
      same_file = same;
      counts = scanned_count s add heap offset r s.ts_per_heap 0 d h;
      extremes = λ k. elim (Bool-cases (ltb k s.ts_per_heap)) [
        | inl below ↦
            let b =
              scanned_bounds s add heap offset r s.ts_per_heap 0 k d h (omega arith)
                (ground arith) in
            ground arith
        | inr above ↦ rw above refl
      ];
    }
