-- ===== src/PulseDetector/Steps.antt =====
-- A whole call of the pulse detector's callback.
use mathlib.Core.List.{append-nil}
use incoherent_beamformer.Common.{
  ℕ, ◌+◌, ◌*◌, ◌/◌, ◌^◌, ◌<◌, ◌≡◌, refl, sym, ap, ◌∙◌, Bool, true, false, some, Option, List, [],
  ◌∷◌, ◌++◌, if◌then◌else◌, ℤ, pos, negsuc, u32, sub64, Memory, Bool-cases, inl, inr, ◌==◌, ◌&&◌,
  arith,
}
use incoherent_beamformer.PulseDetector.{
  PulseSettings, FileEvent, pwrite, opened_times, opened_powers, AddToFloat, Pulses, Detector,
  read_int_timestamp, request_file, take_prior, open_times, open_powers, open_files, record_pulse,
  spead_api_callback,
}
use incoherent_beamformer.PulseDetector.Power.{IsReadable}
use incoherent_beamformer.PulseDetector.Scan.{last_pulse, saved, check_pulse-IsChecked}

abbrev pub is_found : ℤ → Bool
is_found (pos n) = true
is_found (negsuc n) = false

-- The files that a call opens.
abbrev pub opened_first : ℕ → Pulses → Detector → List FileEvent
opened_first fd ss d = if d.w_fd2 == 0 then opened_times fd ss.file_ts ∷ [] else []

abbrev pub opened_again : PulseSettings → ℕ → Pulses → List FileEvent
opened_again s fd ss = if s.save_t_p then opened_powers fd ss.file_ts ∷ [] else []

take_prior_lem :
    (ss : Pulses) (d : Detector)
    → ((take_prior ss d).files ≡ d.files)
      × ((take_prior ss d).w_fd2 ≡ d.w_fd2)
      × ((take_prior ss d).count ≡ d.count)
unfolding take_prior
take_prior_lem ss d = elim (Bool-cases (d.prior_ts == 0)) [
  | inl on ↦ simp on (refl, refl, refl)
  | inr off ↦ simp off (refl, refl, refl)
]

open_times_lem :
    (fd : ℕ) (ss : Pulses) (d : Detector)
    → ((open_times fd ss d).files ≡ d.files ++ opened_first fd ss d)
      × ((open_times fd ss d).count ≡ d.count)
unfolding open_times
open_times_lem fd ss d = elim (Bool-cases (d.w_fd2 == 0)) [
  | inl on ↦ simp on (refl, refl)
  | inr off ↦ simp off (sym (append-nil d.files), refl)
]

open_powers_lem :
    (s : PulseSettings) (fd : ℕ) (ss : Pulses) (d : Detector)
    → ((open_powers s fd ss d).files ≡ d.files ++ opened_again s fd ss)
      × ((open_powers s fd ss d).count ≡ d.count)
unfolding open_powers
open_powers_lem s fd ss d = elim (Bool-cases s.save_t_p) [
  | inl on ↦ simp on (refl, refl)
  | inr off ↦ simp off (sym (append-nil d.files), refl)
]

open_files_lem :
    (s : PulseSettings) (fd1 fd2 : ℕ) (ss : Pulses) (d : Detector)
    → ((open_files s fd1 fd2 ss d).files
        ≡ d.files ++ opened_first fd1 ss d ++ opened_again s fd2 ss)
      × ((open_files s fd1 fd2 ss d).count ≡ d.count)
unfolding open_files
open_files_lem s fd1 fd2 ss d =
    let prior = take_prior ss d in
    let (files, w_fd2, count) = take_prior_lem ss d in
    let (files', count') = open_times_lem fd1 ss prior in
    let (files'', count'') = open_powers_lem s fd2 ss (open_times fd1 ss prior) in
    let first : opened_first fd1 ss prior ≡ opened_first fd1 ss d =
      ap (λ (fd : ℕ). if fd == 0 then opened_times fd1 ss.file_ts ∷ [] else []) w_fd2 in
    (
      files''
          ∙ ap (λ (fs : List FileEvent). fs ++ opened_again s fd2 ss)
              (files'
                ∙ ap (λ (fs : List FileEvent). fs ++ opened_first fd1 ss prior) files
                ∙ ap (λ (fs : List FileEvent). d.files ++ fs) first),
      count'' ∙ count' ∙ count,
    )

-- The write of a heap's timestamp, after `n` pulses.
abbrev pub pulse_write : ℤ → ℕ → ℕ → ℕ → List FileEvent
pulse_write pulse fd ts n = if is_found pulse then pwrite fd ts 8 (u32 (8 * n)) ∷ [] else []

record_pulse_lem :
    (ts : ℕ) (pulse : ℤ) (ss : Pulses) (d : Detector)
    → ((record_pulse ts pulse ss d).0.num_pulse
        ≡ (if is_found pulse then u32 (ss.num_pulse + 1) else ss.num_pulse))
      × ((record_pulse ts pulse ss d).1.files
          ≡ d.files ++ pulse_write pulse d.w_fd2 ts ss.num_pulse)
unfolding record_pulse
record_pulse_lem ts (pos n) ss d = (refl, refl)
record_pulse_lem ts (negsuc n) ss d = (refl, sym (append-nil d.files))

-- The state after a call, and what it wrote to its files.
pub record IsHandled (s : PulseSettings) (add : AddToFloat) (fd1 fd2 : ℕ)
    (group : ℕ → Option Memory) (ss : Pulses) (d : Detector) (ts : ℕ) (heap : Memory) : Type 0 where
  pub ss' : Pulses
  pub d' : Detector
  pub returns : spead_api_callback s add fd1 fd2 group (some ss) d ≡ some (some ss', d', pos 0)
  pub counts : ss'.num_pulse ≡ (
      if is_found (last_pulse s heap s.ts_per_heap) then u32 (ss.num_pulse + 1) else ss.num_pulse)
  pub writes :
      let named = request_file d.pid ts ss in
      let ready = open_files s fd1 fd2 named d in
      d'.files
      ≡ d.files
        ++ opened_first fd1 named d
        ++ opened_again s fd2 named
        ++ saved s heap (sub64 ts ready.prior_ts / 2048) ready.t_p_f 0 s.ts_per_heap
        ++ pulse_write (last_pulse s heap s.ts_per_heap) ready.w_fd2 ts ss.num_pulse

request_file_num : (pid ts : ℕ) (ss : Pulses) → (request_file pid ts ss).num_pulse ≡ ss.num_pulse
unfolding request_file
request_file_num pid ts ss = elim (Bool-cases (ss.prior_ts == 0 && ss.master_pid == 0)) [
  | inl on ↦ simp on refl
  | inr off ↦ simp off refl
]

-- From an item with a timestamp that fits an `int`, a heap that has all its spectra, and a count of
-- spectra below 2 ^ 31 after them: the callback returns 0 without a fault. It opens the file of times
-- if it was not open, and that of powers if powers are saved; writes the powers; and if a spectrum's
-- power reaches the threshold writes the heap's timestamp once, at 8 times the number of pulses so
-- far, modulo 2 ^ 32, which goes up by one, modulo 2 ^ 32.
pub spead_api_callback-IsHandled :
    (s : PulseSettings) (add : AddToFloat) (fd1 fd2 : ℕ) (group : ℕ → Option Memory) (ss : Pulses)
    (d : Detector) (item : Memory) (ts : ℕ) (heap : Memory)
    → group s.timestamp_id ≡ some item
    → read_int_timestamp item ≡ some ts
    → group s.data_id ≡ some heap
    → IsReadable s heap
    → d.count + s.ts_per_heap < 2 ^ 31
    → IsHandled s add fd1 fd2 group ss d ts heap
unfolding spead_api_callback
spead_api_callback-IsHandled s add fd1 fd2 group ss d item ts heap has_item reads has_heap r h =
    let named = request_file d.pid ts ss in
    let ready = open_files s fd1 fd2 named d in
    let place = sub64 ts ready.prior_ts / 2048 in
    let pulse = last_pulse s heap s.ts_per_heap in
    let (files, count) = open_files_lem s fd1 fd2 named d in
    let checked = check_pulse-IsChecked s add heap place ready r (omega arith) in
    let before =
      d.files
      ++ opened_first fd1 named d
      ++ opened_again s fd2 named
      ++ saved s heap place ready.t_p_f 0 s.ts_per_heap in
    let (num, files') = record_pulse_lem ts pulse named checked.d' in
    record {
      ss' = (record_pulse ts pulse named checked.d').0;
      d' = (record_pulse ts pulse named checked.d').1;
      returns = rw (has_item, reads, has_heap, checked.returns) refl;
      counts = rw num (
          ap (λ (n : ℕ). if is_found pulse then u32 (n + 1) else n) (request_file_num d.pid ts ss));
      writes =
          files'
          ∙ ap
              (λ (fs : List FileEvent). fs ++ pulse_write pulse checked.d'.w_fd2 ts named.num_pulse)
              (checked.writes
                ∙ ap (λ (fs : List FileEvent). fs ++ saved s heap place ready.t_p_f 0 s.ts_per_heap)
                    files)
          ∙ ap (λ (fd : ℕ). before ++ pulse_write pulse fd ts named.num_pulse) checked.same_file
          ∙ ap (λ (n : ℕ). before ++ pulse_write pulse ready.w_fd2 ts n)
              (request_file_num d.pid ts ss);
    }
