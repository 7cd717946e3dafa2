-- ===== src/PulseDetector.antt =====
-- The pulse detector of spead_callback/pps_test.c: `check_pulse`, which looks for spectra whose
-- power reaches a threshold, and the callback that writes the timestamps of heaps with a pulse to
-- a file. Files are events: `pwrite` gives the descriptor, the value, its length and its place.
-- The statistics, printed at the end, are kept as whole numbers but for the average, a float.
pub mod Power
pub mod Scan
pub mod Stamp
pub mod Module
pub mod Steps
mod Tests
use incoherent_beamformer.Common.{
  ℕ, zero, suc, ◌+◌, ◌*◌, ◌/◌, ◌%◌, ◌^◌, Bool, true, ◌&&◌, ◌||◌, Option, none, some, List, [], ◌∷◌,
  ◌++◌, ltb, leb, ◌==◌, if◌then◌else◌, ℤ, pos, negsuc, u32, u64, sub64, Memory, ◌>>=◌,
}

-- The globals that the environment sets.
pub record PulseSettings : Type 0 where
  pub timestamp_id : ℕ
  pub data_id : ℕ
  pub ts_per_heap : ℕ
  pub n_chans : ℕ
  pub threshold : ℤ
  pub save_t_p : Bool

-- An opened file, with its descriptor, for a timestamp; and a write of `len` bytes at `offset`.
pub data FileEvent : Type 0 where
  opened_times opened_powers : ℕ → ℕ → FileEvent
  pwrite : (fd value len offset : ℕ) → FileEvent

-- The sums of floats: a float is its pattern.
abbrev pub AddToFloat : Type 0
AddToFloat = ℕ → ℕ → ℕ

-- `struct snap_shot`, as far as it is used; the file names are given by the timestamp in them.
pub record Pulses : Type 0 where
  pub prior_ts : ℕ
  pub file_ts : ℕ
  pub master_pid : ℕ
  pub num_pulse : ℕ

-- The globals of a process; a descriptor of 0 is the null that the code compares with.
pub record Detector : Type 0 where
  pub pid : ℕ
  pub w_fd2 : ℕ
  pub t_p_f : ℕ
  pub prior_ts : ℕ
  pub min : ℕ
  pub max : ℕ
  pub ave : ℕ
  pub count : ℕ
  pub files : List FileEvent

-- uint8_t re = (int)heap[..]: the byte's own pattern. `none` is a read past the end, or an
-- index that overflows.
unfoldable pub sample : Memory → ℕ → Option ℕ
sample heap i = if ltb i heap.size && ltb i (2 ^ 31) then some (heap.cell i % 256) else none

-- for (j = ..; j < 200; j = j + 2), with `left` rounds left.
unfoldable pub power_loop : Memory → ℕ → ℕ → ℕ → ℕ → Option ℕ
power_loop heap start zero j totalPower = some totalPower
power_loop heap start (suc left) j totalPower = sample heap (start + j) >>= λ re.
    sample heap (start + j + 1) >>= λ im.
    power_loop heap start left (j + 2) (totalPower + (re * re + im * im))

-- The power of spectrum `i`: 99 samples, from j = 2 on.
unfoldable pub total_power : PulseSettings → Memory → ℕ → Option ℕ
total_power s heap i = power_loop heap (i * s.n_chans) 99 2 0 >>= λ p. some (p / 100)

-- totalPower >= threshold
unfoldable pub is_pulse : ℤ → ℕ → Bool
is_pulse (pos t) power = leb t power
is_pulse (negsuc t) power = true

unfoldable pub save_power : PulseSettings → ℕ → ℕ → Detector → Detector
save_power s place power d =
    if s.save_t_p
    then record d { files = d.files ++ pwrite d.t_p_f power 4 (u64 (4 * place)) ∷ [] }
    else d

-- min, max, ave and count, where the count is not at its end.
unfoldable pub counted : AddToFloat → ℕ → Detector → Detector
counted add power d =
    let first = if d.count == 0 then record d { min = power; max = power; ave = 0 } else d in
    record first {
      min = if ltb power first.min then power else first.min;
      max = if ltb first.max power then power else first.max;
      ave = add first.ave power;
      count = first.count + 1;
    }

-- count++ on an `int`: `none` where that overflows.
unfoldable pub update : AddToFloat → ℕ → Detector → Option Detector
update add power d = if ltb (d.count + 1) (2 ^ 31) then some (counted add power d) else none

-- for (i = ..; i < ts_per_heap; i++), with the last pulse found so far.
unfoldable pub scan :
    PulseSettings → AddToFloat → Memory → ℕ → ℕ → ℕ → ℤ → Detector → Option (ℤ × Detector)
scan s add heap offset zero i ret d = some (ret, d)
scan s add heap offset (suc left) i ret d = total_power s heap i >>= λ power.
    update add power (save_power s (u64 (offset + i)) power d) >>= λ d'.
    scan s add heap offset left (i + 1) (if is_pulse s.threshold power then pos i else ret) d'

unfoldable pub check_pulse :
    PulseSettings → AddToFloat → Memory → ℕ → Detector → Option (ℤ × Detector)
check_pulse s add heap offset d = scan s add heap offset s.ts_per_heap 0 (negsuc 0) d

-- The timestamp is added up as an `int`; `none` where that overflows, or reads past the end.
unfoldable pub read_int_timestamp : Memory → Option ℕ
read_int_timestamp item =
    let value =
      item.cell 0
      + item.cell 1 * 256
      + item.cell 2 * 256 * 256
      + item.cell 3 * 256 * 256 * 256
      + item.cell 4 * 256 * 256 * 256 * 256 in
    if ltb item.size 5 || leb (2 ^ 31) value then none else some value

-- The first process with a heap becomes the master and names the files.
unfoldable pub request_file : ℕ → ℕ → Pulses → Pulses
request_file pid ts ss =
    if ss.prior_ts == 0 && ss.master_pid == 0
    then record ss { master_pid = pid; prior_ts = ts; file_ts = ts }
    else ss

unfoldable pub take_prior : Pulses → Detector → Detector
take_prior ss d = if d.prior_ts == 0 then record d { prior_ts = ss.prior_ts } else d

-- The file of times is opened once; `fd` is what `open` returns.
unfoldable pub open_times : ℕ → Pulses → Detector → Detector
open_times fd ss d =
    if d.w_fd2 == 0
    then record d { w_fd2 = fd; files = d.files ++ opened_times fd ss.file_ts ∷ [] }
    else d

-- The file of powers is opened in every call.
unfoldable pub open_powers : PulseSettings → ℕ → Pulses → Detector → Detector
open_powers s fd ss d =
    if s.save_t_p
    then record d { t_p_f = fd; files = d.files ++ opened_powers fd ss.file_ts ∷ [] }
    else d

unfoldable pub open_files : PulseSettings → ℕ → ℕ → Pulses → Detector → Detector
open_files s fd1 fd2 ss d = open_powers s fd2 ss (open_times fd1 ss (take_prior ss d))

-- The timestamp of a heap with a pulse goes to the next place in the file of times.
unfoldable pub record_pulse : ℕ → ℤ → Pulses → Detector → Pulses × Detector
record_pulse ts (negsuc n) ss d = (ss, d)
record_pulse ts (pos i) ss d = (
  record ss { num_pulse = u32 (ss.num_pulse + 1) },
  record d { files = d.files ++ pwrite d.w_fd2 ts 8 (u32 (8 * ss.num_pulse)) ∷ [] },
)

-- `none` is a fault: an item that is not there, a read past the end, an overflow.
unfoldable pub spead_api_callback :
    PulseSettings
    → AddToFloat
    → ℕ
    → ℕ
    → (ℕ → Option Memory)
    → Option Pulses
    → Detector
    → Option (Option Pulses × Detector × ℤ)
spead_api_callback s add fd1 fd2 group shared d = do
  item ← group s.timestamp_id
  ts ← read_int_timestamp item
  elim shared [
    | none ↦ some (none, d, negsuc 0)
    | some ss ↦ do
      let ss' = request_file d.pid ts ss
      let d' = open_files s fd1 fd2 ss' d
      heap ← group s.data_id
      (pulse, d'') ← check_pulse s add heap (sub64 ts d'.prior_ts / 2048) d'
      let (ss'', d3) = record_pulse ts pulse ss' d''
      some (some ss'', d3, pos 0)
  ]
