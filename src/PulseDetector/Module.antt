-- ===== src/PulseDetector/Module.antt =====
-- The pulse detector as a module of the SPEAD receiver, spead_callback/pps_test.c: its setup, many calls
-- by several processes, and its end.
pub mod Naming
mod Tests
use Prim.Native.String.{String}
use incoherent_beamformer.Common.{
  ℕ, ◌==◌, if◌then◌else◌, Bool, true, false, not, Option, none, some, List, [], ◌∷◌, ◌++◌, ℤ, pos,
  negsuc, Memory, ◌>>=◌,
}
use incoherent_beamformer.Settings.{start_setting}
use incoherent_beamformer.PulseDetector.{
  PulseSettings, AddToFloat, Pulses, Detector, spead_api_callback,
}

-- The globals that setup fills. `save_t_p` is an `int`, to which a pointer is assigned.
pub record Configuration : Type 0 where
  pub timestamp_id : ℤ
  pub data_id : ℤ
  pub n_chans : ℤ
  pub ts_per_heap : ℤ
  pub threshold : ℤ
  pub prefix : String
  pub save_t_p : ℕ

-- `address` is the low word of a string's address.
unfoldable pub configure : (String → Option String) → (String → ℤ) → (String → ℕ) → Configuration
configure getenv atoi address = record {
  timestamp_id = start_setting getenv atoi "TIMESTAMP_SPEAD_ID" (pos 5632);
  data_id = start_setting getenv atoi "DATA_SPEAD_ID" (pos 4098);
  n_chans = start_setting getenv atoi "N_CHANS" (pos 1024);
  ts_per_heap = start_setting getenv atoi "TIMESTAMPS_PER_HEAP" (pos 4);
  threshold = start_setting getenv atoi "THRESHOLD" (pos 500);
  prefix = elim (getenv "PREFIX") [ none ↦ "/data1/times" | some s ↦ s ];
  save_t_p = elim (getenv "SAVE_T_P") [ none ↦ 1 | some s ↦ address s ];
}

-- New shared data keeps what its memory held, but for two fields. `raw` is what shared_malloc returns.
unfoldable pub set_up : Option Pulses → Option Pulses → Option Pulses
set_up (some ss) raw = some ss
set_up none none = none
set_up none (some raw) = some (record raw { master_pid = 0; num_pulse = 0 })

-- A call: the process, the descriptors that `open` returns in it, and the item group.
pub record Call : Type 0 where
  pub process : ℕ
  pub times_fd : ℕ
  pub powers_fd : ℕ
  pub group : ℕ → Option Memory

-- The shared data and the processes by their numbers.
abbrev pub Module : Type 0
Module = Option Pulses × (ℕ → Detector)

abbrev pub after_call : ℕ → (ℕ → Detector) → Option Pulses × Detector × ℤ → Module
after_call i processes (shared, d, r) = (shared, λ j. if j == i then d else processes j)

-- One call by one of the processes, and several; `none` is a fault.
unfoldable pub call : PulseSettings → AddToFloat → Call → Module → Option Module
call s add c (shared, processes) =
    spead_api_callback s add c.times_fd c.powers_fd c.group shared (processes c.process) >>= λ r.
    some (after_call c.process processes r)

unfoldable pub calls : PulseSettings → AddToFloat → List Call → Module → Option Module
calls s add [] m = some m
calls s add (c ∷ rest) m = call s add c m >>= calls s add rest

-- The shared data is freed; the result is what one process closes.
unfoldable pub destroy : ℕ → Module → Module × List ℕ
destroy i (shared, processes) = ((none, processes), (processes i).w_fd2 ∷ (processes i).t_p_f ∷ [])
