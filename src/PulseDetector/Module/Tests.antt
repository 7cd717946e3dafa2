-- ===== src/PulseDetector/Module/Tests.antt =====
-- Two calls by two processes after setup, in memory that was not 0.
use incoherent_beamformer.Common.{ℕ, ◌+◌, ◌≡◌, refl, Option, none, some, [], ◌∷◌, arith}
use incoherent_beamformer.PulseDetector.{
  Pulses, Detector, read_int_timestamp, check_pulse, scan, update, counted, save_power, open_files,
  open_powers, open_times, take_prior, total_power, power_loop, sample, spead_api_callback,
}
use incoherent_beamformer.PulseDetector.Tests.{two_spectra, items, fresh, five_bytes}
use incoherent_beamformer.Callback.Timestamp.{timestamp_item}
use incoherent_beamformer.PulseDetector.Module.{Module, Call, set_up, call, calls}
use incoherent_beamformer.PulseDetector.Module.Naming.{Keeps, first_named, calls-Keeps}

abbrev garbage : Pulses
garbage = record { prior_ts = 7; file_ts = 0; master_pid = 3; num_pulse = 9 }

abbrev by : ℕ → Call
by i = record { process = i; times_fd = 5; powers_fd = 6; group = items }

abbrev processes : ℕ → Detector
processes i = record fresh { pid = 40 + i }

abbrev or_unset : Option Module → Module
or_unset none = (none, processes)
or_unset (some m) = m

abbrev after_two : Module
unfolding calls
after_two =
    or_unset
      (calls two_spectra (λ a b. a + b) (by 0 ∷ by 1 ∷ []) (set_up none (some garbage), processes))

runs :
    calls two_spectra (λ a b. a + b) (by 0 ∷ by 1 ∷ []) (set_up none (some garbage), processes)
    ≡ some after_two
unfolding calls call spead_api_callback read_int_timestamp set_up check_pulse scan total_power
    power_loop sample update counted save_power open_files open_powers open_times take_prior
runs = refl

calls-Keeps_example : Keeps (first_named two_spectra (λ a b. a + b) 40 8192 garbage) after_two.0
calls-Keeps_example =
    calls-Keeps two_spectra (λ a b. a + b) garbage (by 0) (by 1 ∷ []) processes
      (timestamp_item 8192) 8192 after_two refl five_bytes (omega arith) runs
