-- ===== src/PulseDetector/Tests.antt =====
-- Tests of the pulse detector, on heaps of two spectra of 200 bytes; the second has a pulse.
use incoherent_beamformer.Common.{
  ℕ, ◌+◌, ◌≡◌, refl, none, some, Option, [], arith, true, pos, ◌==◌, ltb, if◌then◌else◌, Memory,
}
use incoherent_beamformer.Callback.Timestamp.{timestamp_item}
use incoherent_beamformer.PulseDetector.{
  PulseSettings, Pulses, Detector, read_int_timestamp, total_power, power_loop, sample,
}
use incoherent_beamformer.PulseDetector.Power.{IsReadable}
use incoherent_beamformer.PulseDetector.Scan.{IsChecked, check_pulse-IsChecked}
use incoherent_beamformer.PulseDetector.Steps.{IsHandled, spead_api_callback-IsHandled}

abbrev pub two_spectra : PulseSettings
two_spectra = record {
  timestamp_id = 5632;
  data_id = 4098;
  ts_per_heap = 2;
  n_chans = 200;
  threshold = pos 500;
  save_t_p = true;
}

abbrev pulse_heap : Memory
pulse_heap = record { size = 400; cell = λ i. if ltb i 200 then 3 else 240 }

pulse_heap-IsReadable : IsReadable two_spectra pulse_heap
pulse_heap-IsReadable = record { wide = omega arith; room = omega arith; index = omega arith }

-- 99 samples of 3 + 3i have power 1782; of 240 + 240i, which is -16 - 16i in signed bytes, 11404800.
quiet : total_power two_spectra pulse_heap 0 ≡ some 17
unfolding total_power power_loop sample
quiet = refl

loud : total_power two_spectra pulse_heap 1 ≡ some 114048
unfolding total_power power_loop sample
loud = refl

abbrev pub fresh : Detector
fresh = record {
  pid = 40;
  w_fd2 = 0;
  t_p_f = 0;
  prior_ts = 0;
  min = 0;
  max = 0;
  ave = 0;
  count = 0;
  files = [];
}

abbrev no_pulses : Pulses
no_pulses = record { prior_ts = 0; file_ts = 0; master_pid = 0; num_pulse = 0 }

abbrev pub items : ℕ → Option Memory
items id =
    if id == 5632 then some (timestamp_item 8192) else if id == 4098 then some pulse_heap else none

pub five_bytes : read_int_timestamp (timestamp_item 8192) ≡ some 8192
unfolding read_int_timestamp
five_bytes = refl

check_pulse-IsChecked_example : IsChecked two_spectra (λ a b. a + b) pulse_heap 7 fresh
check_pulse-IsChecked_example =
    check_pulse-IsChecked two_spectra (λ a b. a + b) pulse_heap 7 fresh pulse_heap-IsReadable
      (omega arith)

spead_api_callback-IsHandled_example :
    IsHandled two_spectra (λ a b. a + b) 5 6 items no_pulses fresh 8192 pulse_heap
spead_api_callback-IsHandled_example =
    spead_api_callback-IsHandled two_spectra (λ a b. a + b) 5 6 items no_pulses fresh
      (timestamp_item 8192) 8192 pulse_heap refl five_bytes refl pulse_heap-IsReadable (omega arith)
