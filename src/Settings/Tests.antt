-- ===== src/Settings/Tests.antt =====
-- Runs of `get_settings`: the defaults, the environment of KAT7_beamform.conf, and refusals.
use Prim.Native.String.{String}
use text.Mathlib.Text.{◌==◌ as str_eq}
use incoherent_beamformer.Common.{
  ◌-◌, ◌%◌, ◌^◌, ◌≡◌, ◌≢◌, ◌↔◌, refl, Option, none, some, arith, ℤ, pos, if◌then◌else◌, leb,
}
use incoherent_beamformer.Settings.{
  Settings, done, exited, fault, setting, start_setting, get_settings,
}
use incoherent_beamformer.Settings.Geometry.{
  IsDone, IsGeometry, get_settings-IsDone, get_settings-IsGeometry, get_settings_mask,
  get_settings_dpb,
}

-- No variable is set.
abbrev empty_env : String → Option String
empty_env name = none

-- One variable is set.
abbrev one_env : String → String → String → Option String
one_env key value name = if str_eq key name then some value else none

-- A stand-in for atoi that knows the texts used here.
abbrev read_number : String → ℤ
read_number s = if str_eq s "6" then pos 6 else if str_eq s "16384" then pos 16384 else pos 0

abbrev defaults : Settings
defaults = record {
  num_workers = 4;
  f_id_spead_id = 4096;
  timestamp_spead_id = 4097;
  timestamp_increment = 512;
  data_spead_id = 4098;
  timestamps_per_heap = 1;
  chan_per_heap = 1024;
  pols = 2;
  bytes_per_sample = 1;
  expected_heap_len = 2048;
  dada_buf_id = 0x1234;
  dada_num_readers = 1;
  dada_num_bufs = 8;
  num_heaps_per_buf = 32;
  dada_buf_size = 65536;
  start_time = pos 1421072677;
  num_heaps_per_ob = 32;
  ob_size = 65536;
  ob_segment = 16384;
  ob_key = 0x10236;
  dpb_size = 128;
  dpb_key = 0x10237;
  dbp_sem_key = 0x10238;
  o_b_sem_key = 0x10240;
  num_bits_in_segment = 8;
  no_dropped_packets = 255;
}

settings_of_empty_env : get_settings empty_env read_number 0 ≡ done defaults
unfolding get_settings setting start_setting
settings_of_empty_env = refl

not_divisible : get_settings (one_env "NUM_HEAPS_PER_ORDER_BUF" "6") read_number 0 ≡ exited
unfolding get_settings setting start_setting
not_divisible = refl

no_order_buffer : get_settings (one_env "NUM_HEAPS_PER_ORDER_BUF" "0") read_number 0 ≡ fault
unfolding get_settings setting start_setting
no_order_buffer = refl

get_settings-IsDone_example : IsDone (get_settings empty_env read_number 0) ↔ (
    (setting empty_env read_number 32 "NUM_HEAPS_PER_ORDER_BUF" 32 ≢ 0)
    × (setting empty_env read_number 64 "NUM_HEAPS_PER_BUFFER" 32
          % setting empty_env read_number 32 "NUM_HEAPS_PER_ORDER_BUF" 32
        ≡ 0)
    × (setting empty_env read_number 32 "NUM_HEAPS_PER_ORDER_BUF" 32 % 4 ≡ 0))
get_settings-IsDone_example = get_settings-IsDone empty_env read_number 0

get_settings-IsGeometry_example : IsGeometry defaults
get_settings-IsGeometry_example =
    get_settings-IsGeometry empty_env read_number 0 settings_of_empty_env (omega arith)

default_mask : defaults.no_dropped_packets ≡ (if leb 8 32 then 2 ^ 8 - 1 else 0)
default_mask = get_settings_mask empty_env read_number 0 settings_of_empty_env

default_dpb : defaults.dpb_size ≡ 128
default_dpb = get_settings_dpb empty_env read_number 0 settings_of_empty_env (omega arith)
