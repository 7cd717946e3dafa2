-- ===== src/Settings.antt =====
-- The settings of the receiver, spead_callback/to_buffer.c: the globals that `get_settings`
-- fills from the environment, and the checks that it makes on them.
pub mod Geometry
mod Tests
use Prim.Native.String.{String}
use incoherent_beamformer.Common.{
  ℕ, ◌+◌, ◌-◌, ◌*◌, ◌/◌, ◌%◌, ◌^◌, ◌≡◌, Option, none, some, ltb, ◌==◌, if◌then◌else◌, ℤ, pos, wrap,
  u32, u64,
}

-- The globals. `unsigned int` fields are below 2 ^ 32, `size_t` and `unsigned long long` fields
-- below 2 ^ 64.
pub record Settings : Type 0 where
  pub num_workers : ℕ
  pub f_id_spead_id : ℕ
  pub timestamp_spead_id : ℕ
  pub timestamp_increment : ℕ
  pub data_spead_id : ℕ
  pub timestamps_per_heap : ℕ
  pub chan_per_heap : ℕ
  pub pols : ℕ
  pub bytes_per_sample : ℕ
  pub expected_heap_len : ℕ
  pub dada_buf_id : ℕ
  pub dada_num_readers : ℕ
  pub dada_num_bufs : ℕ
  pub num_heaps_per_buf : ℕ
  pub dada_buf_size : ℕ
  pub start_time : ℤ
  pub num_heaps_per_ob : ℕ
  pub ob_size : ℕ
  pub ob_segment : ℕ
  pub ob_key : ℕ
  pub dpb_size : ℕ
  pub dpb_key : ℕ
  pub dbp_sem_key : ℕ
  pub o_b_sem_key : ℕ
  pub num_bits_in_segment : ℕ
  pub no_dropped_packets : ℕ

-- `exited` is a call of exit(0); `fault` a division by zero.
pub data Outcome {ℓ} (A : Type ℓ) : Type ℓ where
  done : A → Outcome A
  exited : Outcome A
  fault : Outcome A

infixl 5 ◌>>=◌ ◌>>◌
abbrev pub ◌>>=◌ {ℓ κ} : {A : Type ℓ} {B : Type κ} → Outcome A → (A → Outcome B) → Outcome B
done a >>= f = f a
exited >>= f = exited
fault >>= f = fault

abbrev pub ◌>>◌ {ℓ} : {B : Type ℓ} → Outcome (Unit {0}) → Outcome B → Outcome B
m >> k = m >>= λ _. k

-- a % b and a / b
abbrev pub rem : ℕ → ℕ → Outcome ℕ
rem a b = if b == 0 then fault else done (a % b)

abbrev pub quotient : ℕ → ℕ → Outcome ℕ
quotient a b = if b == 0 then fault else done (a / b)

-- if (n != 0) exit(0);
abbrev pub exit_unless_zero : ℕ → Outcome (Unit {0})
exit_unless_zero n = if n == 0 then done tt else exited

-- The mask of a segment with all its heaps received: `1 << bits` is an `int`. With more than 32
-- bits the global keeps the value that it had.
pub full_mask : ℕ → ℕ → ℕ
full_mask before bits =
    if ltb bits 32 then u32 (2 ^ bits + 2 ^ 32 - 1) else if bits == 32 then 2 ^ 32 - 1 else before

-- The environment, and the C library's reading of a decimal number.
module _ (getenv : String → Option String) (atoi : String → ℤ) where
  -- An environment variable as a number of `w` bits, or its default.
  pub setting : ℕ → String → ℕ → ℕ
  setting w name default = elim (getenv name) [ none ↦ default | some s ↦ wrap w (atoi s) ]

  pub start_setting : String → ℤ → ℤ
  start_setting name default = elim (getenv name) [ none ↦ default | some s ↦ atoi s ]

  -- `before` is the value of noDroppedPackets at the call.
  pub get_settings : ℕ → Outcome Settings
  unfolding full_mask
  get_settings before = do
    let timestamps_per_heap = setting 32 "TIMESTAMPS_PER_HEAP" 1
    let chan_per_heap = setting 32 "CHANS_PER_HEAP" 1024
    let pols = setting 32 "POLARIZATIONS" 2
    let bytes_per_sample = setting 32 "BYTES_PER_SAMPLE" 1
    let heap_len = u32 (u32 (u32 (timestamps_per_heap * chan_per_heap) * pols) * bytes_per_sample)
    let heaps_per_buf = setting 64 "NUM_HEAPS_PER_BUFFER" 32
    let heaps_per_ob = setting 32 "NUM_HEAPS_PER_ORDER_BUF" 32
    left ← rem heaps_per_buf heaps_per_ob
    exit_unless_zero left
    let ob_size = u64 (heaps_per_ob * heap_len)
    exit_unless_zero (heaps_per_ob % 4)
    let bits = heaps_per_ob / 4
    dpb_size ← quotient (u32 (heaps_per_ob * 32)) bits
    done (record {
      num_workers = setting 32 "NUM_WORKERS" 4;
      f_id_spead_id = setting 32 "F_ID_SPEAD_ID" 4096;
      timestamp_spead_id = setting 32 "TIMESTAMP_SPEAD_ID" 4097;
      timestamp_increment = setting 32 "TIMESTAMP_INCREMENT" 512;
      data_spead_id = setting 32 "DATA_SPEAD_ID" 4098;
      timestamps_per_heap = timestamps_per_heap;
      chan_per_heap = chan_per_heap;
      pols = pols;
      bytes_per_sample = bytes_per_sample;
      expected_heap_len = heap_len;
      dada_buf_id = setting 32 "DADA_BUF_ID" 0x1234;
      dada_num_readers = setting 32 "DADA_NUM_READERS" 1;
      dada_num_bufs = setting 32 "DADA_NUM_BUFS" 8;
      num_heaps_per_buf = heaps_per_buf;
      dada_buf_size = u64 (heap_len * heaps_per_buf);
      start_time = start_setting "STARTTIME" (pos 1421072677);
      num_heaps_per_ob = heaps_per_ob;
      ob_size = ob_size;
      ob_segment = ob_size / 4;
      ob_key = setting 32 "ORDER_BUFFER_KEY" 0x10236;
      dpb_size = dpb_size;
      dpb_key = setting 32 "DROPPED_PACKET_BUFFER_KEY" 0x10237;
      dbp_sem_key = setting 32 "DROPPED_PACKET_BUFFER_SEM_KEY" 0x10238;
      o_b_sem_key = setting 32 "ORDER_BUFFER_TAIL_SEM_KEY" 0x10240;
      num_bits_in_segment = bits;
      no_dropped_packets = full_mask before bits;
    })
