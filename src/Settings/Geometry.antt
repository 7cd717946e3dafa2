-- ===== src/Settings/Geometry.antt =====
-- The sizes that `get_settings` computes: how segments, order buffer and DADA block fit together.
use Prim.Native.String.{String}
use native.Mathlib.Decide.{dec_lt}
use native.Mathlib.Nat.{div-add-mod, mul-le-mul, pow-le-pow_right, one-le-pow, mul-div_cancel}
use incoherent_beamformer.Common.{
  ℕ, ◌-◌, ◌*◌, ◌/◌, ◌%◌, ◌^◌, ◌∙◌, ◌<◌, ◌≡◌, ◌≢◌, ◌↔◌, Option, arith, ℤ, ap, leb, if◌then◌else◌,
}
use incoherent_beamformer.Settings.{
  Settings, Outcome, done, exited, fault, setting, get_settings, full_mask,
}

abbrev pub IsDone {ℓ} : {A : Type ℓ} → Outcome A → Type 0
IsDone (done a) = Unit
IsDone exited = ⊥
IsDone fault = ⊥

-- A segment is a quarter of the order buffer, and holds as many whole heaps as it has bits; a
-- DADA block is a whole number of order buffers.
pub record IsGeometry (s : Settings) : Type 0 where
  pub some_heaps : 0 < s.num_bits_in_segment
  pub heaps : s.num_heaps_per_ob ≡ 4 * s.num_bits_in_segment
  pub segment : s.ob_segment ≡ s.num_bits_in_segment * s.expected_heap_len
  pub order_buffer : s.ob_size ≡ 4 * s.ob_segment
  pub block : s.dada_buf_size ≡ s.num_heaps_per_buf / s.num_heaps_per_ob * s.ob_size
  pub whole : s.num_heaps_per_buf / s.num_heaps_per_ob * s.num_heaps_per_ob ≡ s.num_heaps_per_buf

mul-lt-word : {a b : ℕ} → a < 2 ^ 32 → b < 2 ^ 32 → a * b < 2 ^ 64
mul-lt-word {a} {b} p q = omega (
  arith,
  mul-le-mul {n₁ = a} {m₁ = b} {n₂ = 2 ^ 32 - 1} {m₂ = 2 ^ 32 - 1} (omega arith) (omega arith),
)

-- The mask is a one for each heap of a segment of at most 32.
full_mask_lem :
    (before bits : ℕ) → full_mask before bits ≡ (if leb bits 32 then 2 ^ bits - 1 else before)
unfolding full_mask
full_mask_lem before bits = elim (dec_lt bits 32) [
  | yes p ↦ ground (
    arith,
    one-le-pow bits 2,
    pow-le-pow_right {n = 2} (omega arith) {i = bits} {j = 31} (omega arith),
  )
  | no p ↦ elim (dec_lt 32 bits) [
    | yes q ↦ ground arith
    | no q ↦ let e : bits ≡ 32 = omega arith in rw e
  ]
]

module _ (getenv : String → Option String) (atoi : String → ℤ) (before : ℕ) where
  abbrev heaps_per_buf : ℕ
  heaps_per_buf = setting getenv atoi 64 "NUM_HEAPS_PER_BUFFER" 32

  abbrev heaps_per_ob : ℕ
  heaps_per_ob = setting getenv atoi 32 "NUM_HEAPS_PER_ORDER_BUF" 32

  -- `get_settings` returns exactly when the order buffer has heaps, their number divides that of a
  -- DADA block, and it is divisible by 4.
  pub get_settings-IsDone :
      IsDone (get_settings getenv atoi before)
      ↔ ((heaps_per_ob ≢ 0) × (heaps_per_buf % heaps_per_ob ≡ 0) × (heaps_per_ob % 4 ≡ 0))
  unfolding get_settings
  get_settings-IsDone = ground arith

  -- What a normal return says of the sizes.
  settings_sizes :
      {s : Settings}
      → get_settings getenv atoi before ≡ done s
      → (s.num_heaps_per_ob ≢ 0)
        × (s.num_heaps_per_ob % 4 ≡ 0)
        × (s.num_heaps_per_buf % s.num_heaps_per_ob ≡ 0)
        × (s.num_bits_in_segment ≡ s.num_heaps_per_ob / 4)
        × (s.ob_size ≡ s.num_heaps_per_ob * s.expected_heap_len % 2 ^ 64)
        × (s.ob_segment ≡ s.ob_size / 4)
        × (s.dada_buf_size ≡ s.expected_heap_len * s.num_heaps_per_buf % 2 ^ 64)
        × (s.dpb_size ≡ s.num_heaps_per_ob * 32 % 2 ^ 32 / s.num_bits_in_segment)
        × (s.no_dropped_packets ≡ full_mask before s.num_bits_in_segment)
  unfolding get_settings
  settings_sizes h = ground arith

  settings_words :
      {s : Settings}
      → get_settings getenv atoi before ≡ done s
      → (s.num_heaps_per_ob < 2 ^ 32) × (s.expected_heap_len < 2 ^ 32)
  unfolding get_settings setting
  settings_words h = ground arith

  -- When `get_settings` returns and a DADA block is smaller than 2 ^ 64 bytes, the sizes fit
  -- together: the products do not wrap and the quotients are exact.
  pub get_settings-IsGeometry :
      {s : Settings}
      → get_settings getenv atoi before ≡ done s
      → s.expected_heap_len * s.num_heaps_per_buf < 2 ^ 64
      → IsGeometry s
  get_settings-IsGeometry {s} h fits =
      let sizes = settings_sizes h in
      let words = settings_words h in
      let bits : s.num_heaps_per_ob ≡ 4 * s.num_bits_in_segment = omega arith in
      let exact : s.num_heaps_per_ob * s.expected_heap_len < 2 ^ 64 = mul-lt-word words.0 words.1 in
      let ob : s.ob_size ≡ s.num_heaps_per_ob * s.expected_heap_len = omega arith in
      let len : s.ob_size ≡ 4 * (s.num_bits_in_segment * s.expected_heap_len) =
        omega (arith, ap (λ (n : ℕ). n * s.expected_heap_len) bits) in
      let whole : s.num_heaps_per_buf / s.num_heaps_per_ob * s.num_heaps_per_ob
          ≡ s.num_heaps_per_buf =
        omega (arith, div-add-mod s.num_heaps_per_buf s.num_heaps_per_ob) in
      record {
        some_heaps = omega arith;
        heaps = bits;
        segment = omega arith;
        order_buffer = omega arith;
        block = omega (
          arith,
          ap (λ (n : ℕ). s.expected_heap_len * n) whole,
          ap (λ (n : ℕ). s.num_heaps_per_buf / s.num_heaps_per_ob * n) ob,
        );
        whole = whole;
      }

  -- When `get_settings` returns, the mask of a full segment has one bit for each heap of the
  -- segment if there are at most 32 of them, and otherwise keeps the value from before the call.
  pub get_settings_mask :
      {s : Settings}
      → get_settings getenv atoi before ≡ done s
      → s.no_dropped_packets
        ≡ (if leb s.num_bits_in_segment 32 then 2 ^ s.num_bits_in_segment - 1 else before)
  get_settings_mask {s} h = (settings_sizes h).8 ∙ full_mask_lem before s.num_bits_in_segment

  -- When `get_settings` returns and the order buffer has fewer than 2 ^ 27 heaps, the array of
  -- dropped-packet bits has 128 bytes, whatever the settings.
  pub get_settings_dpb :
      {s : Settings}
      → get_settings getenv atoi before ≡ done s
      → s.num_heaps_per_ob < 2 ^ 27
      → s.dpb_size ≡ 128
  get_settings_dpb {s} h small =
      let sizes = settings_sizes h in
      let bits : s.num_heaps_per_ob * 32 % 2 ^ 32 ≡ 128 * s.num_bits_in_segment = omega arith in
      sizes.7
      ∙ ap (λ (n : ℕ). n / s.num_bits_in_segment) bits
      ∙ mul-div_cancel 128 {n = s.num_bits_in_segment} (omega arith)
