-- ===== src/Callback/Offset.antt =====
-- Where `spead_api_callback` puts a heap, from its timestamp and that of the block.
use native.Mathlib.Decide.{dec_lt}
use native.Mathlib.Nat.{
  mul-le-mul_right, mul-div_cancel, add-mul-div_right, div-eq_of_lt, div-add-mod, mod-lt,
  lt_of_mul-lt-mul_right,
}
use incoherent_beamformer.Common.{
  ℕ, ◌+◌, ◌-◌, ◌*◌, ◌/◌, ◌%◌, ◌^◌, ◌≤◌, ◌<◌, ◌≡◌, ◌⊎◌, some, arith, u64, sub64, pos_of_mul-pos, ap,
  ◌∙◌, sym, ltb,
}
use incoherent_beamformer.Settings.{Settings}
use incoherent_beamformer.Callback.{heap_offset, block_span, is_late, max_ts}

sub64_forward : (a x : ℕ) → a + x < 2 ^ 64 → sub64 (a + x) a ≡ x
sub64_forward a x h = omega arith

module _ (s : Settings) (pos : 0 < s.timestamp_increment) where
  -- A heap `x` after the start of the block.
  heap_offset_forward :
      (prior_ts x : ℕ)
      → prior_ts + x < 2 ^ 64
      → heap_offset s (prior_ts + x) prior_ts
        ≡ some (u64 (x / s.timestamp_increment * s.expected_heap_len))
  unfolding heap_offset
  heap_offset_forward prior_ts x word = ground (
    arith,
    ap (λ (n : ℕ). u64 (n / s.timestamp_increment * s.expected_heap_len))
        (sub64_forward prior_ts x word),
  )

  -- A heap `x` after the start of a block whose timestamps wrap.
  heap_offset_wrapped :
      (ts prior_ts x : ℕ)
      → ts + 2 ^ 40 ≡ prior_ts + x
      → prior_ts < 2 ^ 40
      → x < 2 ^ 40
      → ts ≤ block_span s
      → block_span s < prior_ts
      → heap_offset s ts prior_ts ≡ some (u64 (x / s.timestamp_increment * s.expected_heap_len))
  unfolding heap_offset
  heap_offset_wrapped ts prior_ts x e below near before after =
      let gone : u64 (sub64 max_ts prior_ts + ts) ≡ x = omega arith in
      ground (arith, ap (λ (n : ℕ). u64 (n / s.timestamp_increment * s.expected_heap_len)) gone)

-- Heap number `k` of a block goes to the place of number `k`, also where the 40-bit timestamp
-- wraps within the block; a block must span less than 2 ^ 39.
pub heap_offset_in_block :
    (s : Settings) (prior_ts k : ℕ)
    → 0 < s.timestamp_increment
    → s.num_heaps_per_buf * s.timestamp_increment < 2 ^ 39
    → prior_ts < 2 ^ 40
    → k ≤ s.num_heaps_per_buf
    → k * s.expected_heap_len < 2 ^ 64
    → heap_offset s ((prior_ts + k * s.timestamp_increment) % 2 ^ 40) prior_ts
      ≡ some (k * s.expected_heap_len)
heap_offset_in_block s prior_ts k pos span prior in_block word =
    let inc = s.timestamp_increment in
    let steps = mul-le-mul_right {m = k} {n = s.num_heaps_per_buf} inc in_block in
    let number : u64 (k * inc / inc * s.expected_heap_len) ≡ k * s.expected_heap_len =
      rw (mul-div_cancel k {n = inc} pos) (omega arith) in
    elim (dec_lt (prior_ts + k * inc) (2 ^ 40)) [
      | yes below ↦
          let same : (prior_ts + k * inc) % 2 ^ 40 ≡ prior_ts + k * inc = omega arith in
          rw same (heap_offset_forward s pos prior_ts (k * inc) (omega arith) ∙ ap some number)
      | no over ↦
          heap_offset_wrapped s pos ((prior_ts + k * inc) % 2 ^ 40) prior_ts (k * inc) (omega arith)
            prior (omega arith) (omega arith) (omega arith)
          ∙ ap some number
    ]

-- Two multiples of `inc` that make up 2 ^ 64: the quotient of a difference that has wrapped.
wrapped_quotient : (inc q c r : ℕ) → 0 < inc → r < inc → c ≤ q → (r + (q - c) * inc) / inc ≡ q - c
wrapped_quotient inc q c r pos small below =
    add-mul-div_right r (q - c) {z = inc} pos ∙ omega (arith, div-eq_of_lt {n = r} {m = inc} small)

module _ (s : Settings) (q m ts prior_ts : ℕ) (whole : 2 ^ 64 ≡ q * s.timestamp_increment)
    (heaps : s.expected_heap_len ≡ m * s.timestamp_increment) (some_bytes : 0 < s.expected_heap_len)
    (word : s.timestamp_increment < 2 ^ 32) (prior : prior_ts < 2 ^ 40)
    (unwrapped : (prior_ts ≤ block_span s) ⊎ (block_span s < ts)) where
  abbrev inc : ℕ
  inc = s.timestamp_increment

  inc_pos : 0 < inc
  inc_pos = pos_of_mul-pos inc q (omega arith)

  -- How many heaps before the block a heap is, rounded up.
  abbrev heaps_before : ℕ
  heaps_before = (prior_ts - ts + inc - 1) / inc

  heap_offset_before :
      ts < prior_ts
      → heaps_before * s.expected_heap_len ≤ 2 ^ 63
      → heap_offset s ts prior_ts ≡ some (2 ^ 64 - heaps_before * s.expected_heap_len)
  unfolding heap_offset
  heap_offset_before h near =
      let c : ℕ = heaps_before in
      let d : ℕ = prior_ts - ts in
      let split = div-add-mod (d + inc - 1) inc in
      let rest : ℕ = c * inc - d in
      let small : rest < inc = omega (arith, mod-lt (d + inc - 1) {m = inc} inc_pos) in
      let below : c * inc < q * inc = omega arith in
      let c_le : c < q = lt_of_mul-lt-mul_right inc {m = c} {n = q} below in
      let parts : q ≡ (q - c) + c = omega arith in
      let gone : sub64 ts prior_ts ≡ rest + (q - c) * inc =
        omega (arith, ap (λ (n : ℕ). n * inc) parts) in
      let quotient : sub64 ts prior_ts / inc ≡ q - c =
        ap (λ (n : ℕ). n / inc) gone ∙ wrapped_quotient inc q c rest inc_pos small (omega arith) in
      let c_pos : 0 < c = pos_of_mul-pos c inc (omega arith) in
      let some_bytes_before = mul-le-mul_right {m = 1} {n = c} s.expected_heap_len c_pos in
      let place : u64 ((q - c) * s.expected_heap_len) ≡ 2 ^ 64 - c * s.expected_heap_len = omega (
        arith,
        ap (λ (n : ℕ). n * s.expected_heap_len) parts,
        ap (λ (n : ℕ). q * n) heaps,
        ap (λ (n : ℕ). m * n) whole,
        pos_of_mul-pos m inc (omega arith),
      ) in
      ground (arith, inc_pos, ap (λ (n : ℕ). u64 (n * s.expected_heap_len)) quotient, place)

  -- A heap is dropped as late exactly when its timestamp is before the block's: away from the wrap
  -- of the timestamps, for an increment that divides both 2 ^ 64 and the length of a heap, and a
  -- heap that is at most 2 ^ 63 bytes away.
  pub heap_offset-is_late :
      heaps_before * s.expected_heap_len ≤ 2 ^ 63
      → (ts - prior_ts) / inc * s.expected_heap_len < 2 ^ 63
      → ts < 2 ^ 40
      → (offset : ℕ) × (heap_offset s ts prior_ts ≡ some offset)
        × (is_late offset ≡ ltb ts prior_ts)
  heap_offset-is_late near far stamp = elim (dec_lt ts prior_ts) [
    | yes h ↦ (2 ^ 64 - heaps_before * s.expected_heap_len, heap_offset_before h near, ground arith)
    | no h ↦
        let x : ℕ = ts - prior_ts in
        let later : prior_ts + x ≡ ts = omega arith in
        (
          u64 (x / inc * s.expected_heap_len),
          ap (λ (n : ℕ). heap_offset s n prior_ts) (sym later)
              ∙ heap_offset_forward s inc_pos prior_ts x (omega arith),
          ground arith,
        )
  ]
