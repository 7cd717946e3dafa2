-- ===== src/Callback/Total.antt =====
-- A call of `spead_api_callback` does not fault.
use native.Mathlib.Nat.{mul-le-mul_right, mul-le-mul, mod-lt}
use incoherent_beamformer.Common.{
  ℕ, suc, ◌+◌, ◌*◌, ◌/◌, ◌%◌, ◌^◌, ◌≤◌, ◌<◌, ◌≡◌, ◌≢◌, inl, inr, ap, ◌∙◌, none, some, arith, Memory,
  u64, sub64, refl, mul-mod-mul, pos_of_mul-pos, copied, leb, ltb, ◌&&◌, Option-cases, Bool-cases,
}
use incoherent_beamformer.Settings.{Settings}
use incoherent_beamformer.Settings.Geometry.{IsGeometry}
use incoherent_beamformer.OrderBuffer.Bounds.{write_to_order_buffer_lem}
use incoherent_beamformer.Callback.{
  SnapShot, Worker, System, Reply, ItemGroup, read_timestamp, heap_offset, next_block, advance_tail,
  move_on, place_at, place_heap, accept_heap, spead_api_callback, block_span, max_ts,
}

module _ (s : Settings) (g : IsGeometry s) (q : ℕ) (pos : 0 < s.timestamp_increment)
    (whole : 2 ^ 64 ≡ q * s.expected_heap_len) (some_block : 0 < s.dada_buf_size) where
  q_pos : 0 < q
  q_pos = pos_of_mul-pos q s.expected_heap_len (omega arith)

  some_bytes : 0 < s.expected_heap_len
  some_bytes = pos_of_mul-pos s.expected_heap_len q (omega arith)

  order_pos : 0 < s.ob_size
  order_pos = omega (
    arith,
    mul-le-mul {n₁ = 1} {m₁ = 1} {n₂ = s.num_bits_in_segment} {m₂ = s.expected_heap_len}
        g.some_heaps some_bytes,
    g.segment,
    g.order_buffer,
  )

  -- The place of a heap, also after a wrap of the offset.
  place_fits : (x : ℕ) → u64 (x * s.expected_heap_len) % s.ob_size + s.expected_heap_len ≤ s.ob_size
  place_fits x =
      let len = s.expected_heap_len in
      let heaps = s.num_heaps_per_ob in
      let size : s.ob_size ≡ heaps * len =
        omega (arith, g.order_buffer, g.segment, ap (λ (n : ℕ). n * len) g.heaps) in
      let offset : u64 (x * len) ≡ x % q * len =
        ap (λ (n : ℕ). x * len % n) whole ∙ mul-mod-mul x q len q_pos some_bytes in
      let place : u64 (x * len) % s.ob_size ≡ x % q % heaps * len =
        ap (λ (n : ℕ). n % s.ob_size) offset
        ∙ ap (λ (n : ℕ). x % q * len % n) size
        ∙ mul-mod-mul (x % q) heaps len (omega (arith, g.heaps, g.some_heaps)) some_bytes in
      let below : x % q % heaps < heaps = mod-lt (x % q) (omega (arith, g.heaps, g.some_heaps)) in
      omega (arith, mul-le-mul_right {m = suc (x % q % heaps)} {n = heaps} len below)

  offset_multiple :
      (ts prior_ts : ℕ)
      → (x : ℕ) × (heap_offset s ts prior_ts ≡ some (u64 (x * s.expected_heap_len)))
  unfolding heap_offset
  offset_multiple ts prior_ts =
      elim (Bool-cases (leb ts (block_span s) && ltb (block_span s) prior_ts)) [
        | inl wrapped ↦
            ((sub64 max_ts prior_ts + ts) % 2 ^ 64 / s.timestamp_increment, ground arith)
        | inr straight ↦ (sub64 ts prior_ts / s.timestamp_increment, ground arith)
      ]

  move_on_total :
      (offset : ℕ) (ss : SnapShot) (sys : System) (w : Worker) → move_on s offset ss sys w ≢ none
  unfolding move_on next_block advance_tail
  move_on_total offset ss sys w h = ground arith

  place_heap_total :
      (ts : ℕ) (heap : Memory) (ss : SnapShot) (sys : System) (w : Worker)
      → s.ob_size ≤ sys.order.size
      → s.expected_heap_len ≤ heap.size
      → place_heap s ts heap ss sys w ≢ none
  unfolding place_heap place_at
  place_heap_total ts heap ss sys w room fits h =
      let (x, at) = offset_multiple ts w.prior_ts in
      let len = s.expected_heap_len in
      let p : ℕ = u64 (x * len) % s.ob_size in
      let written =
        write_to_order_buffer_lem s sys.order heap (u64 (x * len)) p refl order_pos
          (omega (arith, place_fits x)) fits in
      ground (
        arith,
        at,
        written,
        move_on_total (u64 (x * len)) ss (record sys { order = copied sys.order p heap 0 len }) w,
      )

  accept_heap_total :
      (ts : ℕ) (heap : Memory) (ss : SnapShot) (sys : System) (w : Worker)
      → s.ob_size ≤ sys.order.size
      → s.expected_heap_len ≤ heap.size
      → accept_heap s ts heap ss sys w ≢ none
  unfolding accept_heap
  accept_heap_total ts heap ss sys w room fits h = grind (arith, place_heap_total)

  read_timestamp_total : (item : Memory) → 5 ≤ item.size → read_timestamp item ≢ none
  unfolding read_timestamp
  read_timestamp_total item h e = ground arith

  callback-ne-none :
      (group : ItemGroup) (sys : System) (w : Worker)
      → s.ob_size ≤ sys.order.size
      → ((item : Memory) → group s.timestamp_spead_id ≡ some item → 5 ≤ item.size)
      → spead_api_callback s group sys w ≢ none
  unfolding spead_api_callback
  callback-ne-none group sys w room stamps e =
      grind (arith, accept_heap_total, read_timestamp_total)

  -- A call returns, without a division by zero or an access out of range: when the sizes fit
  -- together, a DADA block is not empty, a heap's length divides 2 ^ 64, the time increment is not 0,
  -- the order buffer has at least its size and a timestamp item, if there is one, has five bytes.
  pub spead_api_callback_total :
      (group : ItemGroup) (sys : System) (w : Worker)
      → s.ob_size ≤ sys.order.size
      → ((item : Memory) → group s.timestamp_spead_id ≡ some item → 5 ≤ item.size)
      → (reply : Reply) × (spead_api_callback s group sys w ≡ some reply)
  spead_api_callback_total group sys w room stamps =
      elim (Option-cases (spead_api_callback s group sys w)) [
        | inl fault ↦ absurd (callback-ne-none group sys w room stamps fault)
        | inr returned ↦ returned
      ]
