-- ===== src/Callback/Invariant.antt =====
-- The shared data of the workers stays well formed, and a call does not fault.
use native.Mathlib.Nat.{
  div-add-mod, lt_of_mul-lt-mul_right, mul-le-mul_right, mod-lt, mod-mod_of_dvd, dvd_of_mod-eq-zero,
  mul-mod_left, add-mod_right,
}
use Prim.Native.Nat.{◌∣◌}
use incoherent_beamformer.Common.{
  ℕ, suc, List, ◌+◌, ◌*◌, ◌/◌, ◌%◌, ◌^◌, ◌≤◌, ◌<◌, ◌≡◌, inl, inr, ap, ◌∙◌, some, arith, Memory,
  length-set, u64,
}
use incoherent_beamformer.Settings.{Settings}
use incoherent_beamformer.Settings.Geometry.{IsGeometry}
use incoherent_beamformer.Callback.{
  SnapShot, Signal, Worker, System, Reply, ItemGroup, first_heap, accept_heap, spead_api_callback,
}
use incoherent_beamformer.Callback.Timestamp.{IsBytes, read_timestamp_bytes}
use incoherent_beamformer.Callback.Steps.{
  IsValid, Moves, Shares, Holds-map, spead_api_callback_cases, accept_heap-Returns,
}

-- The next place for a segment is in the block, or is the start of the next.
next_tail :
    (tail seg size b : ℕ)
    → size ≡ b * seg
    → size < 2 ^ 64
    → tail < size
    → tail % seg ≡ 0
    → (u64 (tail + seg) % size < size) × (u64 (tail + seg) % size % seg ≡ 0)
next_tail tail seg size b whole word below at =
    let a : ℕ = tail / seg in
    let place : tail ≡ a * seg = omega (arith, div-add-mod tail seg) in
    let room : a < b = lt_of_mul-lt-mul_right seg {m = a} {n = b} (omega arith) in
    let fits : tail + seg ≤ size = omega (arith, mul-le-mul_right {m = suc a} {n = b} seg room) in
    let unwrapped : u64 (tail + seg) ≡ tail + seg = omega arith in
    let divides : seg ∣ size =
      dvd_of_mod-eq-zero seg (ap (λ (n : ℕ). n % seg) whole ∙ mul-mod_left b seg) in
    (
      omega (arith, mod-lt (u64 (tail + seg)) {m = size} (omega arith)),
      mod-mod_of_dvd seg (u64 (tail + seg)) divides
          ∙ ap (λ (n : ℕ). n % seg) unwrapped
          ∙ add-mod_right tail seg
          ∙ at,
    )

Moves-IsValid :
    (s : Settings) (g : IsGeometry s) (ss ss' : SnapShot) {sent sent' : List (ℕ × Signal)}
    → s.dada_buf_size < 2 ^ 64
    → IsValid s ss
    → Moves s ss ss' sent sent'
    → IsValid s ss'
Moves-IsValid s g ss ss' word v m =
    let b : ℕ = s.num_heaps_per_buf / s.num_heaps_per_ob * 4 in
    let whole : s.dada_buf_size ≡ b * s.ob_segment = omega (
      arith,
      g.block,
      ap (λ (n : ℕ). s.num_heaps_per_buf / s.num_heaps_per_ob * n) g.order_buffer,
    ) in
    let next =
      next_tail ss.order_buffer_tail s.ob_segment s.dada_buf_size b whole word v.tail_in
        v.tail_at in
    ground (arith, next, length-set ss.prev_prior_ts ss.ppts_pos ss.prior_ts)

first_heap-IsValid :
    (s : Settings) (pid ts : ℕ) (ss : SnapShot)
    → ts < 2 ^ 40
    → IsValid s ss
    → IsValid s (first_heap pid ts ss)
unfolding first_heap
first_heap-IsValid s pid ts ss h v = ground arith

accept_heap-IsValid :
    (s : Settings) (g : IsGeometry s) (ts : ℕ) (heap : Memory) (ss : SnapShot) (sys : System)
    (w : Worker) {reply : Reply}
    → s.dada_buf_size < 2 ^ 64
    → ts < 2 ^ 40
    → IsValid s ss
    → accept_heap s ts heap ss sys w ≡ some reply
    → Shares (IsValid s) reply
accept_heap-IsValid s g ts heap ss sys w {reply} word stamp v h =
    let ss₁ = first_heap w.pid ts ss in
    Holds-map (λ ss'. Moves s ss₁ ss' sys.sent reply.0.sent) (IsValid s) reply.0.shared
      (λ ss' m. Moves-IsValid s g ss₁ ss' word (first_heap-IsValid s w.pid ts ss stamp v) m)
      (accept_heap-Returns s ts heap ss sys w h).1

-- Every call keeps the shared data well formed: the tail is a multiple of a segment inside the
-- block, the ring of ten block timestamps is intact, and the block's timestamp is at most
-- MAX_TS. The sizes must fit together and the timestamp item hold bytes.
pub spead_api_callback-IsValid :
    (s : Settings) (group : ItemGroup) (sys : System) (w : Worker) (ss : SnapShot) {reply : Reply}
    → IsGeometry s
    → s.dada_buf_size < 2 ^ 64
    → ((item : Memory) → group s.timestamp_spead_id ≡ some item → IsBytes item)
    → sys.shared ≡ some ss
    → IsValid s ss
    → spead_api_callback s group sys w ≡ some reply
    → Shares (IsValid s) reply
spead_api_callback-IsValid s group sys w ss {reply} g word bytes e v h =
    elim (spead_api_callback_cases s group sys w ss e h) [
      | inl refused ↦ rw (refused, e) v
      | inr (item, ts, heap, stamp, read, accepted) ↦
          accept_heap-IsValid s g ts heap ss sys w word
            (read_timestamp_bytes item (bytes item stamp) read).0 v accepted
    ]
