-- ===== src/Separated/Placed.antt =====
-- A heap in the order buffer, and its mark.
use native.Mathlib.Nat.{mod-lt, mul-div_cancel, mul-le-mul_right}
use incoherent_beamformer.Common.{
  ℕ, zero, suc, mul-mod-mul, ◌+◌, ◌*◌, ◌/◌, ◌%◌, ◌<◌, ◌≤◌, ◌≡◌, ◌∙◌, refl, ap, true, false, ◌||◌,
  ◌==◌, some, Memory, copied, memcpy_lem, arith,
}
use incoherent_beamformer.Settings.{done}
use incoherent_beamformer.Separated.{Sizes, Shared, write_to_order_buffer}
use incoherent_beamformer.PacketBits.{get_bit}
use incoherent_beamformer.PacketBits.Marks.{get_bit-set_bit}

-- The order buffer holds whole heaps, and the array of marks has a bit for each.
pub record HasPlaces (s : Sizes) (ss : Shared) : Type 0 where
  pub some_bytes : 0 < s.expected_heap_len
  pub some_heaps : 0 < s.num_heaps_per_ob
  pub whole : s.ob_size ≡ s.num_heaps_per_ob * s.expected_heap_len
  pub order : ss.order.size ≡ s.ob_size
  pub marks : s.num_heaps_per_ob ≤ ss.dropped.size * 32

pos_of_products : (n len : ℕ) → 0 < n → 0 < len → 0 < n * len
pos_of_products zero len h k = absurd (omega arith)
pos_of_products (suc n) len h k = omega arith

whole_heap : (q n len : ℕ) → q < n → q * len + len ≤ n * len
whole_heap q n len h = omega (arith, mul-le-mul_right {m = suc q} {n = n} len (omega arith))

pub write_to_order_buffer_lem :
    (s : Sizes) (heap : Memory) (heaps : ℕ) (ss : Shared)
    → HasPlaces s ss
    → s.expected_heap_len ≤ heap.size
    → (ss' : Shared) × (write_to_order_buffer s heap (heaps * s.expected_heap_len) ss ≡ done ss')
      × (ss'.order
          ≡ copied ss.order
              (heaps % s.num_heaps_per_ob * s.expected_heap_len)
              heap
              0
              s.expected_heap_len)
      × (get_bit 32 ss'.dropped (heaps % s.num_heaps_per_ob) ≡ some true)
unfolding write_to_order_buffer
write_to_order_buffer_lem s heap heaps ss places long =
    let n = s.num_heaps_per_ob in
    let len = s.expected_heap_len in
    let q = heaps % n in
    let below = mod-lt heaps {m = n} places.some_heaps in
    let size : s.ob_size ≡ n * len = places.whole in
    let some_size = pos_of_products n len places.some_heaps places.some_bytes in
    let divisors : (s.ob_size == 0 || len == 0) ≡ false = grind (arith, some_size, size) in
    let off : heaps * len % s.ob_size ≡ q * len =
      ap (λ (m : ℕ). heaps * len % m) size
      ∙ mul-mod-mul heaps n len places.some_heaps places.some_bytes in
    let place : q * len / len ≡ q = mul-div_cancel q places.some_bytes in
    let fits = whole_heap q n len below in
    let copies =
      memcpy_lem ss.order (q * len) heap 0 len (grind (arith, places.order)) (omega arith) in
    let (dropped', marks, marked) =
      get_bit-set_bit 32 ss.dropped q q (omega arith) (omega arith) (grind (arith, places.marks))
        (grind (arith, places.marks)) in
    let same : (q == q) ≡ true = ground arith in
    (
      record ss { order = copied ss.order (q * len) heap 0 len; dropped = dropped' },
      simp (divisors, off, copies, place, marks) refl,
      refl,
      simp same at marked,
    )
