-- ===== src/OrderBuffer/Reorder.antt =====
-- What the order buffer is for: heaps that arrive in any order leave it in the order of their
-- offsets, and what did not arrive is zero.
use native.Mathlib.Nat.{mod-eq_of_lt, mul-le-mul, mul-le-mul_right, zero-add}
use incoherent_beamformer.Common.{
  ℕ, zero, suc, ◌+◌, ◌-◌, ◌*◌, ◌%◌, ◌^◌, ◌≤◌, ◌<◌, ◌≡◌, refl, Option, some, List, [], ◌∷◌, arith,
  ap, sym, ◌∙◌, if◌then◌else◌, ltb, Bool-cases, inl, inr, mod-add_multiple, Memory, within, copied,
  filled, ◌>>=◌,
}
use incoherent_beamformer.Settings.{Settings}
use incoherent_beamformer.Settings.Geometry.{IsGeometry}
use incoherent_beamformer.OrderBuffer.{Writer, write_to_order_buffer, to_dada_buffer}
use incoherent_beamformer.OrderBuffer.Bounds.{write_to_order_buffer_lem, to_dada_buffer_lem}

-- Heap number `n`, counted from the tail, with its bytes.
abbrev pub Heap : Type 0
Heap = ℕ × Memory

-- The heaps in the order of their arrival.
unfoldable pub receive : Settings → ℕ → List Heap → Option Memory → Option Memory
receive s tail [] order = order
receive s tail ((n, heap) ∷ heaps) order =
    receive s tail heaps (write_to_order_buffer s order heap (tail + n * s.expected_heap_len))

-- `k` segments moved.
unfoldable pub transfers : Settings → ℕ → Writer → Option Writer
transfers s zero w = some w
transfers s (suc k) w = do w' ← transfers s k w; to_dada_buffer s w'

-- The specification: the byte at place `p` is that of the last heap to cover it, or `before`.
abbrev pub placed : Settings → List Heap → ℕ → ℕ → ℕ
placed s [] before p = before
placed s ((n, heap) ∷ heaps) before p =
    let off = n * s.expected_heap_len in
    placed s heaps (if within off s.expected_heap_len p then heap.cell (p - off) else before) p

-- Every heap belongs to the `count` heaps from the tail on, and has all its bytes.
abbrev pub InWindow : Settings → ℕ → List Heap → Type 0
InWindow s count [] = Unit
InWindow s count ((n, heap) ∷ heaps) =
    ((n < count) × (s.expected_heap_len ≤ heap.size)) × InWindow s count heaps

module _ (s : Settings) (g : IsGeometry s) (tail : ℕ) (aligned : tail % s.ob_size ≡ 0)
    (some_bytes : 0 < s.expected_heap_len) where
  -- A heap of the window ends within the order buffer.
  heap_fits :
      (n : ℕ) → n < s.num_heaps_per_ob → n * s.expected_heap_len + s.expected_heap_len ≤ s.ob_size
  heap_fits n h = omega (
    arith,
    mul-le-mul_right {m = n + 1} {n = s.num_heaps_per_ob} s.expected_heap_len (omega arith),
    ap (λ (m : ℕ). m * s.expected_heap_len) g.heaps,
    g.segment,
    g.order_buffer,
  )

  segment_pos : 0 < s.ob_segment
  segment_pos = omega (
    arith,
    mul-le-mul {n₁ = 1} {m₁ = 1} {n₂ = s.num_bits_in_segment} {m₂ = s.expected_heap_len}
        g.some_heaps some_bytes,
    g.segment,
  )

  segment_fits : (k : ℕ) → suc k ≤ 4 → k * s.ob_segment + s.ob_segment ≤ s.ob_size
  segment_fits k h =
      omega (arith, mul-le-mul_right {m = suc k} {n = 4} s.ob_segment h, g.order_buffer)

  receive_lem :
      (heaps : List Heap) (order : Memory)
      → s.ob_size ≤ order.size
      → InWindow s s.num_heaps_per_ob heaps
      → (order' : Memory) × (receive s tail heaps (some order) ≡ some order')
        × (order'.size ≡ order.size)
        × ((p : ℕ) → order'.cell p ≡ placed s heaps (order.cell p) p)
  unfolding receive
  receive_lem [] order room h = (order, refl, refl, λ p. refl)
  receive_lem ((n, heap) ∷ heaps) order room h =
      let len = s.expected_heap_len in
      let fits = heap_fits n h.0.0 in
      let written =
        write_to_order_buffer_lem s order heap (tail + n * len) (n * len)
          (mod-add_multiple tail (n * len) s.ob_size aligned (omega arith)) (omega arith)
          (omega arith) h.0.1 in
      let rest = receive_lem heaps (copied order (n * len) heap 0 len) room h.1 in
      rw written (
        rest.0,
        rest.1,
        rest.2,
        λ p.
            rest.3 p
            ∙ ap
                (λ (i : ℕ).
                  placed s heaps (if within (n * len) len p then heap.cell i else order.cell p) p)
                (zero-add (p - n * len)),
      )

  module _ (below : tail + s.ob_size ≤ s.dada_buf_size) (word : s.dada_buf_size < 2 ^ 64)
      (small : s.ob_size ≤ 2 ^ 31) (block order : Memory) (wide : s.dada_buf_size ≤ block.size)
      (room : s.ob_size ≤ order.size) where
    abbrev start : Writer
    start = record { buffer = some block; order_buffer = some order; order_buffer_tail = tail }

    in_block : (tail + 0 * s.ob_segment) % s.dada_buf_size ≡ tail
    in_block =
        mod-eq_of_lt {n = tail + 0 * s.ob_segment} {m = s.dada_buf_size}
          (omega (arith, segment_pos, g.order_buffer))
        ∙ omega arith

    -- The state after `k` of the four segments.
    transfers_lem :
        (k : ℕ)
        → k ≤ 4
        → (block' order' : Memory) × (transfers s k start
            ≡ some (record {
              buffer = some block';
              order_buffer = some order';
              order_buffer_tail = (tail + k * s.ob_segment) % s.dada_buf_size;
            }))
          × (block'.size ≡ block.size)
          × (order'.size ≡ order.size)
          × ((i : ℕ)
              → block'.cell i ≡ (
                  if within tail (k * s.ob_segment) i then order.cell (i - tail) else block.cell i))
          × ((p : ℕ) → order'.cell p ≡ (if ltb p (k * s.ob_segment) then 0 else order.cell p))
    unfolding transfers
    transfers_lem zero h = (
      block,
      order,
      ap (λ (n : ℕ). some (record start { order_buffer_tail = n })) (sym in_block),
      refl,
      refl,
      λ i. ground arith,
      λ p. ground arith,
    )
    transfers_lem (suc k) h =
        let seg = s.ob_segment in
        let (block', order', runs, block_size, order_size, block_cells, order_cells) =
          transfers_lem k (omega arith) in
        let inside : k * seg + seg ≤ s.ob_size = segment_fits k h in
        let place : (tail + k * seg) % s.ob_size ≡ k * seg =
          mod-add_multiple tail (k * seg) s.ob_size aligned (omega (arith, segment_pos)) in
        let at_tail : (tail + k * seg) % s.dada_buf_size ≡ tail + k * seg =
          mod-eq_of_lt {n = tail + k * seg} {m = s.dada_buf_size} (omega (arith, segment_pos)) in
        let moved =
          to_dada_buffer_lem s block' order' (tail + k * seg) (k * seg) place
            (omega (arith, segment_pos)) (omega (arith, segment_pos)) (omega arith)
            (omega (arith, segment_pos)) word (omega arith) (omega arith) in
        let next : tail + k * seg + seg ≡ tail + suc k * seg = omega arith in
        (
          copied block' (tail + k * seg) order' (k * seg) seg,
          filled order' (k * seg) 0 seg,
          rw (runs, at_tail, moved, next),
          block_size,
          order_size,
          λ i. ground (arith, block_cells i, order_cells (k * seg + (i - (tail + k * seg)))),
          λ p. ground (arith, order_cells p),
        )

-- The order buffer's own cells are zero.
abbrev pub IsZeroed : Settings → Memory → Type 0
IsZeroed s order = (p : ℕ) → (if ltb p s.ob_size then order.cell p else 0) ≡ 0

-- What is left when the heaps of a window have come and its four segments have gone.
pub record IsReordered (s : Settings) (tail : ℕ) (heaps : List Heap) (block order : Memory)
    : Type 0 where
  pub received : Memory
  pub block' : Memory
  pub order' : Memory
  pub receives : receive s tail heaps (some order) ≡ some received
  pub moves :
      transfers s 4
        (record { buffer = some block; order_buffer = some received; order_buffer_tail = tail })
      ≡ some (record {
        buffer = some block';
        order_buffer = some order';
        order_buffer_tail = (tail + s.ob_size) % s.dada_buf_size;
      })
  pub in_place :
      (i : ℕ)
      → block'.cell i
        ≡ (if within tail s.ob_size i then placed s heaps 0 (i - tail) else block.cell i)
  pub zeroed : IsZeroed s order'
  pub sizes : (block'.size ≡ block.size) × (order'.size ≡ order.size)

-- From a zeroed order buffer and a tail at a multiple of its size: when heaps of the window of
-- one order buffer have been received, in any order, and four segments have been moved, neither
-- step faults; the window's place in the DADA block holds at each offset the byte of the last
-- heap received for it, and 0 where no heap was received; the rest of the block is unchanged;
-- the order buffer is zeroed again and the tail has gone on by its size.
-- The sizes must fit together (`IsGeometry`), the order buffer be at most 2 ^ 31 bytes, and the
-- window end within the block.
pub reorder :
    (s : Settings) (tail : ℕ) (heaps : List Heap) (block order : Memory)
    → IsGeometry s
    → 0 < s.expected_heap_len
    → tail % s.ob_size ≡ 0
    → tail + s.ob_size ≤ s.dada_buf_size
    → s.dada_buf_size < 2 ^ 64
    → s.ob_size ≤ 2 ^ 31
    → s.dada_buf_size ≤ block.size
    → s.ob_size ≤ order.size
    → IsZeroed s order
    → InWindow s s.num_heaps_per_ob heaps
    → IsReordered s tail heaps block order
reorder s tail heaps block order g some_bytes aligned below word small wide room zero_cells window =
    let (received, receives, size, cells) =
      receive_lem s g tail aligned some_bytes heaps order room window in
    let (block', order', moves, block_size, order_size, block_cells, order_cells) =
      transfers_lem s g tail aligned some_bytes below word small block received wide (omega arith) 4
        (omega arith) in
    let quarter : 4 * s.ob_segment ≡ s.ob_size = sym g.order_buffer in
    record {
      received = received;
      block' = block';
      order' = order';
      receives = receives;
      moves =
          moves
          ∙ ap
              (λ (n : ℕ). some (record {
                buffer = some block';
                order_buffer = some order';
                order_buffer_tail = (tail + n) % s.dada_buf_size;
              }))
              quarter;
      in_place = λ i. elim (Bool-cases (within tail s.ob_size i)) [
        | inl inside ↦
            let moved : block'.cell i ≡ received.cell (i - tail) = ground (arith, block_cells i) in
            let was_zero : order.cell (i - tail) ≡ 0 = ground (arith, zero_cells (i - tail)) in
            rw inside
              (moved ∙ cells (i - tail) ∙ ap (λ (v : ℕ). placed s heaps v (i - tail)) was_zero)
        | inr outside ↦
            let kept : block'.cell i ≡ block.cell i = ground (arith, block_cells i) in
            rw outside kept
      ];
      zeroed = λ p. ground (arith, order_cells p);
      sizes = (block_size, omega arith);
    }
