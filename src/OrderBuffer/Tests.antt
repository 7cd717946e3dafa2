-- ===== src/OrderBuffer/Tests.antt =====
-- Heaps 2, 0 and 3 of a window arrive, and heap 1 does not.
use incoherent_beamformer.Common.{
  ℕ, ◌+◌, ◌≡◌, refl, some, List, [], ◌∷◌, arith, Memory, memcpy, memset, Option, none,
}
use mathlib.Core.List.{map}
use incoherent_beamformer.Settings.Geometry.{IsGeometry}
use incoherent_beamformer.OrderBuffer.{Writer, write_to_order_buffer, to_dada_buffer}
use incoherent_beamformer.OrderBuffer.Reorder.{Heap, IsReordered, receive, transfers, reorder}
use incoherent_beamformer.Fixture.{small}

abbrev blank : ℕ → Memory
blank n = record { size = n; cell = λ i. 0 }

abbrev heap_of : ℕ → Memory
heap_of v = record { size = 2; cell = λ i. v + i }

abbrev arrivals : List Heap
arrivals = (2, heap_of 50) ∷ (0, heap_of 10) ∷ (3, heap_of 70) ∷ []

small-IsGeometry : IsGeometry small
small-IsGeometry = omega arith

-- The bytes of the block from place 8 on, after four segments.
abbrev moved_bytes : Option Writer → List ℕ
moved_bytes none = []
moved_bytes (some w) = elim w.buffer [
  | none ↦ []
  | some b ↦ map b.cell (8 ∷ 9 ∷ 10 ∷ 11 ∷ 12 ∷ 13 ∷ 14 ∷ 15 ∷ [])
]

missing_heap_is_zero :
    moved_bytes (
      transfers small 4 (record {
        buffer = some (blank 16);
        order_buffer = receive small 8 arrivals (some (blank 8));
        order_buffer_tail = 8;
      }))
    ≡ 10 ∷ 11 ∷ 0 ∷ 0 ∷ 50 ∷ 51 ∷ 70 ∷ 71 ∷ []
unfolding receive transfers write_to_order_buffer to_dada_buffer memcpy memset
missing_heap_is_zero = refl

reorder_example : IsReordered small 8 arrivals (blank 16) (blank 8)
reorder_example =
    reorder small 8 arrivals (blank 16) (blank 8) small-IsGeometry (omega arith) (omega arith)
      (omega arith) (omega arith) (omega arith) (omega arith) (omega arith) (λ p. ground arith)
      (omega arith)
