-- ===== src/ChildBeam/Drain/Tests.antt =====
-- Three and two blocks wait, and one more of the second stream comes.
use incoherent_beamformer.Common.{ℕ, ◌+◌, ◌≤◌, ◌<◌, ◌^◌, ◌==◌, if◌then◌else◌, arith}
use incoherent_beamformer.ChildBeam.Drain.{IsDrained, drain_lem}

abbrev written1 : ℕ → ℕ
written1 n = 8

abbrev written2 : ℕ → ℕ
written2 n = if n == 0 then 4 else 5

written1-grows : (i : ℕ) → (written1 i ≤ written1 (i + 1)) × (written1 i ≤ 8)
written1-grows i = (omega arith, omega arith)

written2-grows : (i : ℕ) → (written2 i ≤ written2 (i + 1)) × (written2 i < 2 ^ 64)
written2-grows i = (ground arith, ground arith)

drain_lem_example : (k : ℕ) × IsDrained written1 written2 4 0 5 2 k
drain_lem_example =
    drain_lem written1 written2 4 0 5 2 8 (omega arith) (omega arith) (omega arith) written1-grows
      written2-grows (omega arith)
