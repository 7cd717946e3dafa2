-- ===== src/HeadNode/Reader/Each.antt =====
-- Every block that is read is added once.
use incoherent_beamformer.Common.{
  ℕ, zero, suc, ◌/◌, ◌≤◌, ◌≡◌, Option, none, some, List, [], ◌∷◌, length, sub64, wrap, Memory,
  ◌>>=◌,
}
use incoherent_beamformer.Accumulate.{accumulate}
use incoherent_beamformer.ChildBeam.{malloc}
use incoherent_beamformer.HeadNode.{bf_align}
use incoherent_beamformer.HeadNode.Capture.{out_buffer_size, position}
use incoherent_beamformer.HeadNode.Reader.{Reader, Progress, going, waiting, crashed}

-- The blocks from the open one on, with their times since the first timestamp.
abbrev pub timed : ℕ → List (ℕ × Memory) → List (ℕ × Memory)
timed first_ts [] = []
timed first_ts ((ts, block) ∷ rest) = (sub64 ts first_ts, block) ∷ timed first_ts rest

abbrev pub from_open : Reader → List (ℕ × Memory)
from_open c = (c.tsdiff2, c.block) ∷ timed c.first_ts c.stream

abbrev pub drop : ℕ → List (ℕ × Memory) → List (ℕ × Memory)
drop zero blocks = blocks
drop (suc n) [] = []
drop (suc n) (b ∷ blocks) = drop n blocks

-- The ring with the accumulated values of a block added at the place for its time.
abbrev pub with_values : (ℕ → ℕ) → ℕ → ℕ × Memory → Memory → Option Memory
with_values cells size (tsdiff2, block) ring = position tsdiff2 >>= λ pos1.
    accumulate block (malloc 67108864 cells) size >>= λ acc.
    bf_align acc.0 ring (wrap 64 acc.1) pos1 (out_buffer_size / 2)

-- The first `n` blocks added to the ring, one after the other; `none` is a fault.
abbrev pub first_added : (ℕ → ℕ) → ℕ → ℕ → List (ℕ × Memory) → Memory → Option Memory
first_added cells size zero blocks ring = some ring
first_added cells size (suc n) [] ring = some ring
first_added cells size (suc n) (b ∷ blocks) ring =
    with_values cells size b ring >>= first_added cells size n blocks

-- The `n` first blocks from the open one on are added; the one that is open then is the next, or
-- all of them are added and there is no next; or the last of the `n` faults.
abbrev pub After : (ℕ → ℕ) → ℕ → ℕ → Reader → Progress → Type 0
After cells size n c (going c') =
    (first_added cells size n (from_open c) c.ring ≡ some c'.ring)
    × (from_open c' ≡ drop n (from_open c))
After cells size n c (waiting c') =
    (first_added cells size n (from_open c) c.ring ≡ some c'.ring) × (n ≡ length (from_open c))
After cells size n c crashed =
    (first_added cells size n (from_open c) c.ring ≡ none) × (n ≤ length (from_open c))

module _ (cells : ℕ → ℕ) (size : ℕ) where
  AreAdded : Reader → Progress → Type 0
  AreAdded c o = (n : ℕ) × After cells size n c o
