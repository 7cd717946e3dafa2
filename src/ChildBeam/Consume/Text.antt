-- ===== src/ChildBeam/Consume/Text.antt =====
-- The text of a heap's description.
use incoherent_beamformer.Common.{ℕ, zero, suc, ◌*◌, ◌/◌, ◌^◌, ◌≡◌, ◌<◌, ◌≤◌, true, arith}
use incoherent_beamformer.ChildBeam.Consume.{digits, text_fits}

digits_bound : (left k n : ℕ) → n < 10 ^ suc k → digits left n ≤ suc k
unfolding digits
digits_bound zero k n h = omega arith
digits_bound (suc left) zero n h = ground arith
digits_bound (suc left) (suc k) n h =
    let power : 10 ^ suc (suc k) ≡ 10 * 10 ^ suc k = omega arith in
    let small : n / 10 < 10 ^ suc k = omega arith in
    let rest = digits_bound left k (n / 10) small in ground arith

pub text_fits_lem : (n : ℕ) → n < 10 ^ 11 → text_fits n ≡ true
unfolding text_fits
text_fits_lem n h = let small = digits_bound 19 10 n h in ground arith
