-- ===== src/PulseDetector/Stamp.antt =====
-- The timestamps that the pulse detector reads as an `int`.
use incoherent_beamformer.Common.{ℕ, ◌^◌, ◌<◌, ◌≡◌, some, none, arith, ltb, if◌then◌else◌}
use incoherent_beamformer.Callback.Timestamp.{timestamp_item}
use incoherent_beamformer.PulseDetector.{read_int_timestamp}

-- From the five bytes of a timestamp below 2 ^ 40, the detector reads that timestamp if it is below
-- 2 ^ 31; for any other the sum overflows the `int`.
pub read_int_timestamp-timestamp_item :
    (ts : ℕ)
    → ts < 2 ^ 40
    → read_int_timestamp (timestamp_item ts) ≡ (if ltb ts (2 ^ 31) then some ts else none)
unfolding read_int_timestamp
read_int_timestamp-timestamp_item ts h = ground arith
