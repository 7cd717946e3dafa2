-- ===== src/Callback/Timestamp.antt =====
-- The five-byte timestamps that `spead_api_callback` reads.
use incoherent_beamformer.Common.{ℕ, ◌/◌, ◌%◌, ◌^◌, ◌<◌, ◌≡◌, some, arith, Memory}
use incoherent_beamformer.Callback.{read_timestamp}

-- The item that a sender makes of a timestamp: its lowest byte first.
abbrev pub timestamp_item : ℕ → Memory
timestamp_item ts = record { size = 5; cell = λ i. ts / 256 ^ i % 256 }

-- The five cells that are read are bytes.
abbrev pub IsBytes : Memory → Type 0
IsBytes item =
    (item.cell 0 < 256)
    × (item.cell 1 < 256)
    × (item.cell 2 < 256)
    × (item.cell 3 < 256)
    × (item.cell 4 < 256)

-- Every timestamp below 2 ^ 40 is read back from its five bytes.
pub read_timestamp-timestamp_item :
    (ts : ℕ) → ts < 2 ^ 40 → read_timestamp (timestamp_item ts) ≡ some ts
unfolding read_timestamp
read_timestamp-timestamp_item ts h = ground arith

-- What is read from an item of bytes is below 2 ^ 40, and its five bytes are the item's.
pub read_timestamp_bytes :
    (item : Memory) {ts : ℕ}
    → IsBytes item
    → read_timestamp item ≡ some ts
    → (ts < 2 ^ 40)
      × ((timestamp_item ts).cell 0 ≡ item.cell 0)
      × ((timestamp_item ts).cell 1 ≡ item.cell 1)
      × ((timestamp_item ts).cell 2 ≡ item.cell 2)
      × ((timestamp_item ts).cell 3 ≡ item.cell 3)
      × ((timestamp_item ts).cell 4 ≡ item.cell 4)
unfolding read_timestamp
read_timestamp_bytes item b h = ground arith
