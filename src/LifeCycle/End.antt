-- ===== src/LifeCycle/End.antt =====
-- Destroying the receiver after heaps have come.
use incoherent_beamformer.Common.{ℕ, ◌≡◌, ◌≢◌, Option, some, List, [], ◌∷◌, ◌>>=◌}
use incoherent_beamformer.Settings.{Settings}
use incoherent_beamformer.Callback.{SnapShot, Worker, System, ItemGroup, spead_api_callback}
use incoherent_beamformer.LifeCycle.{Module, call, locked, unlocked}

-- Calls of the callback, one after the other, each by a worker with its globals at that time.
unfoldable pub calls : Settings → List (ItemGroup × Worker) → System → Option System
calls s [] sys = some sys
calls s ((group, w) ∷ rest) sys = spead_api_callback s group sys w >>= λ reply. calls s rest reply.0

-- The master stays.
abbrev Keeps : SnapShot → SnapShot → Type 0
Keeps ss ss' = (ss'.master_pid ≡ ss.master_pid) × (ss'.first_thread ≡ ss.first_thread)

module _ (s : Settings) where
  -- The master, once there is one.
  abbrev IsMaster : ℕ → SnapShot → Type 0
  IsMaster pid ss = (ss.master_pid ≡ pid) × (ss.first_thread ≢ 0)

-- What setup leaves to a process that finds the shared data there.
abbrev joined : Module → Module
joined m = call unlocked (record (call locked m) {
  num_dropped_packets = 0;
  num_recieved_packets = 0;
  num_bytes_transferred = 0;
})
