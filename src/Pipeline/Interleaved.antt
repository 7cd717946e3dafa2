-- ===== src/Pipeline/Interleaved.antt =====
-- Several workers and the process of the block in any order. A signal is pending or not: one that is
-- sent while its like is pending is lost, as POSIX has it, and the process takes either first.
mod Tests
use incoherent_beamformer.Common.{
  ℕ, suc, ◌≡◌, ◌==◌, Bool, true, false, if◌then◌else◌, Option, some, List, [], ◌∷◌, Memory,
}
use incoherent_beamformer.Settings.{Settings}
use incoherent_beamformer.Callback.{
  SnapShot, Worker, Signal, sigusr1, sigusr2, sigint, System, ItemGroup, Reply, spead_api_callback,
}
use incoherent_beamformer.DadaThread.{Dada, running, handle}
use incoherent_beamformer.Pipeline.{quiet, with_order}

-- The workers by their numbers, and the pending signals. `lost1` and `lost2` only count what was
-- lost; nothing reads them.
pub record World : Type 0 where
  pub system : System
  pub workers : ℕ → Worker
  pub dada : Dada
  pub usr1 : Bool
  pub usr2 : Bool
  pub lost1 : ℕ
  pub lost2 : ℕ

abbrev pub one_more : Bool → ℕ → ℕ
one_more is_pending lost = if is_pending then suc lost else lost

-- A signal is sent to the process of the block. No worker sends SIGINT.
unfoldable pub send_to : Signal → World → World
send_to sigusr1 w = record w { usr1 = true; lost1 = one_more w.usr1 w.lost1 }
send_to sigusr2 w = record w { usr2 = true; lost2 = one_more w.usr2 w.lost2 }
send_to sigint w = w

-- The signals of a call, in their order.
unfoldable pub send_all : List (ℕ × Signal) → World → World
send_all [] w = w
send_all ((pid, signal) ∷ rest) w = send_all rest (send_to signal w)

-- A worker is left with its globals after a call, and the shared state with what the call made of it.
abbrev pub after_call : World → ℕ → Reply → World
after_call w i reply = record w {
  system = quiet reply.0;
  workers = λ j. if j == i then reply.1 else w.workers j;
}

module _ (s : Settings) (blocks : ℕ → Option Memory) where
  -- A worker takes a heap, or the process of the block takes a signal and handles it.
  pub data Step : World → World → Type 0 where
    heap :
        (w : World) (i : ℕ) (group : ItemGroup) (reply : Reply)
        → spead_api_callback s group (quiet w.system) (w.workers i) ≡ some reply
        → Step w (send_all reply.0.sent (after_call w i reply))
    segment :
        (w : World) (ss : SnapShot) (d : Dada) (order : Memory)
        → w.usr1 ≡ true
        → w.system.shared ≡ some ss
        → handle s blocks ss sigusr1 (with_order w.system.order w.dada) ≡ some (d, running)
        → d.writer.order_buffer ≡ some order
        → Step w (record w { usr1 = false; dada = d; system = record (w.system) { order = order } })
    block :
        (w : World) (ss : SnapShot) (d : Dada)
        → w.usr2 ≡ true
        → w.system.shared ≡ some ss
        → handle s blocks ss sigusr2 (with_order w.system.order w.dada) ≡ some (d, running)
        → Step w (record w { usr2 = false; dada = d })

  pub data Reach (w : World) : World → Type 0 where
    here : Reach w w
    next : {u v : World} → Reach w u → Step u v → Reach w v
