-- ===== src/BufferTool/Waiting.antt =====
-- The loop that waits for the right to write.
use incoherent_beamformer.Common.{
  ℕ, zero, suc, ◌≤◌, ◌≡◌, refl, true, some, Bool-cases, inl, inr, arith,
}
use incoherent_beamformer.BufferTool.{IpcBuf}
use incoherent_beamformer.BufferTool.Produce.{wait_writer}

module _ {ℓ} {B : Type ℓ} (ipc : IpcBuf B) where
  -- The ring after some attempts.
  abbrev pub attempts : ℕ → B → B
  attempts zero b = b
  attempts (suc n) b = attempts n (ipc.lock_write b)

  wait_writer-now : (fuel : ℕ) (b : B) → ipc.is_writer b ≡ true → wait_writer ipc fuel b ≡ some b
  unfolding wait_writer
  wait_writer-now zero b now = simp now refl
  wait_writer-now (suc fuel) b now = simp now refl

  -- Where some attempt makes the process the writer, the loop ends, after that attempt
  -- at the latest, with the process as the writer; that many rounds are enough fuel.
  pub wait_writer_lem :
      (enough fuel : ℕ) (b : B)
      → ipc.is_writer (attempts enough b) ≡ true
      → enough ≤ fuel
      → (n : ℕ) × (n ≤ enough)
        × (wait_writer ipc fuel b ≡ some (attempts n b))
        × (ipc.is_writer (attempts n b) ≡ true)
  unfolding wait_writer
  wait_writer_lem zero fuel b writer room = (0, omega arith, wait_writer-now fuel b writer, writer)
  wait_writer_lem (suc enough) zero b writer room = absurd (omega arith)
  wait_writer_lem (suc enough) (suc fuel) b writer room = elim (Bool-cases (ipc.is_writer b)) [
    | inl now ↦ (0, omega arith, simp now refl, now)
    | inr later ↦
        let (n, few, ends, is) =
          wait_writer_lem enough fuel (ipc.lock_write b) writer (omega arith) in
        (suc n, omega arith, simp later ends, is)
  ]
