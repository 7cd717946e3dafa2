-- ===== src/DadaThread/Headers.antt =====
-- The timestamp that goes with a block.
use incoherent_beamformer.Settings.{Settings}
