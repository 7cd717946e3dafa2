-- ===== src/HeadNode/Reader/Tests.antt =====
-- Two rounds of a thread that is the master.
use incoherent_beamformer.Common.{ℕ, true, [], ◌∷◌, Memory}
use incoherent_beamformer.HeadNode.Capture.{Reading}
use incoherent_beamformer.HeadNode.Reader.{Reader}

abbrev block : ℕ → Memory
block n = record { size = 524288; cell = λ i. n }

abbrev start : Reader
start = record {
  first_ts = 0;
  ts2 = 800;
  tsdiff2 = 800;
  block = block 1;
  ring = record { size = 671088640; cell = λ i. 0 };
  accumulated = block 0;
  num_vals = 0;
  stream = (1600, block 2) ∷ (2400, block 3) ∷ [];
  published = [];
}

abbrev as_master : Reading
as_master = record { tsync = 800; is_master = true; still_master = true }

abbrev cells : ℕ → ℕ
cells i = i
