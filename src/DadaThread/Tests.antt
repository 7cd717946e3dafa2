-- ===== src/DadaThread/Tests.antt =====
-- The process of the block at the end of a block.
use incoherent_beamformer.Common.{◌+◌, some, [], ◌∷◌, Memory}
use incoherent_beamformer.Callback.{SnapShot}
use incoherent_beamformer.DadaThread.{Dada}

abbrev old : Memory
old = record { size = 16; cell = λ i. 1 }

abbrev fresh : Memory
fresh = record { size = 16; cell = λ i. 0 }

abbrev order : Memory
order = record { size = 8; cell = λ i. 50 + i }

abbrev ss : SnapShot
ss = record {
  num_heaps = 9;
  parent_pid = 100;
  order_buffer_tail = 12;
  master_pid = 101;
  prior_ts = 1000;
  prev_prior_ts = 0 ∷ 0 ∷ 0 ∷ 0 ∷ 0 ∷ 0 ∷ 0 ∷ 0 ∷ 0 ∷ 0 ∷ [];
  ppts_pos = 9;
  buffer_created = 0;
  buffer_connected = 1;
  first_thread = 1;
  dada_key = 0x1234;
  ob_id = 5;
  dpb_id = 6;
  order_buffer_read_pos = 0;
  o_b_sem_id = 9;
}

abbrev dada : Dada
dada = record {
  writer = record { buffer = some old; order_buffer = some order; order_buffer_tail = 12 };
  ppts_pos = 9;
  opened = 1;
  events = [];
}
