-- ===== src/Fixture.antt =====
-- Small settings for tests: four heaps of two bytes in the order buffer, eight in a DADA block.
use incoherent_beamformer.Common.{pos}
use incoherent_beamformer.Settings.{Settings}

abbrev pub small : Settings
small = record {
  num_workers = 4;
  f_id_spead_id = 4096;
  timestamp_spead_id = 4097;
  timestamp_increment = 2;
  data_spead_id = 4098;
  timestamps_per_heap = 1;
  chan_per_heap = 1;
  pols = 2;
  bytes_per_sample = 1;
  expected_heap_len = 2;
  dada_buf_id = 0x1234;
  dada_num_readers = 1;
  dada_num_bufs = 8;
  num_heaps_per_buf = 8;
  dada_buf_size = 16;
  start_time = pos 1421072677;
  num_heaps_per_ob = 4;
  ob_size = 8;
  ob_segment = 2;
  ob_key = 0x10236;
  dpb_size = 128;
  dpb_key = 0x10237;
  dbp_sem_key = 0x10238;
  o_b_sem_key = 0x10240;
  num_bits_in_segment = 1;
  no_dropped_packets = 1;
}
