-- ===== src/Separated/Tests.antt =====
-- Four heaps of two bytes in the order buffer, eight in a DADA block.
use incoherent_beamformer.Common.{
  ◌+◌, ◌%◌, ◌≡◌, refl, true, [], ◌==◌, if◌then◌else◌, u64, Memory, arith,
}
use incoherent_beamformer.Settings.{done}
use incoherent_beamformer.Separated.{Sizes, Shared, Process, move_on}
use incoherent_beamformer.Separated.Segments.{move_on_lem}

abbrev sizes : Sizes
sizes = record {
  timestamp_spead_id = 4097;
  timestamp_increment = 2;
  data_spead_id = 4098;
  expected_heap_len = 2;
  num_heaps_per_buf = 8;
  dada_buf_size = 16;
  num_heaps_per_ob = 4;
  ob_size = 8;
  ob_segment = 2;
  ob_key = 1;
  dpb_size = 4;
  dpb_key = 2;
  dbp_sem_key = 3;
}

abbrev shared : Shared
shared = record {
  master_pid = 101;
  prior_ts = 1000;
  bd_order_buffer_tail = 0;
  transfer = 0;
  order = record { size = 8; cell = λ i. 0 };
  dropped = record { size = 1; cell = λ i. 0 };
  calls = [];
}

abbrev process : Process
process = record { pid = 101; prior_ts = 1000; attached = true; order_buffer_tail = 4 }

-- One byte short of the tail is enough.
move_on_lem_example : move_on sizes 3 shared process ≡ (
    if 3 == 4
    then done (shared, process)
    else done (
      record shared { bd_order_buffer_tail = 4; transfer = 1 },
      record process { order_buffer_tail = u64 (4 + 2) % 16 },
    ))
move_on_lem_example =
    move_on_lem sizes 3 shared process refl (omega arith) (omega arith) (omega arith) (omega arith)

abbrev heap_bytes : Memory
heap_bytes = record { size = 64; cell = λ i. i }
