-- ===== src/SeparatedWriter/Tests.antt =====
-- The second segment of an order buffer of 64 heaps of one byte.
use incoherent_beamformer.Separated.{Sizes}
use incoherent_beamformer.SeparatedWriter.{Transfer, to_dada_buffer}
use incoherent_beamformer.SeparatedWriter.Marks.{to_dada_buffer_lem}
use incoherent_beamformer.PacketBits.{get_bit}
use incoherent_beamformer.Common.{◌+◌, ◌/◌, ◌%◌, ◌≡◌, ◌==◌, false, some, if◌then◌else◌, u64, arith}

abbrev sizes : Sizes
sizes = record {
  timestamp_spead_id = 4097;
  timestamp_increment = 2;
  data_spead_id = 4098;
  expected_heap_len = 1;
  num_heaps_per_buf = 128;
  dada_buf_size = 128;
  num_heaps_per_ob = 64;
  ob_size = 64;
  ob_segment = 16;
  ob_key = 1;
  dpb_size = 64;
  dpb_key = 2;
  dbp_sem_key = 3;
}

abbrev waiting : Transfer
waiting = record {
  buffer = record { size = 128; cell = λ i. 7 };
  dropped = record { size = 16; cell = λ i. 5 };
  order_buffer_tail = 112;
  num_bytes_transferred = 9;
}

-- The mark of heap 50 is in the word of the segment, which lies from heap 48 on.
to_dada_buffer_lem_example :
    (t' : Transfer) × (to_dada_buffer sizes waiting ≡ some t')
    × (get_bit 32 t'.dropped 50
        ≡ (if 50 / 32 == 48 / 32 then some false else get_bit 32 waiting.dropped 50))
    × (t'.order_buffer_tail ≡ u64 (112 + 16) % 128)
    × (t'.buffer.size ≡ 128)
to_dada_buffer_lem_example =
    to_dada_buffer_lem sizes waiting 50 (omega arith) (omega arith) (omega arith) (omega arith)
      (omega arith) (omega arith) (omega arith)
