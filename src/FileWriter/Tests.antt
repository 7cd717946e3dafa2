-- ===== src/FileWriter/Tests.antt =====
-- Tests of the file writer: two groups of two items, with markers.
use incoherent_beamformer.Common.{
  ℕ, ◌≡◌, ◌&&◌, ◌==◌, refl, none, some, Option, List, [], ◌∷◌, arith, true, false, negsuc, Memory,
}
use incoherent_beamformer.FileWriter.{
  Item, item_data, item_marker, open_file, pwrite_at, FileShared, FileProcess, write_data,
  write_marker, write_items, write_group, take_master, next_file, reserve, set_length, finish,
  spead_api_callback,
}
use incoherent_beamformer.FileWriter.Layout.{layout}
use incoherent_beamformer.FileWriter.Calls.{is_error, spead_api_callback_locked}
use incoherent_beamformer.FileWriter.Slots.{IsWritten, spead_api_callback-IsWritten}

abbrev bytes : ℕ → Memory
bytes n = record { size = n; cell = λ i. i }

abbrev pub two_items : List Memory
two_items = bytes 16 ∷ bytes 4 ∷ []

abbrev unknown_length : FileShared
unknown_length = record {
  offset = 0;
  data_len = 0;
  any_id = true;
  id = 0;
  with_markers = true;
  file_count = 0;
  master_id = 0;
}

abbrev pub second_call : FileShared
second_call = record unknown_length { offset = 44; data_len = 44; master_id = 40 }

abbrev pub idle : FileProcess
idle = record { pid = 40; w_fd2 = 0; heap_cnt = 0; file_count = 0; locked = false; actions = [] }

lies_so :
    layout 5 true two_items 44
    ≡ pwrite_at 5 (item_data (bytes 16) 16) 16 44
      ∷ pwrite_at 5 item_marker 8 60
      ∷ pwrite_at 5 (item_data (bytes 4) 4) 4 68
      ∷ pwrite_at 5 item_marker 8 72
      ∷ []
lies_so = refl

abbrev pub no_id : ℕ → Option Item
no_id id = none

abbrev null_item : Item
null_item = record { i_data = none; i_data_len = 4 }

-- A null item in the first group: the call fails, and the lock stays.
abbrev stuck : FileProcess
stuck = record {
  pid = 40;
  w_fd2 = 5;
  heap_cnt = 1;
  file_count = 1;
  locked = true;
  actions = open_file 5 0 ∷ [];
}

first_fails :
    spead_api_callback 5 (null_item ∷ []) no_id (some unknown_length) idle
    ≡ some (record unknown_length { master_id = 40 }, stuck, negsuc 0)
unfolding spead_api_callback finish set_length reserve next_file take_master write_group write_items
    write_marker write_data
first_fails = refl

spead_api_callback-IsWritten_example : IsWritten 5 two_items no_id second_call idle
spead_api_callback-IsWritten_example =
    spead_api_callback-IsWritten 5 two_items no_id second_call idle (omega arith) refl
      (omega arith, (omega arith, tt)) (omega arith)

spead_api_callback_locked_example : true ≡ (is_error (negsuc 0) && 0 == 0)
spead_api_callback_locked_example =
    spead_api_callback_locked 5 (null_item ∷ []) no_id unknown_length
      (record unknown_length { master_id = 40 }) idle stuck (negsuc 0) first_fails
