-- ===== src/BufferTool/Tests.antt =====
-- A ring whose state is whether the process is its writer, with empty blocks of 20 bytes.
use incoherent_beamformer.Common.{◌≡◌, refl, Bool, true, false, none, some, [], ◌∷◌, pos, Memory}
use incoherent_beamformer.BufferTool.{
  IpcBuf, Globals, Tool, connect_to_buffer, Scanner, bufsz_arg, produce_arg, options,
}
use incoherent_beamformer.BufferTool.Produce.{produce_round}
use incoherent_beamformer.BufferTool.Main.{producing, act, by_options, main}
use incoherent_beamformer.BufferTool.Created.{main-producing}

abbrev empty : Memory
empty = record { size = 20; cell = λ i. 0 }

abbrev ring : IpcBuf Bool
ring = record {
  create = λ b key nbufs bufsz readers. (b, pos 0);
  connect = λ b key. b;
  destroy = λ b. b;
  lock = λ b. (b, pos 0);
  get_nbufs = λ b. 8;
  get_nreaders = λ b. pos 1;
  lock_write = λ b. true;
  unlock_write = λ b. false;
  is_writer = λ b. b;
  mark_filled = λ b n. b;
  get_next_write = λ b. (b, some empty);
  lock_read = λ b. b;
  unlock_read = λ b. b;
  mark_cleared = λ b. b;
  get_next_read = λ b. (b, some empty, 20);
}

abbrev unset : Globals
unset = record {
  dada_key = 0;
  num_readers = pos 0;
  nbufs = 0;
  bufsz = 0;
  destroy = false;
  lock = true;
  consume_flag = false;
  produce_flag = false;
}

abbrev tool : Tool Bool
tool = record { block = false; globals = unset }

abbrev scanner : Scanner
scanner = record { scan_hex = λ s. some 0x2345; scan_unsigned = λ s. some 20; scan_int = λ s. none }

-- With -b 20 -p.
abbrev connected : Tool Bool
unfolding connect_to_buffer
connected =
    connect_to_buffer ring 0 (record tool { globals = record unset { produce_flag = true } })

enters : main ring scanner (bufsz_arg "20" ∷ produce_arg ∷ []) tool ≡ producing connected
unfolding main options connect_to_buffer by_options act
enters = refl

main-producing_example :
    produce_round ring 1 0 (pos 5) (record { block = false; buf = some empty; i = 0; filled = [] })
    ≡ none
unfolding connect_to_buffer
main-producing_example =
    main-producing ring scanner (bufsz_arg "20" ∷ produce_arg ∷ []) tool connected 1 (pos 5)
      (record { block = false; buf = some empty; i = 0; filled = [] }) enters
