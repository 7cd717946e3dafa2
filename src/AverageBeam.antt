-- ===== src/AverageBeam.antt =====
-- The averaging beamformer, spead_callback/ave_beamformer.c, a module for the SPEAD receiver: its
-- setup, and its callback, which adds heaps up and writes the sums to a file from time to time.
-- Floats are an interface, `FloatOps`; an array of them is a function from places.
pub mod Sums
pub mod Writes
mod Tests
use Prim.Native.String.{String}
use incoherent_beamformer.Common.{
  ℕ, zero, suc, ◌+◌, ◌*◌, Bool, ◌&&◌, ◌||◌, Option, none, some, List, [], ◌∷◌, ◌++◌, ltb, leb, ◌==◌,
  if◌then◌else◌, ℤ, pos, negsuc, u32, sub64, Memory, ◌>>=◌,
}
use incoherent_beamformer.Settings.{start_setting}
use incoherent_beamformer.PulseDetector.{read_int_timestamp}

-- What the code does with floats: a sum, the value of a byte as an int8_t, a quotient by an `int`,
-- and the float whose bytes are all 0.
pub record FloatOps {ℓ} (F : Type ℓ) : Type ℓ where
  pub add : F → F → F
  pub of_int8 : ℕ → F
  pub div : F → ℕ → F
  pub nought : F

-- The globals that setup fills.
pub record Config : Type 0 where
  pub timestamp_id : ℤ
  pub data_id : ℤ
  pub n_chans : ℤ
  pub ts_per_heap : ℤ
  pub prefix : String

-- The shared data; the file's name is that of a timestamp.
pub record Averages {ℓ} (F : Type ℓ) : Type ℓ where
  pub prior_ts : ℕ
  pub ave : ℕ → F
  pub num_writes : ℕ
  pub master_pid : ℕ
  pub filename : ℕ

-- What is done to files: one is opened by the shared name, or the first 1024 floats are written to a
-- place in it.
pub data FileCall {ℓ} (F : Type ℓ) : Type ℓ where
  opened : ℕ → FileCall F
  written : ℕ → ℕ → (ℕ → F) → FileCall F

-- A process: its globals, and its calls on files, the oldest first.
pub record Averager {ℓ} (F : Type ℓ) : Type ℓ where
  pub pid : ℕ
  pub prior_ts : ℕ
  pub w_fd2 : ℕ
  pub files : List (FileCall F)

-- A data item is what lies in memory from its structure on.
pub record Group : Type 0 where
  pub timestamp : Option Memory
  pub item : Option Memory

unfoldable pub configure : (String → Option String) → (String → ℤ) → Config
configure getenv atoi = record {
  timestamp_id = start_setting getenv atoi "TIMESTAMP_SPEAD_ID" (pos 5632);
  data_id = start_setting getenv atoi "DATA_SPEAD_ID" (pos 4098);
  n_chans = start_setting getenv atoi "N_CHANS" (pos 1024);
  ts_per_heap = start_setting getenv atoi "TIMESTAMPS_PER_HEAP" (pos 4);
  prefix = elim (getenv "PREFIX") [ none ↦ "/data1/times" | some prefix ↦ prefix ];
}

module _ {ℓ} {F : Type ℓ} where
  -- New shared data keeps what its memory held, but for two fields; the result is that of the
  -- module, `none` without it. `raw` is what shared_malloc returns.
  unfoldable pub set_up : Option (Averages F) → Option (Averages F) → Option (Averages F)
  set_up (some ss) raw = some ss
  set_up none none = none
  set_up none (some raw) = some (record raw { master_pid = 0; num_writes = 0 })

  -- The shared data is freed, and the process closes its file, whose descriptor is the result.
  unfoldable pub destroy : Option (Averages F) → Averager F → Option (Averages F) × ℕ
  destroy shared p = (none, p.w_fd2)

  abbrev pub put : ℕ → F → (ℕ → F) → ℕ → F
  put i v ave k = if k == i then v else ave k

  -- The first process that finds no timestamp names the file.
  unfoldable pub take_master : ℕ → ℕ → Averages F → Averages F
  take_master pid ts ss =
      if ss.prior_ts == 0 && ss.master_pid == 0
      then record ss { master_pid = pid; prior_ts = ts; filename = ts }
      else ss

  unfoldable pub follow : Averages F → Averager F → Averager F
  follow ss p =
      if p.prior_ts == 0 || ltb p.prior_ts ss.prior_ts
      then record p { prior_ts = ss.prior_ts }
      else p

  -- `fd` is what `open` returns; it is called again for as long as that is 0.
  unfoldable pub open_file : ℕ → Averages F → Averager F → Averager F
  open_file fd ss p =
      if p.w_fd2 == 0
      then record p { w_fd2 = fd; files = p.files ++ opened ss.filename ∷ [] }
      else p

  module _ (ops : FloatOps F) where
    -- ave[i] = ave[i] + (float)data[start + i], with `left` rounds left; `none` is a read past the
    -- end of the data.
    unfoldable pub add_row : Memory → ℕ → ℕ → ℕ → (ℕ → F) → Option (ℕ → F)
    add_row bytes start zero i ave = some ave
    add_row bytes start (suc left) i ave =
        if ltb (start + i) bytes.size
        then add_row bytes start left (i + 1)
            (put i (ops.add (ave i) (ops.of_int8 (bytes.cell (start + i)))) ave)
        else none

    unfoldable pub add_rows : Memory → ℕ → ℕ → (ℕ → F) → Option (ℕ → F)
    add_rows bytes zero j ave = some ave
    add_rows bytes (suc left) j ave =
        add_row bytes (1024 * j) 1024 0 ave >>= λ ave'. add_rows bytes left (j + 1) ave'

    unfoldable pub add : Memory → (ℕ → F) → Option (ℕ → F)
    add bytes ave = add_rows bytes 4 0 ave

    unfoldable pub divide_from : ℕ → ℕ → ℕ → (ℕ → F) → ℕ → F
    divide_from divisor zero i ave = ave
    divide_from divisor (suc left) i ave =
        divide_from divisor left (i + 1) (put i (ops.div (ave i) divisor) ave)

    unfoldable pub divide : (ℕ → F) → ℕ → ℕ → F
    divide ave divisor = divide_from divisor 1024 0 ave

    -- memset (ss->ave, 0, sizeof(float) * N_CHANS)
    unfoldable pub clear : (ℕ → F) → ℕ → F
    clear ave k = if ltb k 1024 then ops.nought else ave k

    -- The sums are written, then divided, then cleared.
    unfoldable pub write_sums : ℕ → Averages F → Averager F → Averages F × Averager F
    write_sums ts ss p =
        if leb 1048576 (sub64 ts p.prior_ts)
        then (
          record ss { ave = clear (divide ss.ave (u32 (sub64 ts p.prior_ts))); prior_ts = ts },
          record p { files = p.files ++ written p.w_fd2 (4 * 1024 * ss.num_writes) ss.ave ∷ [] },
        )
        else (ss, p)

    -- The sums of one heap; the data item's structure is what is added, and `none` is a null item.
    unfoldable pub average :
        ℕ
        → ℕ
        → Option Memory
        → Averages F
        → Averager F
        → Option (Option (Averages F) × Averager F × ℤ)
    average fd ts item ss p =
        let ss₁ = take_master p.pid ts ss in
        let p₁ = open_file fd ss₁ (follow ss₁ p) in
        do
          structure ← item
          ave ← add structure ss₁.ave
          let (ss₂, p₂) = write_sums ts (record ss₁ { ave = ave }) p₁
          some (some ss₂, p₂, pos 0)

    -- `none` is a fault: an item that is not there is only reported.
    unfoldable pub spead_api_callback :
        ℕ → Group → Option (Averages F) → Averager F → Option (Option (Averages F) × Averager F × ℤ)
    spead_api_callback fd group ss p = do
      stamp ← group.timestamp
      ts ← read_int_timestamp stamp
      elim ss [ none ↦ some (none, p, negsuc 0) | some shared ↦ average fd ts group.item shared p ]
