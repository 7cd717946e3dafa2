-- ===== src/AverageBeam/Writes.antt =====
-- Where the sums are written.
use incoherent_beamformer.Common.{
  ℕ, ◌≤◌, ◌≡◌, ◌∙◌, sym, refl, subst, ◌&&◌, ◌||◌, ◌==◌, ltb, leb, Bool-cases, inl, inr, Option,
  some, none, List, [], ◌∷◌, ◌++◌, pos, Memory, arith, sub64, ◌>>=◌,
}
use incoherent_beamformer.PulseDetector.{read_int_timestamp}
use incoherent_beamformer.AverageBeam.{
  FloatOps, Averages, Averager, FileCall, opened, written, Group, set_up, take_master, follow,
  open_file, write_sums, average, spead_api_callback,
}
use incoherent_beamformer.AverageBeam.Sums.{with_heap, add_lem}

-- Each of the writes is to the start of a file.
unfoldable pub AllAtStart {ℓ} : {F : Type ℓ} → List (FileCall F) → Type 0
AllAtStart [] = Unit
AllAtStart (opened name ∷ rest) = AllAtStart rest
AllAtStart (written fd place sums ∷ rest) = (place ≡ 0) × AllAtStart rest

-- A group with both items, a timestamp below 2 ^ 31 and 4096 bytes to add.
pub record IsGroup (g : Group) : Type 0 where
  pub stamp : Memory
  pub ts : ℕ
  pub bytes : Memory
  pub timestamp : g.timestamp ≡ some stamp
  pub reads : read_int_timestamp stamp ≡ some ts
  pub item : g.item ≡ some bytes
  pub long : 4096 ≤ bytes.size

abbrev pub AllGroups : List Group → Type 0
AllGroups [] = Unit
AllGroups (g ∷ rest) = IsGroup g × AllGroups rest

module _ {ℓ} {F : Type ℓ} where
  AllAtStart-opened :
      (l : List (FileCall F)) (name : ℕ) → AllAtStart l → AllAtStart (l ++ opened name ∷ [])
  unfolding AllAtStart
  AllAtStart-opened [] name h = tt
  AllAtStart-opened (opened n ∷ l) name h = AllAtStart-opened l name h
  AllAtStart-opened (written fd place sums ∷ l) name (here, h) = (here, AllAtStart-opened l name h)

  AllAtStart-written :
      (l : List (FileCall F)) (fd place : ℕ) (sums : ℕ → F)
      → place ≡ 0
      → AllAtStart l
      → AllAtStart (l ++ written fd place sums ∷ [])
  unfolding AllAtStart
  AllAtStart-written [] fd place sums at h = (at, tt)
  AllAtStart-written (opened n ∷ l) fd place sums at h = AllAtStart-written l fd place sums at h
  AllAtStart-written (written fd' place' sums' ∷ l) fd place sums at (here, h) =
      (here, AllAtStart-written l fd place sums at h)

  take_master_writes :
      (pid ts : ℕ) (ss : Averages F) → (take_master pid ts ss).num_writes ≡ ss.num_writes
  unfolding take_master
  take_master_writes pid ts ss = elim (Bool-cases (ss.prior_ts == 0 && ss.master_pid == 0)) [
    | inl on ↦ simp on refl
    | inr off ↦ simp off refl
  ]

  follow_files : (ss : Averages F) (p : Averager F) → (follow ss p).files ≡ p.files
  unfolding follow
  follow_files ss p = elim (Bool-cases (p.prior_ts == 0 || ltb p.prior_ts ss.prior_ts)) [
    | inl on ↦ simp on refl
    | inr off ↦ simp off refl
  ]

  open_file-AllAtStart :
      (fd : ℕ) (ss : Averages F) (p : Averager F)
      → AllAtStart p.files
      → AllAtStart ((open_file fd ss p).files)
  unfolding open_file
  open_file-AllAtStart fd ss p h = elim (Bool-cases (p.w_fd2 == 0)) [
    | inl on ↦ simp on (AllAtStart-opened p.files ss.filename h)
    | inr off ↦ simp off h
  ]

  module _ (ops : FloatOps F) where
    write_sums-AllAtStart :
        (ts : ℕ) (ss : Averages F) (p : Averager F)
        → ss.num_writes ≡ 0
        → AllAtStart p.files
        → ((write_sums ops ts ss p).0.num_writes ≡ 0)
          × AllAtStart ((write_sums ops ts ss p).1.files)
    unfolding write_sums
    write_sums-AllAtStart ts ss p first h = elim (Bool-cases (leb 1048576 (sub64 ts p.prior_ts))) [
      | inl on ↦ simp on (first, AllAtStart-written p.files p.w_fd2 _ ss.ave (omega arith) h)
      | inr off ↦ simp off (first, h)
    ]

    -- The callbacks of one process, each with what `open` returns, as far as none faults.
    unfoldable pub run :
        List Group
        → ℕ
        → Option (Averages F)
        → Averager F
        → Option (Option (Averages F) × Averager F)
    run [] fd ss p = some (ss, p)
    run (g ∷ rest) fd ss p = spead_api_callback ops fd g ss p >>= λ r. run rest fd (r.0) (r.1)

    callback_lem :
        (fd : ℕ) (g : Group) (ss : Averages F) (p : Averager F)
        → IsGroup g
        → ss.num_writes ≡ 0
        → AllAtStart p.files
        → (ss' : Averages F) × (p' : Averager F) × (spead_api_callback ops fd g (some ss) p
            ≡ some (some ss', p', pos 0))
          × (ss'.num_writes ≡ 0)
          × AllAtStart p'.files
    unfolding spead_api_callback average
    callback_lem fd g ss p group first h =
        let ss₁ = take_master p.pid group.ts ss in
        let p₁ = open_file fd ss₁ (follow ss₁ p) in
        let sums = add_lem ops group.bytes ss₁.ave group.long in
        let ss₂ = record ss₁ { ave = with_heap ops group.bytes ss₁.ave } in
        let still = take_master_writes p.pid group.ts ss ∙ first in
        let files =
          open_file-AllAtStart fd ss₁ (follow ss₁ p)
            (subst AllAtStart (sym (follow_files ss₁ p)) h) in
        let (first', files') = write_sums-AllAtStart group.ts ss₂ p₁ still files in
        (
          (write_sums ops group.ts ss₂ p₁).0,
          (write_sums ops group.ts ss₂ p₁).1,
          simp (group.timestamp, group.reads, group.item, sums) refl,
          first',
          files',
        )

    run_lem :
        (fd : ℕ) (groups : List Group) (ss : Averages F) (p : Averager F)
        → AllGroups groups
        → ss.num_writes ≡ 0
        → AllAtStart p.files
        → (ss' : Averages F) × (p' : Averager F) × (run groups fd (some ss) p ≡ some (some ss', p'))
          × (ss'.num_writes ≡ 0)
          × AllAtStart p'.files
    unfolding run
    run_lem fd [] ss p groups first h = (ss, p, refl, first, h)
    run_lem fd (g ∷ rest) ss p (group, groups) first h =
        let (ss₁, p₁, calls, first₁, h₁) = callback_lem fd g ss p group first h in
        let (ss₂, p₂, runs, first₂, h₂) = run_lem fd rest ss₁ p₁ groups first₁ h₁ in
        (ss₂, p₂, simp calls runs, first₂, h₂)

    -- After setup, a process that gets any number of groups, each with a timestamp below 2 ^ 31 and
    -- 4096 bytes to add, handles them all, and each write of sums goes to the start of its file, over
    -- the one before: the number of writes is never counted.
    pub set_up-AllAtStart :
        (raw : Averages F) (fd : ℕ) (groups : List Group) (p : Averager F)
        → AllGroups groups
        → p.files ≡ []
        → (ss' : Averages F) × (p' : Averager F) × (run groups fd (set_up none (some raw)) p
            ≡ some (some ss', p'))
          × (ss'.num_writes ≡ 0)
          × AllAtStart p'.files
    unfolding set_up AllAtStart
    set_up-AllAtStart raw fd groups p all_groups fresh =
        run_lem fd groups (record raw { master_pid = 0; num_writes = 0 }) p all_groups refl
          (subst AllAtStart (sym fresh) tt)
