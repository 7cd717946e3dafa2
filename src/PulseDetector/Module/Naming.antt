-- ===== src/PulseDetector/Module/Naming.antt =====
-- Who names the files of the pulse detector.
use mathlib.Core.Option.{some-injective}
use incoherent_beamformer.Common.{
  ℕ, ◌≡◌, ◌≢◌, ◌∙◌, subst, inl, inr, Option-cases, ◌==◌, if◌then◌else◌, Option, none, some, List,
  [], ◌∷◌, ℤ, arith, Memory,
}
use incoherent_beamformer.PulseDetector.{
  PulseSettings, AddToFloat, Pulses, Detector, request_file, record_pulse, read_int_timestamp,
  spead_api_callback,
}
use incoherent_beamformer.PulseDetector.Module.{Module, Call, set_up, after_call, call, calls}

-- The fields that name the files, and who named them.
pub record IsNamed (named ss : Pulses) : Type 0 where
  pub prior_ts : ss.prior_ts ≡ named.prior_ts
  pub file_ts : ss.file_ts ≡ named.file_ts
  pub master_pid : ss.master_pid ≡ named.master_pid

abbrev pub Keeps : Pulses → Option Pulses → Type 0
Keeps named none = ⊥
Keeps named (some ss) = IsNamed named ss

Keeps-trans : (a b : Pulses) (c : Option Pulses) → IsNamed a b → Keeps b c → Keeps a c
Keeps-trans a b none ab bc = bc
Keeps-trans a b (some c) ab bc = record {
  prior_ts = bc.prior_ts ∙ ab.prior_ts;
  file_ts = bc.file_ts ∙ ab.file_ts;
  master_pid = bc.master_pid ∙ ab.master_pid;
}

request_file_kept : (pid ts : ℕ) (ss : Pulses) → ss.prior_ts ≢ 0 → request_file pid ts ss ≡ ss
unfolding request_file
request_file_kept pid ts ss set = ground arith

module _ (s : PulseSettings) (add : AddToFloat) where
  call_kept :
      (fd1 fd2 : ℕ) (group : ℕ → Option Memory) (ss : Pulses) (d : Detector)
      {r : Option Pulses × Detector × ℤ}
      → ss.prior_ts ≢ 0
      → spead_api_callback s add fd1 fd2 group (some ss) d ≡ some r
      → Keeps ss r.0
  unfolding spead_api_callback record_pulse
  call_kept fd1 fd2 group ss d set h = grind (arith, request_file_kept)

  calls_kept :
      (named : Pulses) (list : List Call) (m m' : Module)
      → named.prior_ts ≢ 0
      → Keeps named m.0
      → calls s add list m ≡ some m'
      → Keeps named m'.0
  unfolding calls call
  calls_kept named [] m m' set kept h = subst (λ x. Keeps named x.0) (some-injective m m' h) kept
  calls_kept named (c ∷ list) (none, processes) m' set kept h = absurd kept
  calls_kept named (c ∷ list) (some ss, processes) m' set kept h =
      elim (Option-cases
        (spead_api_callback s add c.times_fd c.powers_fd c.group (some ss) (processes c.process))) [
          | inl fault ↦ absurd (ground arith)
          | inr (r, called) ↦
              let now = kept.prior_ts in
              let same =
                call_kept c.times_fd c.powers_fd c.group ss (processes c.process) (ground arith)
                  called in
              calls_kept named list (after_call c.process processes r) m' set
                (Keeps-trans named ss r.0 kept same) (simp called at h)
        ]

  -- What the first call makes of new shared data.
  abbrev pub first_named : ℕ → ℕ → Pulses → Pulses
  first_named pid ts raw =
      if raw.prior_ts == 0
      then record raw { prior_ts = ts; file_ts = ts; master_pid = pid }
      else record raw { master_pid = 0 }

  first_call :
      (c : Call) (raw : Pulses) (d : Detector) (item : Memory) (ts : ℕ)
      {r : Option Pulses × Detector × ℤ}
      → c.group s.timestamp_id ≡ some item
      → read_int_timestamp item ≡ some ts
      → spead_api_callback s add c.times_fd c.powers_fd c.group (set_up none (some raw)) d ≡ some r
      → Keeps (first_named d.pid ts raw) r.0
  unfolding spead_api_callback record_pulse request_file set_up
  first_call c raw d item ts there read h = grind arith

  -- Of the processes that handle heaps after setup in new memory, the first names the files, by its
  -- timestamp, if that memory's timestamp is 0, and then no later call names them again; if it is
  -- not 0, no call ever does, and there is no master. (The timestamp of the first heap is not 0.)
  pub calls-Keeps :
      (raw : Pulses) (c : Call) (list : List Call) (processes : ℕ → Detector) (item : Memory)
      (ts : ℕ) (m' : Module)
      → c.group s.timestamp_id ≡ some item
      → read_int_timestamp item ≡ some ts
      → ts ≢ 0
      → calls s add (c ∷ list) (set_up none (some raw), processes) ≡ some m'
      → Keeps (first_named (processes c.process).pid ts raw) m'.0
  unfolding calls call
  calls-Keeps raw c list processes item ts m' there read real h =
      let d = processes c.process in
      elim (Option-cases
        (spead_api_callback s add c.times_fd c.powers_fd c.group (set_up none (some raw)) d)) [
          | inl fault ↦ absurd (ground arith)
          | inr (r, called) ↦
              calls_kept (first_named d.pid ts raw) list (after_call c.process processes r) m'
                (ground arith) (first_call c raw d item ts there read called) (simp called at h)
        ]
