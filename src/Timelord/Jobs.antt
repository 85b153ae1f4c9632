-- ===== src/Timelord/Jobs.antt =====
-- What the workers of cmd/timelord.go do to a job, and the cleanup.
use shadowyapparatus.Prelude.{
  ℕ, ◌+◌, ◌*◌, ◌/◌, ◌^◌, ltb, ◌==◌, ◌&&◌, if◌then◌else◌, Bool, true, false, not, Option, none, some,
  List, [], ◌∷◌, Bytes, add64, sub64, mul64,
}
use shadowyapparatus.Dict.{Dict, lookup, insert, bytes_key, number_key}
use shadowyapparatus.Token.{le_i64}
use shadowyapparatus.Vdf.{VdfResult}
use shadowyapparatus.Timelord.{TimelordJob, JobStatus, TimelordStats, Timelord, with_stats}

-- A change of the job behind a reference.
abbrev pub change_job : ℕ → (TimelordJob → TimelordJob) → Dict ℕ TimelordJob → Dict ℕ TimelordJob
change_job job f store = elim (lookup job store) [ none ↦ store | some j ↦ insert job (f j) store ]

-- The factors 0.9 and 1.1 on a difficulty, and the moving average of the durations, are floats.
pub record Floats : Type 0 where
  pub decreased : ℕ → ℕ
  pub increased : ℕ → ℕ
  pub average : ℕ → ℕ → ℕ

-- What a worker does to the shared state, between two points at which others can come in.
pub data Action : Type 0 where
  set_started_at : (job at : ℕ) → Action
  set_status : ℕ → JobStatus → Action
  set_result : ℕ → VdfResult → Action
  set_completed_at : (job at : ℕ) → Action
  count_start count_failed count_timeout : Action
  -- the computation
  run_solver : ℕ → Action
  -- the time of the completion, and the duration of the proof
  count_completed : (at proof_time : ℕ) → Action
  if_enabled : ℕ → Action
  adjust_difficulty : ℕ → Action
  write_difficulty : ℕ → Action
  state_difficulty : Action

-- `processJob`, up to the computation.
unfoldable pub process_job : (job now : ℕ) → List Action
process_job job now =
    set_started_at job now ∷ set_status job JobStatus.running ∷ count_start ∷ run_solver job ∷ []

-- How a computation ends: by its time-out, or with a result and the time of its completion.
pub data Ending : Type 0 where
  timed_out : Ending
  finished : VdfResult → ℕ → Ending

abbrev pub timed_out_result : VdfResult
timed_out_result = record { proof = none; is_valid = false; verify_time = 0; has_error = true }

-- A result with no error has a proof.
abbrev pub proof_time_of : VdfResult → ℕ
proof_time_of r = elim r.proof [ none ↦ 0 | some p ↦ p.compute_time ]

abbrev pub after_result : ℕ → VdfResult → ℕ → Bool → List Action
after_result job r at true = set_status job JobStatus.failed ∷ count_failed ∷ []
after_result job r at false =
    set_status job JobStatus.completed
    ∷ count_completed at (proof_time_of r)
    ∷ if_enabled (proof_time_of r)
    ∷ []

-- `processJob`, from the end of the computation on.
unfoldable pub ending : ℕ → Ending → List Action
ending job timed_out =
    set_status job JobStatus.timeout ∷ set_result job timed_out_result ∷ count_timeout ∷ []
ending job (finished r at) =
    set_completed_at job at ∷ set_result job r ∷ after_result job r at r.has_error

abbrev started_stats : TimelordStats → TimelordStats
started_stats s = record s {
  active_workers = add64 s.active_workers 1;
  pending_jobs = sub64 s.pending_jobs 1;
}

abbrev timeout_stats : TimelordStats → TimelordStats
timeout_stats s = record s {
  timeout_jobs = add64 s.timeout_jobs 1;
  active_workers = sub64 s.active_workers 1;
}

abbrev failed_stats : TimelordStats → TimelordStats
failed_stats s = record s {
  failed_jobs = add64 s.failed_jobs 1;
  active_workers = sub64 s.active_workers 1;
}

abbrev completed_stats : Floats → (at proof_time : ℕ) → TimelordStats → TimelordStats
completed_stats f at proof_time s =
    let completed = add64 s.completed_jobs 1 in
    record s {
      completed_jobs = completed;
      active_workers = sub64 s.active_workers 1;
      last_proof_time = at;
      average_proof_time =
          if completed == 1 then proof_time else f.average s.average_proof_time proof_time;
    }

-- The new difficulty, if there is one: `adjustDifficulty` reads the old one before it writes.
unfoldable pub new_difficulty : Floats → (proof_time target t : ℕ) → Option ℕ
unfolding mul64
new_difficulty f proof_time target t =
    if not (le_i64 proof_time (mul64 target 2))
    then some (if ltb (f.decreased t) 1000 then 1000 else f.decreased t)
    else if not (le_i64 (target / 2) proof_time)
    then some (if ltb 10000000 (f.increased t) then 10000000 else f.increased t)
    else none

abbrev pub adjusting : Option ℕ → List Action
adjusting none = state_difficulty ∷ []
adjusting (some t) = write_difficulty t ∷ state_difficulty ∷ []

-- What an action leaves to do before the worker's other actions.
unfoldable pub follow_up : Floats → Action → Timelord → List Action
unfolding new_difficulty
follow_up f (if_enabled proof_time) tl =
    if tl.config.auto_adjust_difficulty then adjust_difficulty proof_time ∷ [] else []
follow_up f (adjust_difficulty proof_time) tl =
    adjusting
      (new_difficulty f proof_time tl.config.target_proof_time tl.config.vdf_config.time_parameter)
follow_up f _ tl = []

abbrev with_job : ℕ → (TimelordJob → TimelordJob) → Timelord → Timelord
with_job job change tl = record tl { store = change_job job change tl.store }

-- An action on the timelord. The solvers share the configuration, so the next challenge has the new
-- difficulty.
unfoldable pub perform : Floats → Action → Timelord → Timelord
unfolding add64 sub64
perform f (set_started_at job at) tl = with_job job (λ j. record j { started_at = some at }) tl
perform f (set_status job status) tl = with_job job (λ j. record j { status = status }) tl
perform f (set_result job r) tl = with_job job (λ j. record j { result = some r }) tl
perform f (set_completed_at job at) tl = with_job job (λ j. record j { completed_at = some at }) tl
perform f count_start tl = with_stats started_stats tl
perform f count_failed tl = with_stats failed_stats tl
perform f count_timeout tl = with_stats timeout_stats tl
perform f (count_completed at proof_time) tl = with_stats (completed_stats f at proof_time) tl
perform f (write_difficulty t) tl = record tl {
  config = record tl.config { vdf_config = record tl.config.vdf_config { time_parameter = t } };
}
perform f state_difficulty tl =
    with_stats (λ s. record s { current_difficulty = tl.config.vdf_config.time_parameter }) tl
perform f _ tl = tl

abbrev is_over : JobStatus → Bool
is_over JobStatus.completed = true
is_over JobStatus.failed = true
is_over JobStatus.timeout = true
is_over _ = false

abbrev is_old : ℕ → Option ℕ → Bool
is_old now none = false
is_old now (some at) = ltb (at + 24 * 3600 * 10 ^ 9) now

abbrev pub is_expired : ℕ → Option TimelordJob → Bool
is_expired now none = false
is_expired now (some job) = is_over job.status && is_old now job.completed_at

-- One round of `cleanupExpiredJobs`.
unfoldable pub cleaned : ℕ → Dict ℕ TimelordJob → Dict Bytes ℕ → Dict Bytes ℕ
cleaned now store [] = []
cleaned now store ((id, job) ∷ m) =
    if is_expired now (lookup job store)
    then cleaned now store m
    else (id, job) ∷ cleaned now store m

unfoldable pub cleanup_expired_jobs : ℕ → Timelord → Timelord
unfolding cleaned
cleanup_expired_jobs now tl = record tl { jobs = cleaned now tl.store tl.jobs }
