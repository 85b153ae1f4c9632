-- ===== src/Tests/Timekeeping.antt =====
-- A timelord with room for one challenge.
use shadowyapparatus.Prelude.{
  ℕ, ◌+◌, ◌*◌, ◌/◌, ◌^◌, ◌≡◌, ◌≢◌, refl, ap, arith, Bool, true, false, none, List, [], ◌∷◌, bytes,
  bytes_discrete, ℕ_discrete,
}
use shadowyapparatus.Dict.{lookup, insert}
use shadowyapparatus.Vdf.{VdfChallenge}
use shadowyapparatus.Timelord.{
  JobStatus, TimelordConfig, store_job, enqueue_job, count_job, new_timelord,
}
use shadowyapparatus.Timelord.Jobs.{
  Floats, Action, set_started_at, set_status, set_result, count_start, count_timeout, run_solver,
  process_job, ending, timed_out, timed_out_result, perform, follow_up,
}
use shadowyapparatus.Timelord.Steps.{
  Node, store, enqueue, count, receive, act, end, Reach, here, next, started,
}
use shadowyapparatus.Timelord.Counters.{IsCounted, jobs-IsCounted}
use shadowyapparatus.Timelord.Timeouts.{IsClogged, clogged_timelord_refuses}
use shadowyapparatus.Timelord.Difficulty.{IsModerate, AreFactors, difficulty-IsModerate}

abbrev config : TimelordConfig
config = record {
  vdf_config = record {
    modulus_bits = 16;
    time_parameter = 2000;
    modulus = 35;
    security_parameter = 256;
    target_solving_time = 1;
  };
  worker_pool_size = 1;
  max_pending_challenges = 1;
  challenge_timeout = 5;
  monitoring_interval = 1;
  auto_adjust_difficulty = true;
  target_proof_time = 10;
}

-- The factors, rounded down.
abbrev tenths : Floats
tenths = record {
  decreased = λ n. n * 9 / 10;
  increased = λ n. n * 11 / 10;
  average = λ old new. (old * 9 + new) / 10;
}

tenths-AreFactors : AreFactors tenths
tenths-AreFactors = record { lowered = λ n l. omega arith; raised = λ n l. omega arith }

abbrev challenge : VdfChallenge
challenge = record {
  input = 12;
  time_parameter = 2000;
  modulus = 35;
  id = bytes "c";
  created_at = 0;
}

abbrev stored : Node
stored = record (started config) {
  timelord = (store_job challenge 0 1 (new_timelord config)).1;
  submitting = (bytes "c", 0) ∷ [];
}

abbrev queued : Node
queued = record stored {
  timelord = (enqueue_job (bytes "c") 0 stored.timelord).1;
  submitting = [];
  uncounted = 1;
}

abbrev counted : Node
counted = record queued { timelord = count_job queued.timelord; uncounted = 0 }

-- One worker, with what it still has to do.
abbrev busy : List Action → Node → Node
busy actions n = record n { working = actions ∷ [] }

abbrev received : Node
received =
    busy (process_job 0 2)
      (record counted { timelord = record counted.timelord { job_queue = [] } })

abbrev performed : Action → List Action → Node → Node
performed a rest n = busy rest (record n { timelord = perform tenths a n.timelord })

abbrev with_time : Node
with_time =
    performed (set_started_at 0 2)
      (set_status 0 JobStatus.running ∷ count_start ∷ run_solver 0 ∷ []) received

abbrev running_job : Node
running_job = performed (set_status 0 JobStatus.running) (count_start ∷ run_solver 0 ∷ []) with_time

abbrev solving : Node
solving = performed count_start (run_solver 0 ∷ []) running_job

abbrev late : Node
late = busy (ending 0 timed_out) solving

abbrev marked : Node
marked =
    performed (set_status 0 JobStatus.timeout) (set_result 0 timed_out_result ∷ count_timeout ∷ [])
      late

abbrev resulted : Node
resulted = performed (set_result 0 timed_out_result) (count_timeout ∷ []) marked

abbrev clogged : Node
clogged = performed count_timeout [] resulted

abbrev is_solve : Action → Bool
is_solve (run_solver _) = true
is_solve _ = false

no_solve : {a : Action} → is_solve a ≡ false → (job : ℕ) → a ≢ run_solver job
no_solve h job e = absurd (cc (ap is_solve e, h))

counted_reached : Reach tenths (started config) counted
unfolding store_job enqueue_job new_timelord count_job
counted_reached =
    next
      (next (next here (store challenge 0 1 (started config)))
        (enqueue (bytes "c") 0 [] [] stored refl))
      (count 0 queued refl)

solving_reached : Reach tenths (started config) solving
unfolding process_job follow_up count_job enqueue_job store_job new_timelord
solving_reached =
    next
      (next
        (next (next counted_reached (receive 0 2 [] counted refl))
          (act (set_started_at 0 2) _ [] [] received refl (no_solve refl)))
        (act (set_status 0 JobStatus.running) _ [] [] with_time refl (no_solve refl)))
      (act count_start _ [] [] running_job refl (no_solve refl))

clogged_reached : Reach tenths (started config) clogged
unfolding ending follow_up
clogged_reached =
    next
      (next
        (next (next solving_reached (end 0 timed_out [] [] solving refl))
          (act (set_status 0 JobStatus.timeout) _ [] [] late refl (no_solve refl)))
        (act (set_result 0 timed_out_result) _ [] [] marked refl (no_solve refl)))
      (act count_timeout _ [] [] resulted refl (no_solve refl))

clogged-IsClogged : IsClogged clogged
unfolding store_job enqueue_job new_timelord count_job perform process_job ending lookup insert
    ℕ_discrete bytes_discrete
clogged-IsClogged = record {
  full = omega arith;
  timeouts = (refl, tt);
  no_queue = refl;
  no_submission = refl;
  no_work = refl;
}

jobs-IsCounted_example : IsCounted clogged
jobs-IsCounted_example = jobs-IsCounted tenths config clogged clogged_reached

difficulty-IsModerate_example : IsModerate clogged.timelord
difficulty-IsModerate_example =
    difficulty-IsModerate tenths tenths-AreFactors config clogged (omega arith) (omega arith)
      clogged_reached

clogged_timelord_refuses_example :
    store_job challenge 0 (10 ^ 20) clogged.timelord ≡ (none, clogged.timelord)
clogged_timelord_refuses_example =
    clogged_timelord_refuses tenths config clogged clogged clogged_reached clogged-IsClogged here
      challenge 0 (10 ^ 20)
