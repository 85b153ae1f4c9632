-- ===== src/Timelord.antt =====
-- cmd/timelord.go: the queue of challenges and the workers that solve them. Jobs are shared by the map,
-- the queue and the workers, so these hold references into a store. A worker's run is
-- divided into the changes that it makes under a mutex and its reads and writes of the difficulty, and
-- a submission into three parts: other goroutines may come between any two. Durations and the limit on
-- the challenges are not negative.
pub mod Jobs
pub mod Steps
pub mod Counters
pub mod Capacity
pub mod Claims
pub mod Endings
pub mod Timeouts
pub mod Difficulty
use shadowyapparatus.Prelude.{
  ℕ, suc, ◌+◌, ◌*◌, ◌/◌, ◌^◌, ltb, leb, ◌==◌, ◌&&◌, ◌||◌, if◌then◌else◌, Bool, true, false, not,
  Option, none, some, List, [], ◌∷◌, ◌++◌, Bytes, length, add64, sub64, mul64,
}
use shadowyapparatus.Dict.{Dict, lookup, insert, erase, bytes_key, number_key}
use shadowyapparatus.Token.{le_i64}
use shadowyapparatus.Address.{Hashes}
use shadowyapparatus.Vdf.{
  VdfConfig, VdfChallenge, VdfProof, VdfResult, Readings, generate_challenge,
}

pub record TimelordConfig : Type 0 where
  pub vdf_config : VdfConfig
  pub worker_pool_size : ℕ
  pub max_pending_challenges : ℕ
  pub challenge_timeout : ℕ
  pub monitoring_interval : ℕ
  pub auto_adjust_difficulty : Bool
  pub target_proof_time : ℕ

pub data JobStatus : Type 0 where
  pending running completed failed timeout : JobStatus

pub record TimelordJob : Type 0 where
  pub id : Bytes
  pub challenge : VdfChallenge
  pub priority : ℕ
  pub submitted_at : ℕ
  pub started_at : Option ℕ
  pub completed_at : Option ℕ
  pub result : Option VdfResult
  pub status : JobStatus

pub record TimelordStats : Type 0 where
  pub total_jobs : ℕ
  pub completed_jobs : ℕ
  pub failed_jobs : ℕ
  pub timeout_jobs : ℕ
  pub average_proof_time : ℕ
  pub current_difficulty : ℕ
  pub active_workers : ℕ
  pub pending_jobs : ℕ
  pub last_proof_time : ℕ

-- `store` has the jobs that were made, by their references.
pub record Timelord : Type 0 where
  pub config : TimelordConfig
  pub jobs : Dict Bytes ℕ
  pub job_queue : List ℕ
  pub stats : TimelordStats
  pub store : Dict ℕ TimelordJob
  pub next_job : ℕ

unfoldable pub new_timelord : TimelordConfig → Timelord
new_timelord config = record {
  config = config;
  jobs = [];
  job_queue = [];
  stats = record {
    total_jobs = 0;
    completed_jobs = 0;
    failed_jobs = 0;
    timeout_jobs = 0;
    average_proof_time = 0;
    current_difficulty = config.vdf_config.time_parameter;
    active_workers = 0;
    pending_jobs = 0;
    last_proof_time = 0;
  };
  store = [];
  next_job = 0;
}

abbrev pub new_job : VdfChallenge → ℕ → ℕ → TimelordJob
new_job c priority now = record {
  id = c.id;
  challenge = c;
  priority = priority;
  submitted_at = now;
  started_at = none;
  completed_at = none;
  result = none;
  status = JobStatus.pending;
}

-- The first part of `SubmitChallenge`: none where too many challenges are there.
unfoldable pub store_job : VdfChallenge → (priority now : ℕ) → Timelord → Option ℕ × Timelord
store_job c priority now tl =
    if leb tl.config.max_pending_challenges (length tl.jobs) then (none, tl) else (
      some tl.next_job,
      record tl {
        jobs = insert c.id tl.next_job tl.jobs;
        store = insert tl.next_job (new_job c priority now) tl.store;
        next_job = suc tl.next_job;
      },
    )

-- The second part: the channel takes the job, or the job is removed.
unfoldable pub enqueue_job : Bytes → ℕ → Timelord → Bool × Timelord
enqueue_job id job tl =
    if ltb (length tl.job_queue) tl.config.max_pending_challenges
    then (true, record tl { job_queue = tl.job_queue ++ job ∷ [] })
    else (false, record tl { jobs = erase id tl.jobs })

abbrev pub with_stats : (TimelordStats → TimelordStats) → Timelord → Timelord
with_stats f tl = record tl { stats = f tl.stats }

-- The third part.
unfoldable pub count_job : Timelord → Timelord
unfolding add64
count_job tl =
    with_stats
      (λ s. record s { total_jobs = add64 s.total_jobs 1; pending_jobs = add64 s.pending_jobs 1 })
      tl

pub data Submission : Type 0 where
  accepted : ℕ → Submission
  too_many queue_full division_by_zero : Submission

abbrev pub after_enqueue : ℕ → Bool × Timelord → Submission × Timelord
after_enqueue job (true, tl) = (accepted job, count_job tl)
after_enqueue job (false, tl) = (queue_full, tl)

abbrev pub after_store : Bytes → Option ℕ × Timelord → Submission × Timelord
after_store id (none, tl) = (too_many, tl)
after_store id (some job, tl) = after_enqueue job (enqueue_job id job tl)

-- `SubmitChallenge`, where nothing comes between its parts.
unfoldable pub submit_challenge :
    (Bytes → Bytes) → Hashes → Readings → Bytes → ℕ → Timelord → Submission × Timelord
unfolding generate_challenge store_job enqueue_job count_job
submit_challenge sha3 h r payload priority tl =
    elim (generate_challenge sha3 h r tl.config.vdf_config payload) [
      | none ↦ (division_by_zero, tl)
      | some c ↦ after_store c.id (store_job c priority r.created tl)
    ]

unfoldable pub get_job : Bytes → Timelord → Option TimelordJob
get_job id tl = elim (lookup id tl.jobs) [ none ↦ none | some job ↦ lookup job tl.store ]

abbrev is_waiting : JobStatus → Bool
is_waiting JobStatus.pending = true
is_waiting JobStatus.running = true
is_waiting _ = false

abbrev waits : Option TimelordJob → ℕ
waits none = 0
waits (some job) = if is_waiting job.status then 1 else 0

unfoldable pub pending_count : Dict ℕ TimelordJob → Dict Bytes ℕ → ℕ
pending_count store [] = 0
pending_count store ((id, job) ∷ m) = waits (lookup job store) + pending_count store m

unfoldable pub get_stats : Timelord → TimelordStats
unfolding pending_count
get_stats tl = record tl.stats { pending_jobs = pending_count tl.store tl.jobs }
