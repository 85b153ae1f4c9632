-- ===== src/Timelord/Claims.antt =====
-- Where a job of cmd/timelord.go waits for its end, and what an end leaves in it.
use shadowyapparatus.Prelude.{
  ℕ, ◌+◌, ◌≤◌, ◌≡◌, ◌==◌, ◌≢◌, refl, sym, ap, ◌∙◌, arith, Bool, true, false, Option, none, some,
  List, [], ◌∷◌, ◌++◌, Bytes, if◌then◌else◌, ℕ_discrete,
}
use shadowyapparatus.Dict.{
  Dict, lookup, insert, bytes_key, number_key, lookup-insert_self, lookup-insert_ne,
}
use shadowyapparatus.Timelord.{Timelord, TimelordJob, JobStatus}
use shadowyapparatus.Timelord.Jobs.{
  change_job, Floats, Action, set_started_at, set_status, set_result, set_completed_at, count_start,
  count_failed, count_timeout, run_solver, count_completed, if_enabled, adjust_difficulty,
  write_difficulty, state_difficulty, Ending, timed_out, finished, ending, after_result, follow_up,
  perform, adjusting, new_difficulty,
}
use shadowyapparatus.Timelord.Steps.{Node, total, remaining}

-- A number, for one job only.
abbrev pub for_job : ℕ → ℕ → ℕ → ℕ
for_job k j n = if k == j then n else 0

-- Whether an action completes a job or lets it time out, or comes to it.
abbrev pub claim : ℕ → Action → ℕ
claim j (run_solver k) = for_job k j 1
claim j (set_completed_at k _) = for_job k j 1
claim j (set_status k JobStatus.timeout) = for_job k j 1
claim j _ = 0

abbrev pub queued : ℕ → List ℕ → ℕ
queued j [] = 0
queued j (k ∷ ks) = for_job k j 1 + queued j ks

abbrev pub submitting : ℕ → List (Bytes × ℕ) → ℕ
submitting j [] = 0
submitting j ((id, k) ∷ m) = for_job k j 1 + submitting j m

-- In how many places a job still waits for its end.
abbrev pub claims : ℕ → Node → ℕ
claims j n =
    submitting j n.submitting + queued j n.timelord.job_queue + remaining (claim j) n.working

abbrev pub has_timed_out : JobStatus → ℕ
has_timed_out JobStatus.timeout = 1
has_timed_out _ = 0

abbrev pub has_time : Option ℕ → ℕ
has_time none = 0
has_time (some _) = 1

-- What an end has left in a job.
abbrev pub marks : Option TimelordJob → ℕ
marks none = 0
marks (some x) = has_timed_out x.status + has_time x.completed_at

-- Every job ends once at most, and the jobs to come wait nowhere.
pub record EndsOnce (n : Node) : Type 0 where
  pub once : (j : ℕ) → claims j n + marks (lookup j n.timelord.store) ≤ 1
  pub fresh : (j : ℕ) → n.timelord.next_job ≤ j → claims j n ≡ 0

pub queued-append : (j : ℕ) (xs ys : List ℕ) → queued j (xs ++ ys) ≡ queued j xs + queued j ys
queued-append j [] ys = omega arith
queued-append j (x ∷ xs) ys = omega (arith, queued-append j xs ys)

pub submitting-middle :
    (j k : ℕ) (id : Bytes) (before after : List (Bytes × ℕ))
    → submitting j (before ++ ((id, k) ∷ after)) ≡ for_job k j 1 + submitting j (before ++ after)
submitting-middle j k id [] after = refl
submitting-middle j k id ((i, l) ∷ before) after =
    omega (arith, submitting-middle j k id before after)

pub for_job-same : (k j n : ℕ) → k ≡ j → for_job k j n ≡ n
for_job-same k j n e = ground arith

pub for_job-other : (k j n : ℕ) → k ≢ j → for_job k j n ≡ 0
for_job-other k j n e = ground arith

pub for_job-none : (k j : ℕ) → for_job k j 0 ≡ 0
for_job-none k j = ground arith

pub marks-change :
    (k j n : ℕ) (g : TimelordJob → TimelordJob) (s : Dict ℕ TimelordJob)
    → ((x : TimelordJob) → marks (some (g x)) ≤ n + marks (some x))
    → marks (lookup j (change_job k g s)) ≤ for_job k j n + marks (lookup j s)
marks-change k j n g s h = go (lookup k s) refl
  where
    changed : Option TimelordJob → Dict ℕ TimelordJob
    changed o = elim o [ none ↦ s | some x ↦ insert k (g x) s ]

    go :
        (o : Option TimelordJob)
        → lookup k s ≡ o
        → marks (lookup j (changed (lookup k s))) ≤ for_job k j n + marks (lookup j s)
    go none e = omega (arith, ap (λ o. marks (lookup j (changed o))) e)
    go (some x) e =
        let c = ap (λ o. marks (lookup j (changed o))) e in
        elim (ℕ_discrete k j) [
          | yes same ↦
              let there = ap marks (sym (ap (λ i. lookup i s) same) ∙ e) in
              let put =
                ap marks (
                  sym (ap (λ i. lookup i (insert k (g x) s)) same)
                  ∙ lookup-insert_self k (g x) s) in
              omega (arith, c, there, put, h x, for_job-same k j n same)
          | no other ↦ omega (arith, c, ap marks (lookup-insert_ne j k (g x) s other))
        ]

-- An action leaves no more marks than it had claims.
pub perform-marks :
    (f : Floats) (j : ℕ) (a : Action) (tl : Timelord)
    → marks (lookup j (perform f a tl).store) ≤ claim j a + marks (lookup j tl.store)
unfolding perform
perform-marks f j (if_enabled t) tl = omega arith
perform-marks f j (adjust_difficulty t) tl = omega arith
perform-marks f j (set_started_at k at) tl = omega (
  arith,
  for_job-none k j,
  marks-change k j 0 (λ x. record x { started_at = some at }) tl.store (λ x. omega arith),
)
perform-marks f j (set_status k JobStatus.pending) tl = omega (
  arith,
  for_job-none k j,
  marks-change k j 0 (λ x. record x { status = JobStatus.pending }) tl.store (λ x. omega arith),
)
perform-marks f j (set_status k JobStatus.running) tl = omega (
  arith,
  for_job-none k j,
  marks-change k j 0 (λ x. record x { status = JobStatus.running }) tl.store (λ x. omega arith),
)
perform-marks f j (set_status k JobStatus.completed) tl = omega (
  arith,
  for_job-none k j,
  marks-change k j 0 (λ x. record x { status = JobStatus.completed }) tl.store (λ x. omega arith),
)
perform-marks f j (set_status k JobStatus.failed) tl = omega (
  arith,
  for_job-none k j,
  marks-change k j 0 (λ x. record x { status = JobStatus.failed }) tl.store (λ x. omega arith),
)
perform-marks f j (set_status k JobStatus.timeout) tl = omega (
  arith,
  marks-change k j 1 (λ x. record x { status = JobStatus.timeout }) tl.store (λ x. omega arith),
)
perform-marks f j (set_result k r) tl = omega (
  arith,
  for_job-none k j,
  marks-change k j 0 (λ x. record x { result = some r }) tl.store (λ x. omega arith),
)
perform-marks f j (set_completed_at k at) tl = omega (
  arith,
  marks-change k j 1 (λ x. record x { completed_at = some at }) tl.store (λ x. omega arith),
)
perform-marks f j count_start tl = omega arith
perform-marks f j count_failed tl = omega arith
perform-marks f j count_timeout tl = omega arith
perform-marks f j (run_solver k) tl = omega arith
perform-marks f j (count_completed at t) tl = omega arith
perform-marks f j (write_difficulty t) tl = omega arith
perform-marks f j state_difficulty tl = omega arith

pub perform-next :
    (f : Floats) (a : Action) (tl : Timelord) → (perform f a tl).next_job ≡ tl.next_job
unfolding perform
perform-next f (if_enabled t) tl = refl
perform-next f (adjust_difficulty t) tl = refl
perform-next f (set_started_at job at) tl = refl
perform-next f (set_status job status) tl = refl
perform-next f (set_result job r) tl = refl
perform-next f (set_completed_at job at) tl = refl
perform-next f count_start tl = refl
perform-next f count_failed tl = refl
perform-next f count_timeout tl = refl
perform-next f (run_solver job) tl = refl
perform-next f (count_completed at t) tl = refl
perform-next f (write_difficulty t) tl = refl
perform-next f state_difficulty tl = refl

pub adjusting-claims : (j : ℕ) (o : Option ℕ) → total (claim j) (adjusting o) ≡ 0
adjusting-claims j none = refl
adjusting-claims j (some t) = refl

pub follow_up-claims :
    (f : Floats) (j : ℕ) (a : Action) (tl : Timelord) → total (claim j) (follow_up f a tl) ≡ 0
unfolding follow_up
follow_up-claims f j (if_enabled t) tl = ground arith
follow_up-claims f j (adjust_difficulty t) tl =
    adjusting-claims j
      (new_difficulty f t tl.config.target_proof_time tl.config.vdf_config.time_parameter)
follow_up-claims f j (set_started_at job at) tl = refl
follow_up-claims f j (set_status job status) tl = refl
follow_up-claims f j (set_result job r) tl = refl
follow_up-claims f j (set_completed_at job at) tl = refl
follow_up-claims f j count_start tl = refl
follow_up-claims f j count_failed tl = refl
follow_up-claims f j count_timeout tl = refl
follow_up-claims f j (run_solver job) tl = refl
follow_up-claims f j (count_completed at t) tl = refl
follow_up-claims f j (write_difficulty t) tl = refl
follow_up-claims f j state_difficulty tl = refl

pub ending-claims : (j job : ℕ) (e : Ending) → total (claim j) (ending job e) ≡ for_job job j 1
unfolding ending
ending-claims j job timed_out = omega arith
ending-claims j job (finished r at) = omega (arith, result-claims r.has_error)
  where
    result-claims : (b : Bool) → total (claim j) (after_result job r at b) ≡ 0
    result-claims true = refl
    result-claims false = refl
