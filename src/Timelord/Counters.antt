-- ===== src/Timelord/Counters.antt =====
-- What the statistics of cmd/timelord.go count.
use shadowyapparatus.Prelude.{
  ℕ, suc, ◌+◌, ◌%◌, ◌≡◌, ◌≢◌, refl, sym, ap, subst, arith, Bool, true, false, Option, none, some,
  List, [], ◌∷◌, ◌++◌, Bytes, length, length-append, u64_mod, add64, sub64, Bool-cases, inl, inr,
  leb, ltb,
}
use shadowyapparatus.Vdf.{VdfChallenge}
use shadowyapparatus.Timelord.{
  Timelord, TimelordConfig, TimelordStats, new_timelord, store_job, enqueue_job, count_job,
}
use shadowyapparatus.Timelord.Jobs.{
  cleanup_expired_jobs, Floats, Action, set_started_at, set_status, set_result, set_completed_at,
  count_start, count_failed, count_timeout, run_solver, count_completed, if_enabled,
  adjust_difficulty, write_difficulty, state_difficulty, process_job, Ending, timed_out, finished,
  ending, after_result, follow_up, perform, adjusting, new_difficulty,
}
use shadowyapparatus.Timelord.Steps.{
  Node, Step, counted_later, store, enqueue, count, receive, act, end, clean, Reach, here, next,
  started, total, remaining, remaining-act, remaining-end,
}

-- Whether an action counts the start of a job.
abbrev pub starts : Action → ℕ
starts count_start = 1
starts _ = 0

-- Whether an action counts the end of a job, or comes to it.
abbrev pub finishes : Action → ℕ
finishes (run_solver _) = 1
finishes count_failed = 1
finishes count_timeout = 1
finishes (count_completed _ _) = 1
finishes _ = 0

-- The pending jobs and the uncounted ones are those in the queue and those whose start is not counted;
-- the active workers and the latter are the workers whose end is not counted; the total, with the
-- uncounted, also has the jobs that have ended; all as int64s.
abbrev pub AreCounted : TimelordStats → (uncounted queued starting unfinished : ℕ) → Type 0
AreCounted s uncounted queued starting unfinished =
    ((s.pending_jobs + uncounted) % u64_mod ≡ (queued + starting) % u64_mod)
    × ((s.active_workers + starting) % u64_mod ≡ unfinished % u64_mod)
    × ((s.total_jobs + uncounted) % u64_mod
        ≡ (queued + unfinished + s.completed_jobs + s.failed_jobs + s.timeout_jobs) % u64_mod)

abbrev pub IsCounted : Node → Type 0
IsCounted n =
    AreCounted n.timelord.stats n.uncounted (length n.timelord.job_queue)
      (remaining starts n.working) (remaining finishes n.working)

started-IsCounted : (config : TimelordConfig) → IsCounted (started config)
unfolding new_timelord
started-IsCounted config = (refl, refl, refl)

store_counts :
    (c : VdfChallenge) (priority now : ℕ) (tl : Timelord) (u starting unfinished : ℕ)
    → AreCounted tl.stats u (length tl.job_queue) starting unfinished
    → AreCounted
        (store_job c priority now tl).1.stats
        u
        (length (store_job c priority now tl).1.job_queue)
        starting
        unfinished
unfolding store_job
store_counts c priority now tl u starting unfinished h =
    elim (Bool-cases (leb tl.config.max_pending_challenges (length tl.jobs))) [
      | inl e ↦ rw e h
      | inr e ↦ rw e h
    ]

enqueue_counts :
    (id : Bytes) (job : ℕ) (tl : Timelord) (u starting unfinished : ℕ)
    → AreCounted tl.stats u (length tl.job_queue) starting unfinished
    → AreCounted
        (enqueue_job id job tl).1.stats
        (counted_later (enqueue_job id job tl).0 u)
        (length (enqueue_job id job tl).1.job_queue)
        starting
        unfinished
unfolding enqueue_job
enqueue_counts id job tl u starting unfinished h =
    let l = length-append tl.job_queue (job ∷ []) in
    elim (Bool-cases (ltb (length tl.job_queue) tl.config.max_pending_challenges)) [
      | inl e ↦ rw e (omega arith, omega arith, omega arith)
      | inr e ↦ rw e h
    ]

count_counts :
    (tl : Timelord) (left q starting unfinished : ℕ)
    → AreCounted tl.stats (suc left) q starting unfinished
    → AreCounted (count_job tl).stats left q starting unfinished
unfolding count_job add64
count_counts tl left q starting unfinished h = (omega arith, omega arith, omega arith)

-- What an action leaves to do counts nothing.
adjusting_counts :
    (o : Option ℕ) → (total starts (adjusting o) ≡ 0) × (total finishes (adjusting o) ≡ 0)
adjusting_counts none = (refl, refl)
adjusting_counts (some t) = (refl, refl)

more_counts :
    (f : Floats) (a : Action) (tl : Timelord)
    → (total starts (follow_up f a tl) ≡ 0) × (total finishes (follow_up f a tl) ≡ 0)
unfolding follow_up
more_counts f (if_enabled t) tl = ground arith
more_counts f (adjust_difficulty t) tl =
    adjusting_counts
      (new_difficulty f t tl.config.target_proof_time tl.config.vdf_config.time_parameter)
more_counts f (set_started_at job at) tl = (refl, refl)
more_counts f (set_status job status) tl = (refl, refl)
more_counts f (set_result job r) tl = (refl, refl)
more_counts f (set_completed_at job at) tl = (refl, refl)
more_counts f count_start tl = (refl, refl)
more_counts f count_failed tl = (refl, refl)
more_counts f count_timeout tl = (refl, refl)
more_counts f (run_solver job) tl = (refl, refl)
more_counts f (count_completed at t) tl = (refl, refl)
more_counts f (write_difficulty t) tl = (refl, refl)
more_counts f state_difficulty tl = (refl, refl)

pub perform-queue :
    (f : Floats) (a : Action) (tl : Timelord) → (perform f a tl).job_queue ≡ tl.job_queue
unfolding perform
perform-queue f (if_enabled t) tl = refl
perform-queue f (adjust_difficulty t) tl = refl
perform-queue f (set_started_at job at) tl = refl
perform-queue f (set_status job status) tl = refl
perform-queue f (set_result job r) tl = refl
perform-queue f (set_completed_at job at) tl = refl
perform-queue f count_start tl = refl
perform-queue f count_failed tl = refl
perform-queue f count_timeout tl = refl
perform-queue f (run_solver job) tl = refl
perform-queue f (count_completed at t) tl = refl
perform-queue f (write_difficulty t) tl = refl
perform-queue f state_difficulty tl = refl

-- An action takes what it counts from what remains to be counted.
perform_counts :
    (f : Floats) (a : Action) (tl : Timelord) (u q starting unfinished : ℕ)
    → ((job : ℕ) → a ≢ run_solver job)
    → AreCounted tl.stats u q (starting + starts a) (unfinished + finishes a)
    → AreCounted (perform f a tl).stats u q starting unfinished
unfolding perform add64 sub64
perform_counts f (if_enabled t) tl u q v w n h = (omega arith, omega arith, omega arith)
perform_counts f (adjust_difficulty t) tl u q v w n h = (omega arith, omega arith, omega arith)
perform_counts f (set_started_at job at) tl u q v w n h = (omega arith, omega arith, omega arith)
perform_counts f (set_status job status) tl u q v w n h = (omega arith, omega arith, omega arith)
perform_counts f (set_result job r) tl u q v w n h = (omega arith, omega arith, omega arith)
perform_counts f (set_completed_at job at) tl u q v w n h = (omega arith, omega arith, omega arith)
perform_counts f count_start tl u q v w n h = (omega arith, omega arith, omega arith)
perform_counts f count_failed tl u q v w n h = (omega arith, omega arith, omega arith)
perform_counts f count_timeout tl u q v w n h = (omega arith, omega arith, omega arith)
perform_counts f (run_solver job) tl u q v w n h = absurd (n job refl)
perform_counts f (count_completed at t) tl u q v w n h = (omega arith, omega arith, omega arith)
perform_counts f (write_difficulty t) tl u q v w n h = (omega arith, omega arith, omega arith)
perform_counts f state_difficulty tl u q v w n h = (omega arith, omega arith, omega arith)

-- Whatever its end, a computation's end is counted once.
ending_counts :
    (job : ℕ) (e : Ending) → (total starts (ending job e) ≡ 0) × (total finishes (ending job e) ≡ 1)
unfolding ending
ending_counts job timed_out = (refl, refl)
ending_counts job (finished r at) =
    let (b, o) = result_counts r.has_error in (omega (arith, b), omega (arith, o))
  where
    result_counts :
        (b : Bool)
        → (total starts (after_result job r at b) ≡ 0)
          × (total finishes (after_result job r at b) ≡ 1)
    result_counts true = (refl, refl)
    result_counts false = (refl, refl)

Step-IsCounted : {f : Floats} {n m : Node} → Step f n m → IsCounted n → IsCounted m
unfolding cleanup_expired_jobs count_job process_job
Step-IsCounted (store c priority now n) h =
    store_counts c priority now n.timelord n.uncounted (remaining starts n.working)
      (remaining finishes n.working) h
Step-IsCounted (enqueue id job before after n e) h =
    enqueue_counts id job n.timelord n.uncounted (remaining starts n.working)
      (remaining finishes n.working) h
Step-IsCounted (count left n e) h =
    let AreLeft : ℕ → Type 0 = λ u.
      AreCounted n.timelord.stats u (length n.timelord.job_queue) (remaining starts n.working)
        (remaining finishes n.working) in
    count_counts n.timelord left (length n.timelord.job_queue) (remaining starts n.working)
      (remaining finishes n.working) (subst AreLeft e h)
Step-IsCounted (receive job now queue n e) h =
    let l = ap (λ (q : List ℕ). length q) e in (omega (arith, l), omega arith, omega (arith, l))
Step-IsCounted {f} (act a rest before after n e other) h =
    let tl = n.timelord in
    let left = follow_up f a tl in
    let none_left = more_counts f a tl in
    let begun = remaining-act starts n before after a rest left e in
    let over = remaining-act finishes n before after a rest left e in
    let v = remaining starts (before ++ ((left ++ rest) ∷ after)) in
    let w = remaining finishes (before ++ ((left ++ rest) ∷ after)) in
    let h' : AreCounted tl.stats n.uncounted (length tl.job_queue) (v + starts a) (w + finishes a) =
      (
        omega (arith, none_left.0, begun),
        omega (arith, none_left, begun, over),
        omega (arith, none_left.1, over),
      ) in
    subst (λ q. AreCounted (perform f a tl).stats n.uncounted (length q) v w)
      (sym (perform-queue f a tl))
      (perform_counts f a tl n.uncounted (length tl.job_queue) v w other h')
Step-IsCounted (end job e before after n p) h =
    let (none_begun, one_over) = ending_counts job e in
    let begun = remaining-end starts n before after job (ending job e) p in
    let over = remaining-end finishes n before after job (ending job e) p in
    (
      omega (arith, none_begun, begun),
      omega (arith, none_begun, one_over, begun, over),
      omega (arith, one_over, over),
    )
Step-IsCounted (clean now n) h = h

-- However the steps of submitters, workers and cleanups follow each other from a new timelord on, the
-- counters of its statistics, as they are kept (`GetStats` counts the pending jobs anew), agree with
-- what there is to count: the pending jobs with the queued, plus those received whose start is not
-- counted, less those whose submission is not; the active workers with the jobs received and not yet
-- counted as over, less those whose start is not counted; the total, with the uncounted submissions, is
-- the sum of the queued, the received and not over, the completed, the failed and the timed out; each
-- as an int64.
pub jobs-IsCounted :
    (f : Floats) (config : TimelordConfig) (n : Node) → Reach f (started config) n → IsCounted n
jobs-IsCounted f config _ here = started-IsCounted config
jobs-IsCounted f config _ (next r s) = Step-IsCounted s (jobs-IsCounted f config _ r)
