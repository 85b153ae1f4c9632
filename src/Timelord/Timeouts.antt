-- ===== src/Timelord/Timeouts.antt =====
-- What becomes of the jobs of cmd/timelord.go that time out.
use shadowyapparatus.Prelude.{
  ℕ, ◌≤◌, ◌≡◌, ◌≢◌, refl, sym, ap, subst, ◌∙◌, arith, false, Option, none, some, List, [], ◌∷◌,
  ◌++◌, Bytes, length,
}
use shadowyapparatus.Dict.{Dict, lookup, bytes_key, number_key}
use shadowyapparatus.Vdf.{VdfChallenge}
use shadowyapparatus.Timelord.{
  Timelord, TimelordConfig, TimelordJob, JobStatus, store_job, count_job,
}
use shadowyapparatus.Timelord.Jobs.{
  cleanup_expired_jobs, cleaned, is_expired, Floats, Action, run_solver,
}
use shadowyapparatus.Timelord.Steps.{
  Node, Step, store, enqueue, count, receive, act, end, clean, Reach, here, next, started,
  remaining, remaining-middle,
}
use shadowyapparatus.Timelord.Claims.{EndsOnce, marks, has_time}
use shadowyapparatus.Timelord.Endings.{jobs-EndsOnce}

abbrev pub HasTimedOut : Option TimelordJob → Type 0
HasTimedOut none = Unit
HasTimedOut (some j) = j.status ≡ JobStatus.timeout

abbrev pub AllTimedOut : Dict ℕ TimelordJob → Dict Bytes ℕ → Type 0
AllTimedOut s [] = Unit
AllTimedOut s ((id, job) ∷ m) = HasTimedOut (lookup job s) × AllTimedOut s m

-- What the workers still have to do.
abbrev pub work : Node → ℕ
work n = remaining (λ _. 1) n.working

-- As many jobs as are allowed, all of them timed out, and nothing under way.
pub record IsClogged (n : Node) : Type 0 where
  pub full : n.timelord.config.max_pending_challenges ≤ length n.timelord.jobs
  pub timeouts : AllTimedOut n.timelord.store n.timelord.jobs
  pub no_queue : n.timelord.job_queue ≡ []
  pub no_submission : n.submitting ≡ []
  pub no_work : work n ≡ 0

-- The same, with jobs that have no time of completion.
abbrev IsStuck : Option TimelordJob → Type 0
IsStuck none = Unit
IsStuck (some j) = j.completed_at ≡ none

abbrev AllStuck : Dict ℕ TimelordJob → Dict Bytes ℕ → Type 0
AllStuck s [] = Unit
AllStuck s ((id, job) ∷ m) = IsStuck (lookup job s) × AllStuck s m

record IsBlocked (n : Node) : Type 0 where
  full : n.timelord.config.max_pending_challenges ≤ length n.timelord.jobs
  timeouts : AllStuck n.timelord.store n.timelord.jobs
  no_queue : n.timelord.job_queue ≡ []
  no_submission : n.submitting ≡ []
  no_work : work n ≡ 0

no_time : (o : Option ℕ) → has_time o ≡ 0 → o ≡ none
no_time none h = refl
no_time (some t) h = absurd (omega (arith, h))

timed_out-IsStuck : (o : Option TimelordJob) → marks o ≤ 1 → HasTimedOut o → IsStuck o
timed_out-IsStuck none l h = tt
timed_out-IsStuck (some x) l h = no_time x.completed_at (ground (arith, l, h))

all-AllStuck :
    (s : Dict ℕ TimelordJob) (m : Dict Bytes ℕ)
    → ((j : ℕ) → marks (lookup j s) ≤ 1)
    → AllTimedOut s m
    → AllStuck s m
all-AllStuck s [] l h = tt
all-AllStuck s ((id, job) ∷ m) l h =
    (timed_out-IsStuck (lookup job s) (l job) h.0, all-AllStuck s m l h.1)

clogged-IsBlocked : (n : Node) → EndsOnce n → IsClogged n → IsBlocked n
clogged-IsBlocked n o h = record {
  full = h.full;
  timeouts =
      all-AllStuck n.timelord.store n.timelord.jobs (λ j. omega (arith, o.once j)) h.timeouts;
  no_queue = h.no_queue;
  no_submission = h.no_submission;
  no_work = h.no_work;
}

not_expired : (now : ℕ) (o : Option TimelordJob) → IsStuck o → is_expired now o ≡ false
not_expired now none h = refl
not_expired now (some j) h = ground arith

cleaned-eq :
    (now : ℕ) (s : Dict ℕ TimelordJob) (m : Dict Bytes ℕ) → AllStuck s m → cleaned now s m ≡ m
unfolding cleaned
cleaned-eq now s [] h = refl
cleaned-eq now s ((id, job) ∷ m) h =
    rw (not_expired now (lookup job s) h.0, cleaned-eq now s m h.1) refl

not_middle {ℓ} : {A : Type ℓ} (before after : List A) (a : A) → before ++ (a ∷ after) ≢ []
not_middle [] after a e = absurd (cc)
not_middle (b ∷ before) after a e = absurd (cc)

refuses :
    (c : VdfChallenge) (priority now : ℕ) (tl : Timelord)
    → tl.config.max_pending_challenges ≤ length tl.jobs
    → store_job c priority now tl ≡ (none, tl)
unfolding store_job
refuses c priority now tl h = ground arith

at_work :
    (n : Node) (before after : List (List Action)) (a : Action) (rest : List Action)
    → n.working ≡ before ++ ((a ∷ rest) ∷ after)
    → work n ≢ 0
at_work n before after a rest e z =
    absurd (
      omega
        (arith, ap (remaining (λ _. 1)) e, remaining-middle (λ _. 1) before after (a ∷ rest), z))

Step-IsBlocked : {f : Floats} {n m : Node} → Step f n m → IsBlocked n → IsBlocked m
unfolding count_job cleanup_expired_jobs
Step-IsBlocked (store c priority now n) h = rw (refuses c priority now n.timelord h.full) h
Step-IsBlocked (enqueue id job before after n e) h =
    absurd (not_middle before after (id, job) (sym e ∙ h.no_submission))
Step-IsBlocked (count left n e) h = record {
  full = h.full;
  timeouts = h.timeouts;
  no_queue = h.no_queue;
  no_submission = h.no_submission;
  no_work = h.no_work;
}
Step-IsBlocked (receive job now queue n e) h = absurd (not_middle [] queue job (sym e ∙ h.no_queue))
Step-IsBlocked (act a rest before after n e other) h =
    absurd (at_work n before after a rest e h.no_work)
Step-IsBlocked (end job e before after n p) h =
    absurd (at_work n before after (run_solver job) [] p h.no_work)
Step-IsBlocked (clean now n) h =
    let q = cleaned-eq now n.timelord.store n.timelord.jobs h.timeouts in
    record {
      full =
          subst (λ (m : Dict Bytes ℕ). n.timelord.config.max_pending_challenges ≤ length m) (sym q)
            h.full;
      timeouts = subst (λ m. AllStuck n.timelord.store m) (sym q) h.timeouts;
      no_queue = h.no_queue;
      no_submission = h.no_submission;
      no_work = h.no_work;
    }

-- A timelord that has come, by any steps, to have as many jobs as it may have, all of them timed out,
-- and nothing under way: it never takes a challenge again. No cleanup, however late, removes such a job.
pub clogged_timelord_refuses :
    (f : Floats) (config : TimelordConfig) (n m : Node)
    → Reach f (started config) n
    → IsClogged n
    → Reach f n m
    → (c : VdfChallenge) (priority now : ℕ)
    → store_job c priority now m.timelord ≡ (none, m.timelord)
clogged_timelord_refuses f config n m before h r c priority now =
    refuses c priority now m.timelord (Reach-IsBlocked r).full
  where
    Reach-IsBlocked : {k : Node} → Reach f n k → IsBlocked k
    Reach-IsBlocked here = clogged-IsBlocked n (jobs-EndsOnce f config n before) h
    Reach-IsBlocked (next r s) = Step-IsBlocked s (Reach-IsBlocked r)
