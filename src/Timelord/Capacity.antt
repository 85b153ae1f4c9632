-- ===== src/Timelord/Capacity.antt =====
-- The limits on the jobs in cmd/timelord.go.
use shadowyapparatus.Prelude.{
  ℕ, suc, ◌≤◌, ◌≡◌, refl, ap, arith, List, [], ◌∷◌, Bytes, length, length-append,
}
use shadowyapparatus.Dict.{Dict, insert, erase, bytes_key}
use shadowyapparatus.Timelord.{
  Timelord, TimelordConfig, TimelordJob, new_timelord, store_job, enqueue_job, count_job,
}
use shadowyapparatus.Timelord.Jobs.{
  cleanup_expired_jobs, cleaned, Floats, Action, set_started_at, set_status, set_result,
  set_completed_at, count_start, count_failed, count_timeout, run_solver, count_completed,
  if_enabled, adjust_difficulty, write_difficulty, state_difficulty, perform,
}
use shadowyapparatus.Timelord.Steps.{
  Node, Step, store, enqueue, count, receive, act, end, clean, Reach, here, next, started,
}

length-insert-le :
    (id : Bytes) (job : ℕ) (m : Dict Bytes ℕ) → length (insert id job m) ≤ suc (length m)
unfolding insert
length-insert-le id job [] = omega arith
length-insert-le id job ((k, j) ∷ m) = ground (arith, length-insert-le id job m)

length-erase-le : (id : Bytes) (m : Dict Bytes ℕ) → length (erase id m) ≤ length m
unfolding erase
length-erase-le id [] = omega arith
length-erase-le id ((k, j) ∷ m) = ground (arith, length-erase-le id m)

length-cleaned-le :
    (now : ℕ) (s : Dict ℕ TimelordJob) (m : Dict Bytes ℕ) → length (cleaned now s m) ≤ length m
unfolding cleaned
length-cleaned-le now s [] = omega arith
length-cleaned-le now s ((k, j) ∷ m) = ground (arith, length-cleaned-le now s m)

abbrev pub IsWithin : ℕ → Timelord → Type 0
IsWithin max tl =
    (tl.config.max_pending_challenges ≡ max) × (length tl.jobs ≤ max) × (length tl.job_queue ≤ max)

perform-IsWithin :
    (f : Floats) (max : ℕ) (a : Action) (tl : Timelord)
    → IsWithin max tl
    → IsWithin max (perform f a tl)
unfolding perform
perform-IsWithin f max (if_enabled t) tl h = h
perform-IsWithin f max (adjust_difficulty t) tl h = h
perform-IsWithin f max (set_started_at job at) tl h = h
perform-IsWithin f max (set_status job status) tl h = h
perform-IsWithin f max (set_result job r) tl h = h
perform-IsWithin f max (set_completed_at job at) tl h = h
perform-IsWithin f max count_start tl h = h
perform-IsWithin f max count_failed tl h = h
perform-IsWithin f max count_timeout tl h = h
perform-IsWithin f max (run_solver job) tl h = h
perform-IsWithin f max (count_completed at t) tl h = h
perform-IsWithin f max (write_difficulty t) tl h = h
perform-IsWithin f max state_difficulty tl h = h

Step-IsWithin :
    {f : Floats} {n m : Node} (max : ℕ)
    → Step f n m
    → IsWithin max n.timelord
    → IsWithin max m.timelord
unfolding store_job enqueue_job count_job cleanup_expired_jobs
Step-IsWithin max (store c priority now n) h =
    ground (arith, length-insert-le c.id n.timelord.next_job n.timelord.jobs)
Step-IsWithin max (enqueue id job before after n e) h =
    ground
      (arith, length-erase-le id n.timelord.jobs, length-append n.timelord.job_queue (job ∷ []))
Step-IsWithin max (count left n e) h = h
Step-IsWithin max (receive job now queue n e) h =
    (h.0, h.1, omega (arith, ap (λ (q : List ℕ). length q) e))
Step-IsWithin {f} max (act a rest before after n e other) h = perform-IsWithin f max a n.timelord h
Step-IsWithin max (end job e before after n p) h = h
Step-IsWithin max (clean now n) h =
    (h.0, omega (arith, length-cleaned-le now n.timelord.store n.timelord.jobs), h.2)

-- However the steps follow each other from a new timelord on, the map and the queue have no more jobs
-- than the configuration allows.
pub jobs-IsWithin :
    (f : Floats) (config : TimelordConfig) (n : Node)
    → Reach f (started config) n
    → IsWithin config.max_pending_challenges n.timelord
unfolding new_timelord
jobs-IsWithin f config _ here = (refl, omega arith, omega arith)
jobs-IsWithin f config _ (next r s) =
    Step-IsWithin config.max_pending_challenges s (jobs-IsWithin f config _ r)
