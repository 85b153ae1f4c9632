-- ===== src/Timelord/Difficulty.antt =====
-- The range of the difficulty in cmd/timelord.go.
use shadowyapparatus.Prelude.{
  ℕ, ◌≤◌, ◌≡◌, ◌&&◌, refl, arith, Bool, true, false, Option, none, some, leb, if◌then◌else◌,
}
use shadowyapparatus.Timelord.{
  Timelord, TimelordConfig, new_timelord, store_job, enqueue_job, count_job,
}
use shadowyapparatus.Timelord.Jobs.{
  cleanup_expired_jobs, Floats, Action, set_started_at, set_status, set_result, set_completed_at,
  count_start, count_failed, count_timeout, run_solver, count_completed, if_enabled,
  adjust_difficulty, write_difficulty, state_difficulty, process_job, Ending, timed_out, finished,
  ending, after_result, follow_up, perform, adjusting, new_difficulty,
}
use shadowyapparatus.Timelord.Steps.{
  Node, Step, store, enqueue, count, receive, act, end, clean, Reach, here, next, started, total,
  remaining, remaining-act, remaining-end,
}

abbrev pub IsInRange : ℕ → Type 0
IsInRange t = (1000 ≤ t) × (t ≤ 10000000)

-- Up to ten million, a factor of 0.9 does not raise a number, and a factor of 1.1 does not lower it.
pub record AreFactors (f : Floats) : Type 0 where
  pub lowered : (n : ℕ) → n ≤ 10000000 → f.decreased n ≤ n
  pub raised : (n : ℕ) → n ≤ 10000000 → n ≤ f.increased n

-- The difficulty that challenges get, and the one that the statistics state.
abbrev pub IsModerate : Timelord → Type 0
IsModerate tl =
    IsInRange tl.config.vdf_config.time_parameter × IsInRange tl.stats.current_difficulty

-- A write of a difficulty out of range.
abbrev strays : Action → ℕ
strays (write_difficulty t) = if leb 1000 t && leb t 10000000 then 0 else 1
strays _ = 0

module _ (f : Floats) (law : AreFactors f) where
  adjusting_within :
      (o : Option ℕ) → ((t : ℕ) → o ≡ some t → IsInRange t) → total strays (adjusting o) ≡ 0
  adjusting_within none h = refl
  adjusting_within (some t) h = let r = h t refl in ground arith

  new_difficulty-IsInRange :
      (proof_time target t t' : ℕ)
      → IsInRange t
      → new_difficulty f proof_time target t ≡ some t'
      → IsInRange t'
  unfolding new_difficulty
  new_difficulty-IsInRange proof_time target t t' h e =
      let d = law.lowered t h.1 in let i = law.raised t h.1 in ground arith

  more_within : (a : Action) (tl : Timelord) → IsModerate tl → total strays (follow_up f a tl) ≡ 0
  unfolding follow_up
  more_within (if_enabled t) tl h = ground arith
  more_within (adjust_difficulty t) tl h =
      let target = tl.config.target_proof_time in
      let old = tl.config.vdf_config.time_parameter in
      adjusting_within (new_difficulty f t target old)
        (λ t'. new_difficulty-IsInRange t target old t' h.0)
  more_within (set_started_at job at) tl h = refl
  more_within (set_status job status) tl h = refl
  more_within (set_result job r) tl h = refl
  more_within (set_completed_at job at) tl h = refl
  more_within count_start tl h = refl
  more_within count_failed tl h = refl
  more_within count_timeout tl h = refl
  more_within (run_solver job) tl h = refl
  more_within (count_completed at t) tl h = refl
  more_within (write_difficulty t) tl h = refl
  more_within state_difficulty tl h = refl

  perform-IsModerate :
      (a : Action) (tl : Timelord) → strays a ≡ 0 → IsModerate tl → IsModerate (perform f a tl)
  unfolding perform
  perform-IsModerate (if_enabled t) tl s h = h
  perform-IsModerate (adjust_difficulty t) tl s h = h
  perform-IsModerate (set_started_at job at) tl s h = h
  perform-IsModerate (set_status job status) tl s h = h
  perform-IsModerate (set_result job r) tl s h = h
  perform-IsModerate (set_completed_at job at) tl s h = h
  perform-IsModerate count_start tl s h = h
  perform-IsModerate count_failed tl s h = h
  perform-IsModerate count_timeout tl s h = h
  perform-IsModerate (run_solver job) tl s h = h
  perform-IsModerate (count_completed at t) tl s h = h
  perform-IsModerate (write_difficulty t) tl s h = (ground arith, h.1)
  perform-IsModerate state_difficulty tl s h = (h.0, h.0)

  ending_within : (job : ℕ) (e : Ending) → total strays (ending job e) ≡ 0
  unfolding ending
  ending_within job timed_out = refl
  ending_within job (finished r at) = omega (arith, result_within r.has_error)
    where
      result_within : (b : Bool) → total strays (after_result job r at b) ≡ 0
      result_within true = refl
      result_within false = refl

  Step-IsModerate :
      {n m : Node}
      → Step f n m
      → IsModerate n.timelord × (remaining strays n.working ≡ 0)
      → IsModerate m.timelord × (remaining strays m.working ≡ 0)
  unfolding store_job enqueue_job count_job cleanup_expired_jobs process_job
  Step-IsModerate (store c priority now n) h = (ground arith, h.1)
  Step-IsModerate (enqueue id job before after n e) h = (ground arith, h.1)
  Step-IsModerate (count left n e) h = h
  Step-IsModerate (receive job now queue n e) h = (h.0, omega (arith, h.1))
  Step-IsModerate (act a rest before after n e other) h =
      let left = follow_up f a n.timelord in
      let t = remaining-act strays n before after a rest left e in
      let l = more_within a n.timelord h.0 in
      (perform-IsModerate a n.timelord (omega (arith, t, l, h.1)) h.0, omega (arith, t, l, h.1))
  Step-IsModerate (end job e before after n p) h = (
    h.0,
    omega
        (arith, remaining-end strays n before after job (ending job e) p, ending_within job e, h.1),
  )
  Step-IsModerate (clean now n) h = h

  -- A timelord that starts with a difficulty between 1000 and ten million, with factors that do not
  -- raise or lower a number up to ten million the wrong way: whatever durations the proofs take, and
  -- however the workers' reads and writes of the difficulty come between each other,
  -- it stays in this range, and so does the one that the statistics state.
  pub difficulty-IsModerate :
      (config : TimelordConfig) (n : Node)
      → 1000 ≤ config.vdf_config.time_parameter
      → config.vdf_config.time_parameter ≤ 10000000
      → Reach f (started config) n
      → IsModerate n.timelord
  unfolding new_timelord
  difficulty-IsModerate config n low high r = (Reach-IsModerate r).0
    where
      Reach-IsModerate :
          {m : Node}
          → Reach f (started config) m
          → IsModerate m.timelord × (remaining strays m.working ≡ 0)
      Reach-IsModerate here = (((low, high), (low, high)), refl)
      Reach-IsModerate (next r s) = Step-IsModerate s (Reach-IsModerate r)
