-- ===== src/Timelord/Endings.antt =====
-- How often a job of cmd/timelord.go ends.
use shadowyapparatus.Prelude.{
  ℕ, suc, ◌+◌, ◌≤◌, ◌≡◌, refl, sym, ap, ◌∙◌, arith, List, [], ◌∷◌, ◌++◌, Bytes, length, ℕ_discrete,
  leb, ltb, Bool-cases, inl, inr,
}
use shadowyapparatus.Dict.{
  Dict, lookup, insert, bytes_key, number_key, lookup-insert_self, lookup-insert_ne,
}
use shadowyapparatus.Vdf.{VdfChallenge}
use shadowyapparatus.Timelord.{
  Timelord, TimelordConfig, TimelordJob, new_timelord, store_job, enqueue_job, count_job, new_job,
}
use shadowyapparatus.Timelord.Jobs.{cleanup_expired_jobs, Floats, process_job, ending, follow_up}
use shadowyapparatus.Timelord.Steps.{
  Node, Step, store, enqueue, count, receive, act, end, clean, Reach, here, next, started,
  submitted, counted_later, remaining, remaining-act, remaining-end,
}
use shadowyapparatus.Timelord.Counters.{perform-queue}
use shadowyapparatus.Timelord.Claims.{
  for_job, claim, queued, submitting, marks, EndsOnce, queued-append, submitting-middle,
  for_job-same, for_job-other, perform-marks, perform-next, follow_up-claims, ending-claims,
}

store-EndsOnce :
    (c : VdfChallenge) (priority now : ℕ) (n : Node)
    → EndsOnce n
    → EndsOnce (record n {
      timelord = (store_job c priority now n.timelord).1;
      submitting = submitted c (store_job c priority now n.timelord).0 n.submitting;
    })
unfolding store_job
store-EndsOnce c priority now n h =
    elim (Bool-cases (leb n.timelord.config.max_pending_challenges (length n.timelord.jobs))) [
      | inl e ↦ rw e (record { once = h.once; fresh = h.fresh })
      | inr e ↦ rw e (record { once = once; fresh = fresh })
    ]
  where
    tl : Timelord
    tl = n.timelord

    made : Dict ℕ TimelordJob
    made = insert tl.next_job (new_job c priority now) tl.store

    once :
        (j : ℕ)
        → for_job tl.next_job j 1
            + submitting j n.submitting
            + queued j tl.job_queue
            + remaining (claim j) n.working
            + marks (lookup j made)
          ≤ 1
    once j = elim (ℕ_discrete tl.next_job j) [
      | yes same ↦
          let put = ap marks (
            sym (ap (λ i. lookup i made) same)
            ∙ lookup-insert_self tl.next_job (new_job c priority now) tl.store) in
          omega (arith, put, h.fresh j (omega (arith, same)), for_job-same tl.next_job j 1 same)
      | no other ↦ omega (
        arith,
        ap marks (lookup-insert_ne j tl.next_job (new_job c priority now) tl.store other),
        h.once j,
        for_job-other tl.next_job j 1 other,
      )
    ]

    fresh :
        (j : ℕ)
        → suc tl.next_job ≤ j
        → for_job tl.next_job j 1
            + submitting j n.submitting
            + queued j tl.job_queue
            + remaining (claim j) n.working
          ≡ 0
    fresh j l = omega (
      arith,
      h.fresh j (omega (arith, l)),
      for_job-other tl.next_job j 1 (λ e. absurd (omega (arith, e, l))),
    )

enqueue-EndsOnce :
    (id : Bytes) (job : ℕ) (before after : List (Bytes × ℕ)) (n : Node)
    → n.submitting ≡ before ++ ((id, job) ∷ after)
    → EndsOnce n
    → EndsOnce (record n {
      timelord = (enqueue_job id job n.timelord).1;
      submitting = before ++ after;
      uncounted = counted_later (enqueue_job id job n.timelord).0 n.uncounted;
    })
unfolding enqueue_job
enqueue-EndsOnce id job before after n e h =
    let out : (j : ℕ)
        → submitting j n.submitting ≡ for_job job j 1 + submitting j (before ++ after) =
      λ j. ap (submitting j) e ∙ submitting-middle j job id before after in
    let add = λ (j : ℕ). queued-append j n.timelord.job_queue (job ∷ []) in
    elim (Bool-cases (ltb (length n.timelord.job_queue) n.timelord.config.max_pending_challenges)) [
      | inl q ↦ rw q (record {
        once = λ j. omega (arith, out j, add j, h.once j);
        fresh = λ j l. omega (arith, out j, add j, h.fresh j l);
      })
      | inr q ↦ rw q (record {
        once = λ j. omega (arith, out j, h.once j);
        fresh = λ j l. omega (arith, out j, h.fresh j l);
      })
    ]

Step-EndsOnce : {f : Floats} {n m : Node} → Step f n m → EndsOnce n → EndsOnce m
unfolding count_job cleanup_expired_jobs process_job
Step-EndsOnce (store c priority now n) h = store-EndsOnce c priority now n h
Step-EndsOnce (enqueue id job before after n e) h = enqueue-EndsOnce id job before after n e h
Step-EndsOnce (count left n e) h = record { once = h.once; fresh = h.fresh }
Step-EndsOnce (receive job now queue n e) h =
    let out = λ (j : ℕ). ap (queued j) e in
    record {
      once = λ j. omega (arith, out j, h.once j);
      fresh = λ j l. omega (arith, out j, h.fresh j l);
    }
Step-EndsOnce {f} (act a rest before after n e other) h =
    let tl = n.timelord in
    let left = follow_up f a tl in
    let out = λ (j : ℕ). remaining-act (claim j) n before after a rest left e in
    let queue = λ (j : ℕ). ap (queued j) (perform-queue f a tl) in
    record {
      once = λ j.
          omega
            (arith, out j, follow_up-claims f j a tl, queue j, perform-marks f j a tl, h.once j);
      fresh = λ j l. omega (
        arith,
        out j,
        follow_up-claims f j a tl,
        queue j,
        h.fresh j (omega (arith, perform-next f a tl, l)),
      );
    }
Step-EndsOnce (end job e before after n p) h =
    let out = λ (j : ℕ). remaining-end (claim j) n before after job (ending job e) p in
    record {
      once = λ j. omega (arith, out j, ending-claims j job e, h.once j);
      fresh = λ j l. omega (arith, out j, ending-claims j job e, h.fresh j l);
    }
Step-EndsOnce (clean now n) h = record { once = h.once; fresh = h.fresh }

-- From a new timelord on, whatever the order of the steps, a job that has a time of completion has not
-- timed out, and nothing is left to end it.
pub jobs-EndsOnce :
    (f : Floats) (config : TimelordConfig) (n : Node) → Reach f (started config) n → EndsOnce n
unfolding new_timelord lookup
jobs-EndsOnce f config _ here = record { once = λ j. omega arith; fresh = λ j l. refl }
jobs-EndsOnce f config _ (next r s) = Step-EndsOnce s (jobs-EndsOnce f config _ r)
