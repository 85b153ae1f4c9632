-- ===== src/Timelord/Steps.antt =====
-- The timelord of cmd/timelord.go with the goroutines around it, one step after another.
use shadowyapparatus.Prelude.{
  ℕ, suc, ◌+◌, ◌≡◌, ◌≢◌, ap, arith, Option, none, some, Bool, true, false, List, [], ◌∷◌, ◌++◌,
  Bytes,
}
use shadowyapparatus.Vdf.{VdfChallenge}
use shadowyapparatus.Timelord.{
  Timelord, TimelordConfig, new_timelord, store_job, enqueue_job, count_job,
}
use shadowyapparatus.Timelord.Jobs.{
  process_job, ending, perform, follow_up, Action, run_solver, Ending, Floats, cleanup_expired_jobs,
}

-- `submitting` has the jobs between the first and the second part of their submission, `uncounted`
-- the number of those between the second and the third, and `working` what each worker that has taken a
-- job still has to do.
pub record Node : Type 0 where
  pub timelord : Timelord
  pub submitting : List (Bytes × ℕ)
  pub uncounted : ℕ
  pub working : List (List Action)

abbrev pub started : TimelordConfig → Node
started config = record {
  timelord = new_timelord config;
  submitting = [];
  uncounted = 0;
  working = [];
}

-- What a first part leaves behind.
abbrev pub submitted : VdfChallenge → Option ℕ → List (Bytes × ℕ) → List (Bytes × ℕ)
submitted c none jobs = jobs
submitted c (some job) jobs = (c.id, job) ∷ jobs

abbrev pub counted_later : Bool → ℕ → ℕ
counted_later true n = suc n
counted_later false n = n

pub data Step (f : Floats) : Node → Node → Type 0 where
  store :
      (c : VdfChallenge) (priority now : ℕ) (n : Node)
      → Step f n (record n {
        timelord = (store_job c priority now n.timelord).1;
        submitting = submitted c (store_job c priority now n.timelord).0 n.submitting;
      })
  enqueue :
      (id : Bytes) (job : ℕ) (before after : List (Bytes × ℕ)) (n : Node)
      → n.submitting ≡ before ++ ((id, job) ∷ after)
      → Step f n (record n {
        timelord = (enqueue_job id job n.timelord).1;
        submitting = before ++ after;
        uncounted = counted_later (enqueue_job id job n.timelord).0 n.uncounted;
      })
  count :
      (left : ℕ) (n : Node)
      → n.uncounted ≡ suc left
      → Step f n (record n { timelord = count_job n.timelord; uncounted = left })
  receive :
      (job now : ℕ) (queue : List ℕ) (n : Node)
      → n.timelord.job_queue ≡ job ∷ queue
      → Step f n (record n {
        timelord = record n.timelord { job_queue = queue };
        working = process_job job now ∷ n.working;
      })
  act :
      (a : Action) (rest : List Action) (before after : List (List Action)) (n : Node)
      → n.working ≡ before ++ ((a ∷ rest) ∷ after)
      → ((job : ℕ) → a ≢ run_solver job)
      → Step f n (record n {
        timelord = perform f a n.timelord;
        working = before ++ ((follow_up f a n.timelord ++ rest) ∷ after);
      })
  end :
      (job : ℕ) (e : Ending) (before after : List (List Action)) (n : Node)
      → n.working ≡ before ++ ((run_solver job ∷ []) ∷ after)
      → Step f n (record n { working = before ++ (ending job e ∷ after) })
  clean :
      (now : ℕ) (n : Node) → Step f n (record n { timelord = cleanup_expired_jobs now n.timelord })

pub data Reach (f : Floats) (n : Node) : Node → Type 0 where
  here : Reach f n n
  next : {m k : Node} → Reach f n m → Step f m k → Reach f n k

-- What remains to be done, with a weight for each action.
abbrev pub total : (Action → ℕ) → List Action → ℕ
total w [] = 0
total w (a ∷ xs) = w a + total w xs

abbrev pub remaining : (Action → ℕ) → List (List Action) → ℕ
remaining w [] = 0
remaining w (xs ∷ rest) = total w xs + remaining w rest

pub total-append :
    (w : Action → ℕ) (xs ys : List Action) → total w (xs ++ ys) ≡ total w xs + total w ys
total-append w [] ys = omega arith
total-append w (x ∷ xs) ys = omega (arith, total-append w xs ys)

pub remaining-middle :
    (w : Action → ℕ) (before after : List (List Action)) (xs : List Action)
    → remaining w (before ++ (xs ∷ after)) ≡ total w xs + remaining w (before ++ after)
remaining-middle w [] after xs = omega arith
remaining-middle w (b ∷ before) after xs = omega (arith, remaining-middle w before after xs)

-- How an action and the end of a computation move a weight.
pub remaining-act :
    (w : Action → ℕ) (n : Node) (before after : List (List Action)) (a : Action)
    (rest more_to_do : List Action)
    → n.working ≡ before ++ ((a ∷ rest) ∷ after)
    → remaining w (before ++ ((more_to_do ++ rest) ∷ after)) + w a
      ≡ remaining w n.working + total w more_to_do
remaining-act w n before after a rest more_to_do e = omega (
  arith,
  ap (remaining w) e,
  remaining-middle w before after (a ∷ rest),
  remaining-middle w before after (more_to_do ++ rest),
  total-append w more_to_do rest,
)

pub remaining-end :
    (w : Action → ℕ) (n : Node) (before after : List (List Action)) (job : ℕ) (xs : List Action)
    → n.working ≡ before ++ ((run_solver job ∷ []) ∷ after)
    → remaining w (before ++ (xs ∷ after)) + w (run_solver job) ≡ remaining w n.working + total w xs
remaining-end w n before after job xs e = omega (
  arith,
  ap (remaining w) e,
  remaining-middle w before after (run_solver job ∷ []),
  remaining-middle w before after xs,
)
