-- ===== src/Executor/Validated.antt =====
-- What `ValidateTokenOperationExecution` lets through is what can be executed.
use shadowyapparatus.Prelude.{
  ℕ, ◌≤◌, ◌≡◌, ◌↔◌, ◌⊎◌, inl, inr, refl, ◌∙◌, arith, Option, none, some, List, [], ◌∷◌, Bytes,
  bytes, ltb, mul64,
}
use shadowyapparatus.Prelude.Tests.{Option-cases, Bool-cases, ltb-false→le}
use shadowyapparatus.Token.{SyndicateType, TokenMetadata, TokenOpType, TokenOperation}
use shadowyapparatus.Dict.{lookup, bytes_key}
use shadowyapparatus.TokenState.{TokenState, Error, ok, err, balance, no_such_token, insufficient}
use shadowyapparatus.TokenState.Operations.{melt_token}
use shadowyapparatus.TokenState.Queries.{get_token_info, get_token_balance}
use shadowyapparatus.TokenState.Validity.{IsValid}
use shadowyapparatus.TokenState.Success.{transfer_succeeds_iff, melt_succeeds_iff}
use shadowyapparatus.Executor.Monad.{Failure, Result, done, failed, state_error}
use shadowyapparatus.Executor.Results.{TokenOpResult, op_result}
use shadowyapparatus.Executor.Operations.{
  TokenExecutor, Surroundings, execute_token_operation, execute_as, execute_token_melt, before_melt,
}
use shadowyapparatus.Executor.Execution.{
  TokenExecutionResult, execute_token_operations, execute_loop, rollback_operations, no_operations,
  with_operation,
}
use shadowyapparatus.Executor.Requirements.{
  Unmet, validate_token_operation_execution, require_as, require_holding, not_there,
}
use shadowyapparatus.Executor.Ordinary.{
  IsOrdinary, AlwaysWritten, transfer_cases, ordinary_done, ordinary_failed,
}

abbrev pub Succeeds : Result (TokenExecutionResult × Option Failure) × TokenExecutor → Type 0
Succeeds r =
    (result : TokenExecutionResult) × (te' : TokenExecutor) × (r ≡ (done (result, none), te'))

abbrev Holds : Bytes → Bytes → ℕ → TokenState → Type 0
Holds id a n s = (t : TokenMetadata) × (lookup id s.tokens ≡ some t) × (n ≤ balance id a s)

holding_iff :
    (id a : Bytes) (n : ℕ) (u : Unmet) (s : TokenState)
    → (require_holding id a n u s ≡ none) ↔ Holds id a n s
unfolding require_holding get_token_info get_token_balance
holding_iff id a n u s = (there, λ (t, known, enough). ground arith)
  where
    there : require_holding id a n u s ≡ none → Holds id a n s
    there h = elim (Option-cases (lookup id s.tokens)) [
      | inl unknown ↦ absurd (ground arith)
      | inr (t, known) ↦ (t, known, ground arith)
    ]

-- One operation that is carried out, and one that fails.
module _ (e : Surroundings) (op : TokenOperation) (te : TokenExecutor) where
  one_done :
      (r : TokenOpResult) (te' : TokenExecutor)
      → execute_token_operation e op 0 te ≡ (done r, te')
      → Succeeds (execute_token_operations e (op ∷ []) te)
  unfolding execute_token_operations execute_loop
  one_done r te' h = (with_operation r no_operations, te', rw h)

  one_failed :
      (x : Failure) (te' : TokenExecutor)
      → execute_token_operation e op 0 te ≡ (failed x, te')
      → Succeeds (execute_token_operations e (op ∷ []) te)
      → ⊥
  unfolding execute_token_operations execute_loop rollback_operations
  one_failed x te' h (result, te'', q) = ground arith

one_required :
    (op : TokenOperation) (s : TokenState)
    → (validate_token_operation_execution (op ∷ []) s ≡ none) ↔ (require_as op.op_type op s ≡ none)
unfolding validate_token_operation_execution
one_required op s = (λ h. ground arith, λ h. ground arith)

transfer_required :
    (op : TokenOperation) (s : TokenState)
    → op.op_type ≡ TokenOpType.token_transfer
    → (require_as op.op_type op s ≡ none) ↔ Holds op.token_id op.from op.op_amount s
unfolding require_as
transfer_required op s h = rw h (holding_iff op.token_id op.from op.op_amount not_there s)

melt_required :
    (op : TokenOperation) (s : TokenState)
    → op.op_type ≡ TokenOpType.token_melt
    → (require_as op.op_type op s ≡ none) ↔ Holds op.token_id op.from op.op_amount s
unfolding require_as
melt_required op s h = rw h (holding_iff op.token_id op.from op.op_amount not_there s)

before_melt-state :
    (order : List SyndicateType) (id : Bytes) (te : TokenExecutor)
    → (before_melt order id te).token_state ≡ te.token_state
unfolding before_melt
before_melt-state order id te = ground arith

melt_done :
    (order : List SyndicateType) (op : TokenOperation) (te : TokenExecutor) (released : ℕ)
    → (melt_token op.token_id op.from op.op_amount te.token_state).0 ≡ ok released
    → (r : TokenOpResult) × (te' : TokenExecutor) × (execute_token_melt order op 0 te
        ≡ (done r, te'))
unfolding execute_token_melt
melt_done order op te released h =
    let te' = before_melt order op.token_id te in
    let h' : (melt_token op.token_id op.from op.op_amount te'.token_state).0 ≡ ok released =
      rw (before_melt-state order op.token_id te) h in
    (
      op_result 0 op op.from (bytes "") 0 released,
      record te' { token_state = (melt_token op.token_id op.from op.op_amount te'.token_state).1 },
      ground (arith, h'),
    )

melt_failed :
    (order : List SyndicateType) (op : TokenOperation) (te : TokenExecutor) (x : Error)
    → (melt_token op.token_id op.from op.op_amount te.token_state).0 ≡ err x
    → (te' : TokenExecutor) × (execute_token_melt order op 0 te ≡ (failed (state_error x), te'))
unfolding execute_token_melt
melt_failed order op te x h =
    let te' = before_melt order op.token_id te in
    let h' : (melt_token op.token_id op.from op.op_amount te'.token_state).0 ≡ err x =
      rw (before_melt-state order op.token_id te) h in
    (
      record te' { token_state = (melt_token op.token_id op.from op.op_amount te'.token_state).1 },
      ground (arith, h'),
    )

melt_cases :
    (id from : Bytes) (n : ℕ) (s : TokenState)
    → IsValid s
    → AlwaysWritten s
    → (Holds id from n s × ((released : ℕ) × ((melt_token id from n s).0 ≡ ok released)))
      ⊎ ((x : Error) × ((melt_token id from n s).0 ≡ err x))
unfolding melt_token
melt_cases id from n s v w = elim (Option-cases (lookup id s.tokens)) [
  | inl unknown ↦ inr (no_such_token, ground arith)
  | inr (t, known) ↦ elim (Bool-cases (ltb (balance id from s) n)) [
    | inl h ↦ inr (insufficient (balance id from s) n, ground arith)
    | inr h ↦
        let enough = ltb-false→le (balance id from s) n h in
        let released = mul64 n t.lock_amount in
        inl (
          (t, known, enough),
          (released, (melt_succeeds_iff id from n s v released).1 (t, known, enough, w 0, refl)),
        )
  ]
]

melt_step :
    (e : Surroundings) (op : TokenOperation) (te : TokenExecutor)
    → op.op_type ≡ TokenOpType.token_melt
    → execute_token_operation e op 0 te ≡ execute_token_melt (e.map_order 0) op 0 te
unfolding execute_token_operation execute_as
melt_step e op te h = rw h

-- In a valid state, where writes succeed: the validation lets a transaction of one melt through if
-- and only if its execution succeeds.
pub validated_melt_executes :
    (e : Surroundings) (op : TokenOperation) (te : TokenExecutor)
    → op.op_type ≡ TokenOpType.token_melt
    → IsValid te.token_state
    → AlwaysWritten te.token_state
    → (validate_token_operation_execution (op ∷ []) te.token_state ≡ none)
      ↔ Succeeds (execute_token_operations e (op ∷ []) te)
validated_melt_executes e op te h v w =
    let s = te.token_state in
    let required = one_required op s in
    let holds = melt_required op s h in
    elim (melt_cases op.token_id op.from op.op_amount s v w) [
      | inl (held, (released, o)) ↦
          let (r, te', done') = melt_done (e.map_order 0) op te released o in
          (
            λ _. one_done e op te r te' (melt_step e op te h ∙ done'),
            λ _. required.1 (holds.1 held),
          )
      | inr (x, o) ↦
          let (te', failed') = melt_failed (e.map_order 0) op te x o in
          let no = one_failed e op te (state_error x) te' (melt_step e op te h ∙ failed') in
          (
            λ q.
                let (t, known, enough) = holds.0 (required.0 q) in
                let o' =
                  (melt_succeeds_iff op.token_id op.from op.op_amount s v
                      (mul64 op.op_amount t.lock_amount)).1
                    (t, known, enough, w 0, refl) in
                absurd (cc (o, o')),
            λ q. absurd (no q),
          )
    ]

-- In a valid state, where writes succeed: the validation lets a transaction of one transfer through
-- if and only if its execution succeeds, for a transfer between two addresses that is not to an
-- L-address.
pub validated_transfer_executes :
    (e : Surroundings) (op : TokenOperation) (te : TokenExecutor)
    → IsOrdinary op
    → IsValid te.token_state
    → AlwaysWritten te.token_state
    → (validate_token_operation_execution (op ∷ []) te.token_state ≡ none)
      ↔ Succeeds (execute_token_operations e (op ∷ []) te)
validated_transfer_executes e op te i v w =
    let s = te.token_state in
    let required = one_required op s in
    let holds = transfer_required op s i.transfers in
    let succeeds = transfer_succeeds_iff op.token_id op.from op.to op.op_amount s v in
    elim (transfer_cases op.token_id op.from op.to op.op_amount s v w) [
      | inl o ↦
          let (t, known, enough, _) = succeeds.0 o in
          (
            λ _. one_done e op te _ _ (ordinary_done e op 0 te i o),
            λ _. required.1 (holds.1 (t, known, enough)),
          )
      | inr (x, o) ↦ (
        λ q.
            let (t, known, enough) = holds.0 (required.0 q) in
            let o' = succeeds.1 (t, known, enough, w 0) in absurd (cc (o, o')),
        λ q. absurd (one_failed e op te (state_error x) te (ordinary_failed e op 0 te i x o) q),
      )
    ]
