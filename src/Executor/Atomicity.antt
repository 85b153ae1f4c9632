-- ===== src/Executor/Atomicity.antt =====
-- A transaction of ordinary transfers: all of them, or none.
use shadowyapparatus.Prelude.{
  ℕ, suc, ◌≡◌, ◌⊎◌, inl, inr, refl, sym, ap, ◌∙◌, subst, arith, true, false, Option, none, some,
  List, [], ◌∷◌, ◌++◌, Bytes,
}
use shadowyapparatus.Token.{TokenOperation}
use shadowyapparatus.Dict.{bytes_key}
use shadowyapparatus.TokenState.{TokenState, ok, balance}
use shadowyapparatus.TokenState.Operations.{transfer_token}
use shadowyapparatus.TokenState.Validity.{IsValid}
use shadowyapparatus.TokenState.Transfer.{transfer_token-IsValid}
use shadowyapparatus.Executor.Monad.{
  Exec, Failure, Result, done, failed, crashed, pure, then_on, state_error,
}
use shadowyapparatus.Executor.Results.{TokenOpResult, op_result}
use shadowyapparatus.Executor.Operations.{TokenExecutor, Surroundings, put}
use shadowyapparatus.Executor.Execution.{
  TokenExecutionResult, rollback_operations, undo, execute_loop, execute_token_operations,
  with_operation, no_operations, continued, after_rollback,
}
use shadowyapparatus.Executor.Ordinary.{
  IsOrdinary, AllOrdinary, AlwaysWritten, Alike, transfer_rest, undone_transfer, transfer_cases,
  ordinary_done, ordinary_failed,
}

then_on_assoc :
    {A B C : Type 0} (f : A → Exec B) (g : B → Exec C) (r : Result A × TokenState)
    → then_on g (then_on f r) ≡ then_on (λ a s. then_on g (f a s)) r
then_on_assoc f g (done a, s) = refl
then_on_assoc f g (failed x, s) = refl
then_on_assoc f g (crashed, s) = refl

then_on-pure : (r : Result (Unit {0}) × TokenState) → then_on (λ _. pure tt) r ≡ r
then_on-pure (done tt, s) = refl
then_on-pure (failed x, s) = refl
then_on-pure (crashed, s) = refl

-- The last operation is the first that is undone.
rollback_last :
    (acc : List TokenOpResult) (r : TokenOpResult) (t : TokenState)
    → rollback_operations (acc ++ r ∷ []) t ≡ then_on (λ _. rollback_operations acc) (undo r t)
unfolding rollback_operations
rollback_last [] r t = sym (then_on-pure (undo r t))
rollback_last (x ∷ acc) r t =
    ap (then_on (λ _. undo x)) (rollback_last acc r t)
    ∙ then_on_assoc (λ _. rollback_operations acc) (λ _. undo x) (undo r t)

undo_done :
    (op : TokenOperation) (index : ℕ) (t : TokenState)
    → IsOrdinary op
    → (transfer_token op.token_id op.to op.from op.op_amount t).0 ≡ ok tt
    → undo (op_result index op op.from op.to 0 0) t
      ≡ (done tt, (transfer_token op.token_id op.to op.from op.op_amount t).1)
unfolding undo
undo_done op index t i o = rw i.transfers (ground arith)

-- From every state that is as s, the rollback of these operations gets back to the balances of s0.
Undoes : TokenState → TokenState → List TokenOpResult → Type 0
Undoes s0 s acc =
    (t : TokenState)
    → Alike s t
    → (t' : TokenState) × (rollback_operations acc t ≡ (done tt, t'))
      × ((j a : Bytes) → balance j a t' ≡ balance j a s0)

append-Undoes :
    (s0 s : TokenState) (acc : List TokenOpResult) (op : TokenOperation) (index : ℕ)
    → IsValid s
    → AlwaysWritten s
    → IsOrdinary op
    → (transfer_token op.token_id op.from op.to op.op_amount s).0 ≡ ok tt
    → Undoes s0 s acc
    → Undoes s0
        (transfer_token op.token_id op.from op.to op.op_amount s).1
        (acc ++ op_result index op op.from op.to 0 0 ∷ [])
unfolding Undoes
append-Undoes s0 s acc op index v w i o h t k =
    let (o', alike) = undone_transfer op.token_id op.from op.to op.op_amount s t v i.apart o k w in
    let r = op_result index op op.from op.to 0 0 in
    let (t', done', same) = h (transfer_token op.token_id op.to op.from op.op_amount t).1 alike in
    (
      t',
      rollback_last acc r t
          ∙ ap (then_on (λ _. rollback_operations acc)) (undo_done op index t i o')
          ∙ done',
      same,
    )

-- A result; and without a failure every operation is done, with one no balance has changed.
abbrev pub IsAtomic :
    TokenExecutor → Result (TokenExecutionResult × Option Failure) × TokenExecutor → Type 0
IsAtomic te r =
    (result : TokenExecutionResult) × (f : Option Failure) × (te' : TokenExecutor) × (r
      ≡ (done (result, f), te'))
    × (((f ≡ none) × (result.success ≡ true))
        ⊎ ((result.success ≡ false)
            × ((j a : Bytes) → balance j a te'.token_state ≡ balance j a te.token_state)))

loop-IsAtomic :
    (e : Surroundings) (start : TokenExecutor) (ops : List TokenOperation) (index : ℕ)
    (result : TokenExecutionResult) (te : TokenExecutor)
    → AllOrdinary ops
    → IsValid te.token_state
    → AlwaysWritten te.token_state
    → Undoes start.token_state te.token_state result.operations
    → result.success ≡ true
    → IsAtomic start (execute_loop e ops index result te)
unfolding execute_loop Undoes
loop-IsAtomic e start [] index result te a v w h ok' = (result, none, te, refl, inl (refl, ok'))
loop-IsAtomic e start (op ∷ ops) index result te (i, is) v w h ok' =
    let s = te.token_state in
    elim (transfer_cases op.token_id op.from op.to op.op_amount s v w) [
      | inl o ↦
          let s' = (transfer_token op.token_id op.from op.to op.op_amount s).1 in
          let r = op_result index op op.from op.to 0 0 in
          subst (λ x. IsAtomic start (continued result (execute_loop e ops (suc index)) x))
            (sym (ordinary_done e op index te i o))
            (loop-IsAtomic e start ops (suc index) (with_operation r result)
              (record te { token_state = s' }) is
              (transfer_token-IsValid op.token_id op.from op.to op.op_amount s v)
              (transfer_rest op.token_id op.from op.to op.op_amount s w).0
              (append-Undoes start.token_state s result.operations op index v w i o h) ok')
      | inr (x, o) ↦
          let (t', back, same) =
            h s (record { valid = v; written = w; tokens = refl; balances = λ j a. refl }) in
          subst (λ y. IsAtomic start (continued result (execute_loop e ops (suc index)) y))
            (sym (ordinary_failed e op index te i x o))
            (
              record result { success = false },
              some (state_error x),
              record te { token_state = t' },
              ap (λ y. after_rollback result (state_error x) (put te y)) back,
              inr (refl, same),
            )
    ]

-- A transaction of transfers between pairs of different addresses, none to an L-address: in a valid
-- state, if every write succeeds, its execution ends with a result. Either that reports success, or it
-- reports failure and, with the transfers before the failure taken back, every balance is as it was.
pub transfers-IsAtomic :
    (e : Surroundings) (ops : List TokenOperation) (te : TokenExecutor)
    → AllOrdinary ops
    → IsValid te.token_state
    → AlwaysWritten te.token_state
    → IsAtomic te (execute_token_operations e ops te)
unfolding execute_token_operations Undoes rollback_operations
transfers-IsAtomic e ops te a v w =
    loop-IsAtomic e te ops 0 no_operations te a v w (λ t k. (t, refl, k.balances)) refl
