-- ===== src/Executor/Execution.antt =====
-- `ExecuteTokenOperations` of cmd/token_executor.go: the operations of a transaction one after
-- another, and the rollback of those that succeeded when one fails.
use shadowyapparatus.Prelude.{
  ℕ, suc, Bool, true, false, ◌&&◌, Option, none, some, List, [], ◌∷◌, ◌++◌, if◌then◌else◌, add64,
}
use shadowyapparatus.Token.{TokenOpType, TokenOperation}
use shadowyapparatus.TokenState.Operations.{transfer_token}
use shadowyapparatus.Executor.Monad.{Exec, Failure, Result, done, failed, crashed, pure, ◌>>◌, call}
use shadowyapparatus.Executor.Results.{TokenOpResult}
use shadowyapparatus.Executor.Liquidity.{attempt}
use shadowyapparatus.Executor.Operations.{
  TokenExecutor, Surroundings, execute_token_operation, on_tokens,
}

-- The error text is left out; the error itself stands beside the result.
pub record TokenExecutionResult : Type 0 where
  pub success : Bool
  pub operations : List TokenOpResult
  pub shadow_locked : ℕ
  pub shadow_released : ℕ

abbrev pub no_operations : TokenExecutionResult
no_operations = record { success = true; operations = []; shadow_locked = 0; shadow_released = 0 }

abbrev is_transfer : TokenOpType → Bool
is_transfer TokenOpType.token_transfer = true
is_transfer _ = false

-- Only a transfer is taken back; of a creation and a melt the log says that they cannot be, and the
-- other operations have no case.
unfoldable pub undo : TokenOpResult → Exec (Unit {0})
undo r =
    if r.success && is_transfer r.op_type
    then attempt (call (transfer_token r.token_id r.to r.from r.op_amount))
    else pure tt

-- The last operation first.
unfoldable pub rollback_operations : List TokenOpResult → Exec (Unit {0})
unfolding undo
rollback_operations [] = pure tt
rollback_operations (r ∷ rs) = rollback_operations rs >> undo r

abbrev Execution : Type 0
Execution = Result (TokenExecutionResult × Option Failure) × TokenExecutor

abbrev pub with_operation : TokenOpResult → TokenExecutionResult → TokenExecutionResult
with_operation r result = record result {
  operations = result.operations ++ r ∷ [];
  shadow_locked = add64 result.shadow_locked r.shadow_locked;
  shadow_released = add64 result.shadow_released r.shadow_released;
}

abbrev pub after_rollback :
    TokenExecutionResult → Failure → Result (Unit {0}) × TokenExecutor → Execution
after_rollback result e (done _, te) = (done (record result { success = false }, some e), te)
after_rollback result e (failed _, te) = (done (record result { success = false }, some e), te)
after_rollback result e (crashed, te) = (crashed, te)

abbrev pub continued :
    TokenExecutionResult
    → (TokenExecutionResult → TokenExecutor → Execution)
    → Result TokenOpResult × TokenExecutor
    → Execution
continued result rest (done r, te) = rest (with_operation r result) te
continued result rest (failed e, te) =
    after_rollback result e (on_tokens (rollback_operations result.operations) te)
continued result rest (crashed, te) = (crashed, te)

-- The loop, from the operation with a given index on.
unfoldable pub execute_loop :
    Surroundings → List TokenOperation → ℕ → TokenExecutionResult → TokenExecutor → Execution
unfolding rollback_operations execute_token_operation
execute_loop e [] index result te = (done (result, none), te)
execute_loop e (op ∷ ops) index result te =
    continued result (execute_loop e ops (suc index)) (execute_token_operation e op index te)

unfoldable pub execute_token_operations :
    Surroundings → List TokenOperation → TokenExecutor → Execution
unfolding execute_loop
execute_token_operations e ops te = execute_loop e ops 0 no_operations te
