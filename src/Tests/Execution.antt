-- ===== src/Tests/Execution.antt =====
-- Transactions of several operations.
use shadowyapparatus.Prelude.{ℕ, ◌≡◌, ◌↔◌, refl, none, List, [], ◌∷◌, bytes_discrete, ℕ_discrete}
use shadowyapparatus.Token.{TokenOpType, TokenOperation}
use shadowyapparatus.TokenState.{Write, balance}
use shadowyapparatus.Executor.Operations.{TokenExecutor, Surroundings}
use shadowyapparatus.Executor.Execution.{execute_token_operations}
use shadowyapparatus.Executor.Requirements.{
  validate_token_operation_execution, require_as, require_holding,
}
use shadowyapparatus.Executor.Ordinary.{IsOrdinary}
use shadowyapparatus.Executor.Atomicity.{IsAtomic, transfers-IsAtomic}
use shadowyapparatus.Executor.Validated.{Succeeds, validated_transfer_executes}
use shadowyapparatus.TokenState.Queries.{get_token_info, get_token_balance}
use shadowyapparatus.Dict.{lookup}
use shadowyapparatus.Tests.Data.{alice, bob, coin, one_token, one_token-IsValid, apart}

abbrev pub calm : Surroundings
calm = record { clock = λ i. 0; map_order = λ i. [] }

abbrev executor : TokenExecutor
executor = record { token_state = one_token Write.written; syndicate_manager = none }

abbrev transfer_of : ℕ → TokenOperation
transfer_of n = record {
  op_type = TokenOpType.token_transfer;
  token_id = coin;
  op_amount = n;
  from = alice;
  to = bob;
  metadata = none;
}

abbrev melt_of : ℕ → TokenOperation
melt_of n = record {
  op_type = TokenOpType.token_melt;
  token_id = coin;
  op_amount = n;
  from = alice;
  to = [];
  metadata = none;
}

transfer-IsOrdinary : (n : ℕ) → IsOrdinary (transfer_of n)
unfolding bytes_discrete ℕ_discrete
transfer-IsOrdinary n = record { transfers = refl; apart = apart alice bob refl; plain = refl }

-- The second transfer asks for more than is left.
abbrev too_much : List TokenOperation
too_much = transfer_of 50 ∷ transfer_of 50 ∷ []

transfers-IsAtomic_example : IsAtomic executor (execute_token_operations calm too_much executor)
transfers-IsAtomic_example =
    transfers-IsAtomic calm too_much executor (transfer-IsOrdinary 50, (transfer-IsOrdinary 50, tt))
      (one_token-IsValid Write.written) (λ n. refl)

-- Each transfer alone could be executed, so the validation lets both through.
validation_lets_both_through :
    validate_token_operation_execution too_much (one_token Write.written) ≡ none
unfolding validate_token_operation_execution require_as require_holding get_token_info
    get_token_balance lookup balance bytes_discrete ℕ_discrete
validation_lets_both_through = refl

validated_transfer_executes_example :
    (validate_token_operation_execution (transfer_of 50 ∷ []) (one_token Write.written) ≡ none)
    ↔ Succeeds (execute_token_operations calm (transfer_of 50 ∷ []) executor)
validated_transfer_executes_example =
    validated_transfer_executes calm (transfer_of 50) executor (transfer-IsOrdinary 50)
      (one_token-IsValid Write.written) (λ n. refl)
