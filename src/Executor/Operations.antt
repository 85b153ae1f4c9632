-- ===== src/Executor/Operations.antt =====
-- The rest of the operations of cmd/token_executor.go, those that also use the syndicate manager, and
-- the switch over all of them.
use shadowyapparatus.Prelude.{
  ℕ, Bool, true, false, Option, none, some, List, [], ◌∷◌, Bytes, bytes, is_empty, if◌then◌else◌,
}
use shadowyapparatus.Token.{
  SyndicateType, auto, SyndicateData, TokenMetadata, TokenOpType, TokenOperation, le_i64,
}
use shadowyapparatus.Syndicate.{
  SyndicateManager, four, add_member, remove_member, get_lowest_capacity_syndicate,
  check_dominance_threshold, same_syndicate,
}
use shadowyapparatus.TokenState.{TokenState, create_token}
use shadowyapparatus.TokenState.Operations.{melt_token}
use shadowyapparatus.TokenState.Queries.{get_token_info}
use shadowyapparatus.Executor.Monad.{
  Exec, Result, done, failed, crashed, pure, ◌>>=◌, call, no_metadata, unknown_operation,
  no_miner_address, expires_before_joining, all_dominant,
}
use shadowyapparatus.Executor.Results.{TokenOpResult, op_result}
use shadowyapparatus.Executor.Liquidity.{execute_token_transfer}
use shadowyapparatus.Executor.Pools.{execute_pool_swap}
use shadowyapparatus.Executor.Trades.{
  execute_token_create, execute_trade_offer, execute_trade_execute, execute_pool_create,
}

-- The manager may be nil.
pub record TokenExecutor : Type 0 where
  pub token_state : TokenState
  pub syndicate_manager : Option SyndicateManager

-- A step on the token state.
abbrev pub put : {A : Type 0} → TokenExecutor → Result A × TokenState → Result A × TokenExecutor
put te (r, s) = (r, record te { token_state = s })

abbrev pub on_tokens : {A : Type 0} → Exec A → TokenExecutor → Result A × TokenExecutor
on_tokens m te = put te (m te.token_state)

abbrev is_membership : Option TokenMetadata → Bool
is_membership none = false
is_membership (some m) = elim m.syndicate [ none ↦ false | some _ ↦ true ]

-- The member that a membership NFT stands for leaves; that there is none is logged only.
abbrev without_member :
    List SyndicateType → Bytes → Option SyndicateManager → Option SyndicateManager
without_member order id none = none
without_member order id (some sm) = some (remove_member order id sm).1

unfoldable pub before_melt : List SyndicateType → Bytes → TokenExecutor → TokenExecutor
unfolding get_token_info
before_melt order id te =
    if is_membership (get_token_info id te.token_state)
    then record te { syndicate_manager = without_member order id te.syndicate_manager }
    else te

-- `order` is the order of the loop in `RemoveMember`.
unfoldable pub execute_token_melt :
    List SyndicateType → TokenOperation → ℕ → TokenExecutor → Result TokenOpResult × TokenExecutor
unfolding before_melt
execute_token_melt order op index te =
    on_tokens
      (do
        released ← call (melt_token op.token_id op.from op.op_amount)
        pure (op_result index op op.from (bytes "") 0 released))
      (before_melt order op.token_id te)

unfoldable pub first_open : List SyndicateType → SyndicateManager → Option SyndicateType
first_open [] sm = none
first_open (s ∷ rest) sm = if check_dominance_threshold s sm then first_open rest sm else some s

-- The syndicate for a miner who leaves the choice open.
unfoldable pub assigned : SyndicateManager → Option SyndicateType
unfolding first_open get_lowest_capacity_syndicate
assigned sm =
    let lowest = get_lowest_capacity_syndicate sm in
    if check_dominance_threshold lowest sm then first_open four sm else some lowest

unfoldable pub chosen : SyndicateType → Option SyndicateManager → Option SyndicateType
unfolding assigned
chosen s none = some s
chosen s (some sm) = if same_syndicate s auto then assigned sm else some s

-- A member that cannot be added is logged only.
abbrev with_member : Bytes → SyndicateData → Option SyndicateManager → Option SyndicateManager
with_member id d none = none
with_member id d (some sm) = some (add_member id d sm).1

abbrev enrolled :
    TokenOperation
    → TokenMetadata
    → SyndicateData
    → ℕ
    → Result (Unit {0}) × TokenExecutor
    → Result TokenOpResult × TokenExecutor
enrolled op m d index (done _, te) = (
  done (op_result index op op.from op.to m.lock_amount 0),
  record te { syndicate_manager = with_member op.token_id d te.syndicate_manager },
)
enrolled op m d index (failed e, te) = (failed e, te)
enrolled op m d index (crashed, te) = (crashed, te)

-- The membership NFT holds the syndicate that was chosen.
unfoldable pub create_membership :
    TokenOperation
    → TokenMetadata
    → SyndicateData
    → ℕ
    → TokenExecutor
    → Result TokenOpResult × TokenExecutor
create_membership op m d index te =
    enrolled op m d index
      (on_tokens (call (create_token op.token_id (some (record m { syndicate = some d })))) te)

unfoldable pub join_with :
    TokenOperation
    → TokenMetadata
    → SyndicateData
    → ℕ
    → TokenExecutor
    → Result TokenOpResult × TokenExecutor
unfolding chosen create_membership
join_with op m d index te =
    if is_empty d.miner_address
    then (failed no_miner_address, te)
    else if le_i64 d.expiration_time d.join_time
    then (failed expires_before_joining, te)
    else (elim (chosen d.syndicate te.syndicate_manager) [
      | none ↦ (failed all_dominant, te)
      | some s ↦ create_membership op m (record d { syndicate = s }) index te
    ])

unfoldable pub execute_syndicate_join :
    TokenOperation → ℕ → TokenExecutor → Result TokenOpResult × TokenExecutor
unfolding join_with
execute_syndicate_join op index te = elim op.metadata [
  | none ↦ (failed no_metadata, te)
  | some m ↦ elim m.syndicate [
    | none ↦ (failed no_metadata, te)
    | some d ↦ join_with op m d index te
  ]
]

-- What the n-th operation of a transaction meets: the clock, and the order of a loop over a map.
pub record Surroundings : Type 0 where
  pub clock : ℕ → ℕ
  pub map_order : ℕ → List SyndicateType

-- executeTokenOperation
unfoldable pub execute_as :
    TokenOpType
    → Surroundings
    → TokenOperation
    → ℕ
    → TokenExecutor
    → Result TokenOpResult × TokenExecutor
execute_as TokenOpType.token_create e op index te = on_tokens (execute_token_create op index) te
execute_as TokenOpType.token_transfer e op index te = on_tokens (execute_token_transfer op index) te
execute_as TokenOpType.token_melt e op index te = execute_token_melt (e.map_order index) op index te
execute_as TokenOpType.trade_offer e op index te = on_tokens (execute_trade_offer op index) te
execute_as TokenOpType.trade_execute e op index te = on_tokens (execute_trade_execute op index) te
execute_as TokenOpType.syndicate_join e op index te = execute_syndicate_join op index te
execute_as TokenOpType.pool_create e op index te = on_tokens (execute_pool_create op index) te
execute_as TokenOpType.pool_swap e op index te =
    on_tokens (execute_pool_swap (e.clock index) op index) te
execute_as TokenOpType.unknown e op index te = (failed unknown_operation, te)

unfoldable pub execute_token_operation :
    Surroundings → TokenOperation → ℕ → TokenExecutor → Result TokenOpResult × TokenExecutor
unfolding execute_as
execute_token_operation e op index te = execute_as op.op_type e op index te
