-- ===== src/Executor/Requirements.antt =====
-- `ValidateTokenOperationExecution` of cmd/token_executor.go: whether operations could be executed on
-- the state as it is.
use shadowyapparatus.Prelude.{
  ℕ, ◌+◌, ◌%◌, Bool, true, false, not, ◌&&◌, ◌||◌, Option, none, some, List, [], ◌∷◌, Bytes, str_eq,
  is_empty, ltb, ◌==◌, if◌then◌else◌, u64_mod,
}
use shadowyapparatus.Token.{
  other, SyndicateData, TokenMetadata, TokenOpType, TokenOperation, le_i64,
}
use shadowyapparatus.TokenState.{TokenState, Outcome, ok, err, panicked}
use shadowyapparatus.TokenState.Queries.{get_token_info, get_token_balance}
use shadowyapparatus.Validation.Swaps.{shadow}
use shadowyapparatus.Syndicate.{same_syndicate}

pub data Unmet : Type 0 where
  already_there not_there no_balance : Unmet
  short : (have need : ℕ) → Unmet
  no_trade_data locked_not_there no_offer no_syndicate_data : Unmet
  no_miner bad_syndicate bad_expiration over_eight_days no_nft : Unmet

abbrev is_known : Option TokenMetadata → Bool
is_known none = false
is_known (some _) = true

-- `GetTokenBalance`, and the comparison with what is needed.
abbrev pub covers : Outcome ℕ → ℕ → Option Unmet
covers (ok have) need = if ltb have need then some (short have need) else none
covers (err _) need = some no_balance
covers panicked need = some no_balance

unfoldable pub require_holding : Bytes → Bytes → ℕ → Unmet → TokenState → Option Unmet
unfolding get_token_info get_token_balance
require_holding id a n missing s =
    if is_known (get_token_info id s) then covers (get_token_balance id a s) n else some missing

unfoldable pub require_offer : TokenOperation → TokenState → Option Unmet
unfolding require_holding
require_offer op s = elim op.metadata [
  | none ↦ some no_trade_data
  | some m ↦ elim m.trade_offer [
    | none ↦ some no_trade_data
    | some offer ↦
        if str_eq offer.locked_token_id shadow
        then none
        else require_holding offer.locked_token_id offer.seller offer.locked_amount locked_not_there
            s
  ]
]

unfoldable pub require_trade : TokenOperation → TokenState → Option Unmet
unfolding get_token_info get_token_balance
require_trade op s = elim (get_token_info op.token_id s) [
  | none ↦ some not_there
  | some nft ↦ elim nft.trade_offer [
    | none ↦ some no_offer
    | some offer ↦
        if not (is_empty offer.asking_token_id) && not (str_eq offer.asking_token_id shadow)
        then covers (get_token_balance offer.asking_token_id op.from s) offer.asking_price
        else none
  ]
]

abbrev pub eight_days : ℕ
eight_days = 691200

abbrev membership_unmet : TokenMetadata → SyndicateData → Option Unmet
membership_unmet m d =
    if is_empty d.miner_address
    then some no_miner
    else if same_syndicate d.syndicate other
    then some bad_syndicate
    else if le_i64 d.expiration_time d.join_time
    then some bad_expiration
    else if not (le_i64 d.expiration_time ((d.join_time + eight_days) % u64_mod))
    then some over_eight_days
    else if not (m.decimals == 0) || not (m.total_supply == 1)
    then some no_nft
    else none

unfoldable pub require_membership : TokenOperation → Option Unmet
require_membership op = elim op.metadata [
  | none ↦ some no_syndicate_data
  | some m ↦ elim m.syndicate [ none ↦ some no_syndicate_data | some d ↦ membership_unmet m d ]
]

-- One operation. A pool's operations have no case, and none has an unknown type.
unfoldable pub require_as : TokenOpType → TokenOperation → TokenState → Option Unmet
unfolding require_holding require_offer require_trade require_membership
require_as TokenOpType.token_create op s =
    if is_known (get_token_info op.token_id s) then some already_there else none
require_as TokenOpType.token_transfer op s =
    require_holding op.token_id op.from op.op_amount not_there s
require_as TokenOpType.token_melt op s =
    require_holding op.token_id op.from op.op_amount not_there s
require_as TokenOpType.trade_offer op s = require_offer op s
require_as TokenOpType.trade_execute op s = require_trade op s
require_as TokenOpType.syndicate_join op s = require_membership op
require_as TokenOpType.pool_create op s = none
require_as TokenOpType.pool_swap op s = none
require_as TokenOpType.unknown op s = none

-- Every operation is held against the one state.
unfoldable pub validate_token_operation_execution : List TokenOperation → TokenState → Option Unmet
unfolding require_as
validate_token_operation_execution [] s = none
validate_token_operation_execution (op ∷ ops) s = elim (require_as op.op_type op s) [
  | some u ↦ some u
  | none ↦ validate_token_operation_execution ops s
]
