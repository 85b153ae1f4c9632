-- ===== src/Validation.antt =====
-- The validation of a transaction's token operations, in cmd/transaction.go. The index that each
-- message also names is left out.
pub mod Checks
pub mod Tokens
pub mod Trades
pub mod Swaps
pub mod Accepted
pub mod Conflicts
use shadowyapparatus.Prelude.{
  ℕ, suc, ltb, ◌==◌, ◌&&◌, if◌then◌else◌, Bool, true, false, not, Option, none, some, List, [], ◌∷◌,
  ◌++◌, Bytes, length, is_empty,
}
use shadowyapparatus.Dict.{Dict, lookup, insert, bytes_key}
use shadowyapparatus.Token.{TokenOpType, TokenOperation}
use shadowyapparatus.Address.{Hashes}
use shadowyapparatus.Validation.Checks.{
  Refusal, empty_token_id, token_id_length, zero_amount, unknown_type, many_creates,
  create_combined, first_of,
}
use shadowyapparatus.Validation.Tokens.{
  validate_token_create, validate_token_transfer, validate_token_melt,
}
use shadowyapparatus.Validation.Trades.{
  validate_trade_offer, validate_trade_execute, validate_syndicate_join, validate_pool_create,
}
use shadowyapparatus.Validation.Swaps.{validate_pool_swap}

abbrev pub is_pool_swap : TokenOpType → Bool
is_pool_swap TokenOpType.pool_swap = true
is_pool_swap _ = false

abbrev pub is_create : TokenOpType → Bool
is_create TokenOpType.token_create = true
is_create _ = false

module _ (h : Hashes) (now : ℕ) where
  -- The switch on the type.
  unfoldable pub validate_by_type : TokenOpType → TokenOperation → Option Refusal
  validate_by_type TokenOpType.token_create op = validate_token_create h op
  validate_by_type TokenOpType.token_transfer op = validate_token_transfer h op
  validate_by_type TokenOpType.token_melt op = validate_token_melt h op
  validate_by_type TokenOpType.trade_offer op = validate_trade_offer h op
  validate_by_type TokenOpType.trade_execute op = validate_trade_execute h op
  validate_by_type TokenOpType.syndicate_join op = validate_syndicate_join op
  validate_by_type TokenOpType.pool_create op = validate_pool_create op
  validate_by_type TokenOpType.pool_swap op = validate_pool_swap h now op
  validate_by_type TokenOpType.unknown op = some unknown_type

  unfoldable pub validate_token_operation : TokenOperation → Option Refusal
  unfolding validate_by_type
  validate_token_operation op =
      if is_empty op.token_id
      then some empty_token_id
      else if not (is_pool_swap op.op_type) && not (length op.token_id == 64)
      then some token_id_length
      else if op.op_amount == 0
      then some zero_amount
      else validate_by_type op.op_type op

unfoldable pub create_count : List TokenOpType → ℕ
create_count [] = 0
create_count (op ∷ ops) = if is_create op then suc (create_count ops) else create_count ops

unfoldable pub validate_token_operation_conflicts : List TokenOpType → Option Refusal
unfolding create_count
validate_token_operation_conflicts ops = first_of (
    (ltb 1 (create_count ops), many_creates)
    ∷ (ltb 0 (create_count ops) && ltb 1 (length ops), create_combined)
    ∷ [])

abbrev or_nil : Option (List TokenOpType) → List TokenOpType
or_nil none = []
or_nil (some ops) = ops

-- `seenTokenOps`
abbrev pub seen : Dict Bytes (List TokenOpType) → TokenOperation → Dict Bytes (List TokenOpType)
seen m op = insert op.token_id (or_nil (lookup op.token_id m) ++ op.op_type ∷ []) m

-- The loop over the map's entries: which conflict is reported depends on their order.
unfoldable pub first_conflict : Dict Bytes (List TokenOpType) → Option Refusal
unfolding validate_token_operation_conflicts
first_conflict [] = none
first_conflict ((id, ops) ∷ m) = elim (validate_token_operation_conflicts ops) [
  | some r ↦ some r
  | none ↦ first_conflict m
]

module _ (h : Hashes) (now : ℕ) where
  unfoldable pub validate_loop :
      Dict Bytes (List TokenOpType) → List TokenOperation → Option Refusal
  unfolding first_conflict validate_token_operation
  validate_loop m [] = first_conflict m
  validate_loop m (op ∷ ops) = elim (validate_token_operation h now op) [
    | some r ↦ some r
    | none ↦ validate_loop (seen m op) ops
  ]

  unfoldable pub validate_token_operations : List TokenOperation → Option Refusal
  unfolding validate_loop
  validate_token_operations ops = validate_loop [] ops
