-- ===== src/Blockchain/Checks.antt =====
-- `validateBlock` of cmd/blockchain.go.
use shadowyapparatus.Prelude.{
  ℕ, ◌%◌, ◌^◌, Bool, false, Option, none, some, List, [], ◌∷◌, Bytes, str_eq, ◌==◌, if◌then◌else◌,
  add64, length,
}
use shadowyapparatus.Dict.{lookup, bytes_key}
use shadowyapparatus.Transaction.{SignedTransaction}
use shadowyapparatus.TokenState.{TokenState}
use shadowyapparatus.Validation.{validate_token_operations}
use shadowyapparatus.Validation.Checks.{Refusal}
use shadowyapparatus.Executor.Monad.{Failure}
use shadowyapparatus.Executor.Requirements.{Unmet, validate_token_operation_execution}
use shadowyapparatus.Blockchain.{Block, Outside, Blockchain}
use shadowyapparatus.Blockchain.Hash.{calculate_merkle_root}

pub data BlockError : Type 0 where
  previous_not_found bad_height bad_merkle_root bad_tx_count unparsable : BlockError
  bad_operations : Refusal → BlockError
  not_executable : Unmet → BlockError
  execution_failed : Failure → BlockError
  save_failed : BlockError

-- The first error of two.
abbrev pub or_else : Option BlockError → Option BlockError → Option BlockError
or_else none next = next
or_else (some e) next = some e

unfoldable pub check_parent : Block → Blockchain → Option BlockError
check_parent b bc =
    if b.header.height == 0 then none else (elim (lookup b.header.previous_block_hash bc.blocks) [
      | none ↦ some previous_not_found
      | some parent ↦
          if b.header.height == add64 parent.header.height 1 then none else some bad_height
    ])

abbrev pub is_root : Option Bytes → Bytes → Bool
is_root none root = false
is_root (some expected) root = str_eq root expected

abbrev wrapped_refusal : Option Refusal → Option BlockError
wrapped_refusal none = none
wrapped_refusal (some r) = some (bad_operations r)

abbrev wrapped_unmet : Option Unmet → Option BlockError
wrapped_unmet none = none
wrapped_unmet (some u) = some (not_executable u)

-- `now` is the clock in `ValidateTokenOperations`.
module _ (o : Outside) (now : ℕ) where
  unfoldable pub check_transaction : SignedTransaction → TokenState → Option BlockError
  unfolding validate_token_operations validate_token_operation_execution
  check_transaction signed s = elim (o.parse signed.transaction) [
    | none ↦ some unparsable
    | some tx ↦
        or_else (wrapped_refusal (validate_token_operations o.hashes now tx.token_ops))
          (wrapped_unmet (validate_token_operation_execution tx.token_ops s))
  ]

  -- Every transaction is held against the state before the block.
  unfoldable pub check_transactions : List SignedTransaction → TokenState → Option BlockError
  unfolding check_transaction
  check_transactions [] s = none
  check_transactions (t ∷ txs) s = or_else (check_transaction t s) (check_transactions txs s)

  unfoldable pub validate_block : Block → Blockchain → Option BlockError
  unfolding check_parent calculate_merkle_root check_transactions
  validate_block b bc = or_else (check_parent b bc) (
      if is_root (calculate_merkle_root o b.body.transactions) b.header.merkle_root
      then if length b.body.transactions % 2 ^ 32 == b.body.tx_count
        then check_transactions b.body.transactions bc.token_executor.token_state
        else some bad_tx_count
      else some bad_merkle_root)
