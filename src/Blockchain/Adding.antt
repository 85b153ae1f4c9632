-- ===== src/Blockchain/Adding.antt =====
-- `AddBlock` of cmd/blockchain.go and what it calls.
use shadowyapparatus.Prelude.{
  ℕ, suc, Bool, false, not, ◌&&◌, Option, none, some, List, [], ◌∷◌, Bytes, str_eq, is_empty, ltb,
  ◌==◌, if◌then◌else◌, length,
}
use shadowyapparatus.Dict.{insert, bytes_key, number_key}
use shadowyapparatus.Token.{SyndicateType, other, le_i64}
use shadowyapparatus.Transaction.{TransactionOutput, Transaction, SignedTransaction}
use shadowyapparatus.Address.{derive_address}
use shadowyapparatus.Address.Hex.{hex_decode}
use shadowyapparatus.TokenState.{TokenState}
use shadowyapparatus.TokenState.Queries.{TokenBalance, get_all_token_balances}
use shadowyapparatus.Syndicate.{SyndicateManager, update_block_win}
use shadowyapparatus.Validation.Swaps.{shadow}
use shadowyapparatus.Executor.Monad.{Failure, Result, done, failed, crashed}
use shadowyapparatus.Executor.Liquidity.{handle_liquidity_provision}
use shadowyapparatus.Executor.Operations.{TokenExecutor, Surroundings, on_tokens}
use shadowyapparatus.Executor.Execution.{TokenExecutionResult, execute_token_operations}
use shadowyapparatus.Blockchain.{Block, Outside, Blockchain, outcome, later}
use shadowyapparatus.Blockchain.Hash.{hash}
use shadowyapparatus.Blockchain.Checks.{
  BlockError, validate_block, unparsable, execution_failed, save_failed,
}

-- A block is added, refused, or brings the call to a panic.
pub data Answer : Type 0 where
  added : Answer
  refused : BlockError → Answer
  panicked : Answer

-- What the call meets: the clock when the operations are validated, when memberships are checked
-- (Unix seconds) and when the win is recorded, and the surroundings of each transaction.
pub record BlockSurroundings : Type 0 where
  pub validated_at : ℕ
  pub unix_at : ℕ
  pub won_at : ℕ
  pub around : ℕ → Surroundings

abbrev starts_with : ℕ → Bytes → Bool
starts_with c [] = false
starts_with c (x ∷ rest) = x == c

-- The first other output to an S-address is taken for the change, and so for the sender.
unfoldable pub change_address : Bytes → List TransactionOutput → Option Bytes
change_address l [] = none
change_address l (out ∷ outs) =
    if not (str_eq out.address l) && length out.address == 51 && starts_with b'S' out.address
    then some out.address
    else change_address l outs

module _ (o : Outside) where
  unfoldable pub derive_address_from_public_key : Bytes → Option Bytes
  unfolding derive_address hex_decode
  derive_address_from_public_key key = elim (hex_decode key) [
    | none ↦ none
    | some bs ↦ some (derive_address o.hashes bs)
  ]

  unfoldable pub extract_sender_from_signature : SignedTransaction → Option Bytes
  unfolding derive_address_from_public_key
  extract_sender_from_signature signed =
      if is_empty signed.signer_key then none else derive_address_from_public_key signed.signer_key

  unfoldable pub sender_of : SignedTransaction → Transaction → Bytes → Option Bytes
  unfolding change_address extract_sender_from_signature
  sender_of signed tx l = elim (change_address l tx.outputs) [
    | some a ↦ some a
    | none ↦ extract_sender_from_signature signed
  ]

  -- Without a sender the provision is skipped. `AddBlock` logs an error and goes on.
  unfoldable pub handle_shadow_liquidity_provision :
      SignedTransaction
      → Transaction
      → Bytes
      → ℕ
      → TokenExecutor
      → Result (Unit {0}) × TokenExecutor
  unfolding sender_of handle_liquidity_provision
  handle_shadow_liquidity_provision signed tx l n te = elim (sender_of signed tx l) [
    | none ↦ (done tt, te)
    | some sender ↦ on_tokens (handle_liquidity_provision l sender shadow n) te
  ]

  abbrev forgiven :
      (TokenExecutor → Result (Unit {0}) × TokenExecutor)
      → Result (Unit {0}) × TokenExecutor
      → Result (Unit {0}) × TokenExecutor
  forgiven next (done _, te) = next te
  forgiven next (failed _, te) = next te
  forgiven next (crashed, te) = (crashed, te)

  -- The loop over a transaction's outputs.
  unfoldable pub provide_all :
      SignedTransaction
      → Transaction
      → List TransactionOutput
      → TokenExecutor
      → Result (Unit {0}) × TokenExecutor
  unfolding handle_shadow_liquidity_provision
  provide_all signed tx [] te = (done tt, te)
  provide_all signed tx (out ∷ outs) te =
      if length out.address == 41 && starts_with b'L' out.address
      then forgiven (provide_all signed tx outs)
          (handle_shadow_liquidity_provision signed tx out.address out.value te)
      else provide_all signed tx outs te

  abbrev pub Executed : Type 0
  Executed = Answer × TokenExecutor

  abbrev after_provision : (TokenExecutor → Executed) → Result (Unit {0}) × TokenExecutor → Executed
  after_provision next (done _, te) = next te
  after_provision next (failed _, te) = next te
  after_provision next (crashed, te) = (panicked, te)

  abbrev after_operations :
      (TokenExecutor → Executed)
      → Result (TokenExecutionResult × Option Failure) × TokenExecutor
      → Executed
  after_operations next (done (_, none), te) = next te
  after_operations next (done (_, some f), te) = (refused (execution_failed f), te)
  after_operations next (failed f, te) = (refused (execution_failed f), te)
  after_operations next (crashed, te) = (panicked, te)

  -- The loop over the block's transactions, from the one with a given index on.
  unfoldable pub execute_transactions :
      (ℕ → Surroundings) → ℕ → List SignedTransaction → TokenExecutor → Executed
  unfolding provide_all execute_token_operations
  execute_transactions around i [] te = (added, te)
  execute_transactions around i (t ∷ txs) te = elim (o.parse t.transaction) [
    | none ↦ (refused unparsable, te)
    | some tx ↦
        after_operations
          (λ te'.
            after_provision (execute_transactions around (suc i) txs)
              (provide_all t tx tx.outputs te'))
          (execute_token_operations (around i) tx.token_ops te)
  ]

abbrev membership_of : TokenBalance → Option (SyndicateType × ℕ)
membership_of b = elim b.token_info [
  | none ↦ none
  | some m ↦ elim m.syndicate [ none ↦ none | some d ↦ some (d.syndicate, d.expiration_time) ]
]

-- The first membership that has not expired, among balances that are not 0.
unfoldable pub first_active : ℕ → List TokenBalance → SyndicateType
first_active now [] = other
first_active now (b ∷ bs) = elim (membership_of b) [
  | none ↦ first_active now bs
  | some (s, expires) ↦
      if ltb 0 b.amount_held && not (le_i64 expires now) then s else first_active now bs
]

unfoldable pub determine_syndicate_winner : ℕ → Bytes → TokenState → SyndicateType
unfolding first_active get_all_token_balances
determine_syndicate_winner now farmer s = first_active now (get_all_token_balances farmer s)

-- The syndicate manager that the blockchain itself holds.
abbrev pub syndicates_of : Blockchain → Option SyndicateManager
syndicates_of bc = elim bc.own_syndicates [
  | some sm ↦ some sm
  | none ↦ bc.token_executor.syndicate_manager
]

abbrev pub with_syndicates : SyndicateManager → Blockchain → Blockchain
with_syndicates sm bc = elim bc.own_syndicates [
  | some _ ↦ record bc { own_syndicates = some sm }
  | none ↦ record bc { token_executor = record bc.token_executor { syndicate_manager = some sm } }
]

unfoldable pub record_win : BlockSurroundings → Block → Blockchain → Blockchain
unfolding determine_syndicate_winner update_block_win
record_win e b bc = elim (syndicates_of bc) [
  | none ↦ bc
  | some sm ↦
      let farmer = b.header.farmer_address in
      let winner = determine_syndicate_winner e.unix_at farmer bc.token_executor.token_state in
      with_syndicates (update_block_win b.header.height winner farmer e.won_at sm) bc
]

-- A block stored under its hash and its height.
unfoldable pub put_block : Bytes → Block → Blockchain → Blockchain
put_block h b bc = record bc {
  blocks = insert h b bc.blocks;
  blocks_by_height = insert b.header.height b bc.blocks_by_height;
}

abbrev pub is_new_tip : Block → Blockchain → Bool
is_new_tip b bc = ltb bc.tip_height b.header.height

unfoldable pub with_tip : Bytes → Block → Blockchain → Blockchain
with_tip h b bc =
    if is_new_tip b bc then record bc { tip_hash = h; tip_height = b.header.height } else bc

-- saveBlock: whether the file was written.
unfoldable pub save_block : Bytes → Block → Blockchain → Bool × Blockchain
save_block h b bc =
    let d = bc.storage in
    (
      outcome d,
      record bc {
        storage = if outcome d then later (record d { files = insert h b d.files }) else later d;
      },
    )

-- The rest of `AddBlock` below the token operations. The log lines that take a slice of a tip's hash
-- panic if it is shorter; a hash that `hash` returns is not.
unfoldable pub store_block : Bytes → Block → Blockchain → Answer × Blockchain
unfolding put_block with_tip save_block
store_block h b bc =
    let bc' = with_tip h b (put_block h b bc) in
    if is_new_tip b bc && ltb (length bc.tip_hash) 16
    then (panicked, bc')
    else (let (saved, bc'') = save_block h b bc' in
        if saved
        then if ltb (length bc''.tip_hash) 32 then (panicked, bc'') else (added, bc'')
        else (refused save_failed, bc''))

module _ (o : Outside) where
  abbrev pub after_execution :
      BlockSurroundings → Block → Blockchain → Executed o → Answer × Blockchain
  after_execution e b bc (refused x, te) = (refused x, record bc { token_executor = te })
  after_execution e b bc (panicked, te) = (panicked, record bc { token_executor = te })
  after_execution e b bc (added, te) =
      store_block (hash o b) b (record_win e b (record bc { token_executor = te }))

  unfoldable pub add_block : BlockSurroundings → Block → Blockchain → Answer × Blockchain
  unfolding validate_block execute_transactions record_win store_block hash
  add_block e b bc = elim (validate_block o e.validated_at b bc) [
    | some x ↦ (refused x, bc)
    | none ↦
        after_execution e b bc
          (execute_transactions o e.around 0 b.body.transactions bc.token_executor)
  ]

  -- The same without execution, for blocks that arrive in a reorganisation.
  unfoldable pub add_block_without_broadcast :
      ℕ → Block → Blockchain → Option BlockError × Blockchain
  unfolding validate_block put_block with_tip save_block hash
  add_block_without_broadcast now b bc = elim (validate_block o now b bc) [
    | some x ↦ (some x, bc)
    | none ↦
        let h = hash o b in
        let (saved, bc') = save_block h b (with_tip h b (put_block h b bc)) in
        if saved then (none, bc') else (some save_failed, bc')
  ]
