-- ===== src/Blockchain/Removal.antt =====
-- The methods of cmd/blockchain.go that take blocks away.
use shadowyapparatus.Prelude.{
  ℕ, zero, suc, ◌-◌, Bool, true, false, Option, none, some, List, [], ◌∷◌, Bytes, bytes, ◌==◌,
  if◌then◌else◌,
}
use shadowyapparatus.Dict.{lookup, erase, bytes_key, number_key}
use shadowyapparatus.Transaction.{SignedTransaction}
use shadowyapparatus.TokenState.Reset.{Call, returns, blocked, reset_to_genesis}
use shadowyapparatus.Executor.Monad.{Result, done, failed, crashed}
use shadowyapparatus.Executor.Operations.{TokenExecutor, Surroundings}
use shadowyapparatus.Executor.Execution.{execute_token_operations}
use shadowyapparatus.Blockchain.{Block, Outside, Storage, Blockchain, outcome, later}
use shadowyapparatus.Blockchain.Hash.{hash}

-- The heights from one to another, both included.
unfoldable pub heights_from : ℕ → ℕ → List ℕ
heights_from first zero = []
heights_from first (suc n) = first ∷ heights_from (suc first) n

abbrev pub heights_between : ℕ → ℕ → List ℕ
heights_between first last = heights_from first (suc last - first)

-- `os.Remove` of a block's file, whose error is ignored; and the answer, where it is not.
unfoldable pub remove_file : Bytes → Storage → Bool × Storage
remove_file h d =
    (outcome d, (if outcome d then later (record d { files = erase h d.files }) else later d))

module _ (o : Outside) where
  abbrev forgotten : Block → Blockchain → Blockchain
  forgotten b bc = record bc {
    blocks = erase (hash o b) bc.blocks;
    blocks_by_height = erase b.header.height bc.blocks_by_height;
  }

  -- Whether the file is gone.
  unfoldable pub delete_block : Block → Blockchain → Bool × Blockchain
  unfolding hash remove_file
  delete_block b bc =
      let (ok, d) = remove_file (hash o b) bc.storage in
      (ok, record (forgotten b bc) { storage = d })

  unfoldable pub delete_all : List Block → Blockchain → Blockchain
  unfolding delete_block
  delete_all [] bc = bc
  delete_all (b ∷ bs) bc = delete_all bs (delete_block b bc).1

  abbrev with_block : Option Block → List Block → List Block
  with_block none bs = bs
  with_block (some b) bs = b ∷ bs

  unfoldable pub blocks_at : List ℕ → Blockchain → List Block
  blocks_at [] bc = []
  blocks_at (n ∷ ns) bc = with_block (lookup n bc.blocks_by_height) (blocks_at ns bc)

  abbrev tip_at : ℕ → Option Block → Blockchain → Blockchain
  tip_at n none bc = bc
  tip_at n (some b) bc = record bc { tip_hash = hash o b; tip_height = n }

  -- The part of `TrimBlocksFromHeight` that concerns the blocks.
  unfoldable pub trimmed : ℕ → Blockchain → Blockchain
  unfolding heights_from delete_all blocks_at
  trimmed from bc =
      let bc' = delete_all (blocks_at (heights_between from bc.tip_height) bc) bc in
      if from == 0
      then record bc' { tip_height = 0; tip_hash = bytes "" }
      else tip_at (from - 1) (lookup (from - 1) bc'.blocks_by_height) bc'

  -- Errors are logged, and the next transaction has its turn. `false` is a panic.
  abbrev replayed : {A : Type 0} → Result A × TokenExecutor → Bool × TokenExecutor
  replayed (done _, te) = (true, te)
  replayed (failed _, te) = (true, te)
  replayed (crashed, te) = (false, te)

  abbrev and_then :
      Bool × TokenExecutor → (TokenExecutor → Bool × TokenExecutor) → Bool × TokenExecutor
  and_then (true, te) next = next te
  and_then (false, te) next = (false, te)

  unfoldable pub replay_transactions :
      (ℕ → Surroundings) → ℕ → List SignedTransaction → TokenExecutor → Bool × TokenExecutor
  unfolding execute_token_operations
  replay_transactions around i [] te = (true, te)
  replay_transactions around i (t ∷ txs) te = elim (o.parse t.transaction) [
    | none ↦ replay_transactions around (suc i) txs te
    | some tx ↦
        and_then (replayed (execute_token_operations (around i) tx.token_ops te))
          (replay_transactions around (suc i) txs)
  ]

  unfoldable pub replay_blocks :
      (ℕ → ℕ → Surroundings) → List Block → TokenExecutor → Bool × TokenExecutor
  unfolding replay_transactions
  replay_blocks around [] te = (true, te)
  replay_blocks around (b ∷ bs) te =
      and_then (replay_transactions (around b.header.height) 0 b.body.transactions te)
        (replay_blocks around bs)

  -- rebuildTokenState: a height without a block is passed over.
  unfoldable pub rebuild_token_state : (ℕ → ℕ → Surroundings) → Blockchain → Bool × Blockchain
  unfolding replay_blocks heights_from blocks_at
  rebuild_token_state around bc =
      let (ok, te) =
        replay_blocks around (blocks_at (heights_between 1 bc.tip_height) bc) bc.token_executor in
      (ok, record bc { token_executor = te })

  -- `removed` and `mkdir` are the answers of the file system in `ResetToGenesis`. `false` is a panic,
  -- and `blocked` a call that waits for good.
  unfoldable pub trim_blocks_from_height :
      (ℕ → ℕ → Surroundings) → (removed mkdir : Bool) → ℕ → Blockchain → Call (Bool × Blockchain)
  unfolding trimmed rebuild_token_state reset_to_genesis
  trim_blocks_from_height around removed mkdir from bc =
      let bc' = trimmed from bc in
      elim (reset_to_genesis removed mkdir bc'.token_executor.token_state) [
        | blocked ↦ blocked
        | returns (_, s) ↦ returns (
            rebuild_token_state around
              (record bc' { token_executor = record bc'.token_executor { token_state = s } }))
      ]
