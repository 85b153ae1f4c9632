-- ===== src/Blockchain/Loading.antt =====
-- The start of cmd/blockchain.go from its files, its check of the chain, and the reset when
-- synchronisation is stuck.
use shadowyapparatus.Prelude.{
  ℕ, zero, suc, ◌+◌, Bool, true, false, ◌&&◌, none, some, List, [], ◌∷◌, Bytes, bytes, str_eq, ltb,
  leb, ◌==◌, if◌then◌else◌, length,
}
use shadowyapparatus.Dict.{lookup, insert, bytes_key, number_key}
use shadowyapparatus.Syndicate.{new_syndicate_manager}
use shadowyapparatus.TokenState.{absent}
use shadowyapparatus.TokenState.Reset.{Call, returns, blocked, new_token_state}
use shadowyapparatus.Executor.Operations.{Surroundings}
use shadowyapparatus.Blockchain.{Block, Outside, Blockchain}
use shadowyapparatus.Blockchain.Hash.{hash}
use shadowyapparatus.Blockchain.Adding.{put_block, with_tip, syndicates_of}
use shadowyapparatus.Blockchain.Removal.{trim_blocks_from_height}

abbrev pub max_stuck_attempts : ℕ
max_stuck_attempts = 3

-- RecordSyncAttempt: whether to reset. The time of the last change is left out.
unfoldable pub record_sync_attempt : ℕ → Blockchain → Bool × Blockchain
record_sync_attempt new_height bc =
    if ltb bc.tip_height new_height
    then (false, record bc { tip_height = new_height; stuck_sync_attempts = 0 })
    else (
      leb max_stuck_attempts (suc bc.stuck_sync_attempts),
      record bc { stuck_sync_attempts = suc bc.stuck_sync_attempts },
    )

-- The memory as `NuclearReset` first leaves it, after its four calls of the file system.
abbrev swept : Blockchain → Blockchain
swept bc = record bc {
  blocks = [];
  blocks_by_height = [];
  tip_hash = bytes "";
  tip_height = 0;
  stuck_sync_attempts = 0;
  storage = record bc.storage { outcomes = λ n. bc.storage.outcomes (4 + n) };
}

-- The block files and the token file are gone.
abbrev without_files : Blockchain → Blockchain
without_files bc = record bc {
  storage = record bc.storage { files = [] };
  token_executor = record bc.token_executor {
    token_state = record bc.token_executor.token_state {
      disk = record bc.token_executor.token_state.disk { file = absent };
    };
  };
}

-- The executor is made before the blockchain's own syndicate manager is replaced.
abbrev restarted : Blockchain → Blockchain
restarted bc = record bc {
  token_executor = record {
    token_state = new_token_state bc.token_executor.token_state.disk;
    syndicate_manager = syndicates_of bc;
  };
  own_syndicates = some new_syndicate_manager;
}

-- NuclearReset: whether it succeeds. The directory is removed and made again with that of the tokens,
-- which `NewTokenState` makes once more.
unfoldable pub nuclear_reset : Blockchain → Bool × Blockchain
unfolding new_token_state new_syndicate_manager
nuclear_reset bc =
    let out = bc.storage.outcomes in
    if out 0
    then if out 1 && out 2 && out 3
      then (true, restarted (without_files (swept bc)))
      else (false, without_files (swept bc))
    else (false, swept bc)

-- How far the chain holds together, or a panic of the log lines that take a slice of a parent's hash.
pub data Walk : Type 0 where
  valid_to : ℕ → Walk
  crash : Walk

module _ (o : Outside) where
  -- From the block at a height, whose hash is given, over up to n more.
  unfoldable pub walk : ℕ → ℕ → Bytes → Blockchain → Walk
  unfolding hash
  walk zero height parent bc = valid_to height
  walk (suc n) height parent bc = elim (lookup (suc height) bc.blocks_by_height) [
    | none ↦ valid_to height
    | some b ↦ elim (str_eq b.header.previous_block_hash parent) [
      | true ↦ walk n (suc height) (hash o b) bc
      | false ↦ if ltb (length b.header.previous_block_hash) 16 then crash else valid_to height
    ]
  ]

  pub data Validated : Type 0 where
    fine : Blockchain → Validated
    no_genesis : Validated
    reset_failed : Blockchain → Validated
    panics : Validated
    waits : Validated

  abbrev maybe_reset : Bool × Blockchain → Validated
  maybe_reset (false, bc) = fine bc
  maybe_reset (true, bc) =
      (let (ok, bc') = nuclear_reset bc in if ok then fine bc' else reset_failed bc')

  abbrev after_trim : ℕ → Call (Bool × Blockchain) → Validated
  after_trim height blocked = waits
  after_trim height (returns (false, bc)) = panics
  after_trim height (returns (true, bc)) = maybe_reset (record_sync_attempt height bc)

  unfoldable pub validate_and_trim_chain :
      (ℕ → ℕ → Surroundings) → (removed mkdir : Bool) → Blockchain → Validated
  unfolding walk trim_blocks_from_height record_sync_attempt nuclear_reset
  validate_and_trim_chain around removed mkdir bc =
      if bc.tip_height == 0 then fine bc else (elim (lookup 0 bc.blocks_by_height) [
        | none ↦ no_genesis
        | some genesis ↦ elim (walk bc.tip_height 0 (hash o genesis) bc) [
          | crash ↦ panics
          | valid_to height ↦
              if ltb height bc.tip_height
              then after_trim height
                  (trim_blocks_from_height o around removed mkdir (suc height) bc)
              else fine (record_sync_attempt bc.tip_height bc).1
        ]
      ])

  -- The loop over the files, in the directory's order.
  unfoldable pub load_blocks : List Block → Blockchain → Blockchain
  unfolding put_block with_tip hash
  load_blocks [] bc = bc
  load_blocks (b ∷ bs) bc = load_blocks bs (with_tip (hash o b) b (put_block (hash o b) b bc))

  abbrev with_genesis : Block → Blockchain → Blockchain
  with_genesis g bc = record bc {
    blocks = insert (hash o g) g bc.blocks;
    blocks_by_height = insert 0 g bc.blocks_by_height;
    tip_hash = hash o g;
    tip_height = 0;
  }

  -- loadBlockchain, from the files that can be read and parsed.
  unfoldable pub load_blockchain :
      (ℕ → ℕ → Surroundings) → (removed mkdir : Bool) → Block → List Block → Blockchain → Validated
  unfolding load_blocks validate_and_trim_chain
  load_blockchain around removed mkdir genesis bs bc =
      validate_and_trim_chain around removed mkdir (load_blocks bs (with_genesis genesis bc))
