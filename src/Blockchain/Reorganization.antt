-- ===== src/Blockchain/Reorganization.antt =====
-- `ReorganizeChain` of cmd/blockchain.go: back to the highest common block, and up the new chain.
use shadowyapparatus.Prelude.{
  ℕ, zero, suc, ◌+◌, ◌-◌, Bool, true, false, Option, none, some, List, [], ◌∷◌, str_eq, ltb, leb,
  if◌then◌else◌, length,
}
use shadowyapparatus.Dict.{Dict, lookup, insert, erase, bytes_key, number_key}
use shadowyapparatus.Blockchain.{Block, Outside, Blockchain}
use shadowyapparatus.Blockchain.Hash.{hash}
use shadowyapparatus.Blockchain.Checks.{BlockError}
use shadowyapparatus.Blockchain.Adding.{add_block_without_broadcast}
use shadowyapparatus.Blockchain.Removal.{remove_file}

pub data ReorganizationError : Type 0 where
  no_blocks no_common_ancestor no_target : ReorganizationError
  bad_block : BlockError → ReorganizationError

pub data Reorganization : Type 0 where
  reorganized : Reorganization
  given_up : ReorganizationError → Reorganization
  panicked : Reorganization

-- The map of the new blocks: of two at one height, the later stays.
unfoldable pub by_height : List Block → Dict ℕ Block → Dict ℕ Block
by_height [] m = m
by_height (b ∷ bs) m = by_height bs (insert b.header.height b m)

module _ (o : Outside) where
  abbrev agreed : Option Block → Option Block → Option Block
  agreed none y = none
  agreed (some x) none = none
  agreed (some x) (some y) = if str_eq (hash o x) (hash o y) then some x else none

  -- The block at a height, if both chains have the same there.
  unfoldable pub common_at : ℕ → Dict ℕ Block → Dict ℕ Block → Option Block
  unfolding hash
  common_at n ours theirs = agreed (lookup n ours) (lookup n theirs)

  unfoldable pub ancestor_from : ℕ → Dict ℕ Block → Dict ℕ Block → Option Block
  unfolding common_at
  ancestor_from zero ours theirs = common_at zero ours theirs
  ancestor_from (suc n) ours theirs = elim (common_at (suc n) ours theirs) [
    | some b ↦ some b
    | none ↦ ancestor_from n ours theirs
  ]

  unfoldable pub find_common_ancestor : List Block → Blockchain → Option Block
  unfolding ancestor_from by_height
  find_common_ancestor new_blocks bc =
      ancestor_from bc.tip_height bc.blocks_by_height (by_height new_blocks [])

  abbrev pub dropped : ℕ → Option Block → Blockchain → Blockchain
  dropped n none bc = bc
  dropped n (some b) bc = record bc {
    blocks = erase (hash o b) bc.blocks;
    blocks_by_height = erase n bc.blocks_by_height;
    storage = (remove_file (hash o b) bc.storage).1;
  }

  -- The heights target + 1 to target + n, from the highest down.
  unfoldable pub drop_above : ℕ → ℕ → Blockchain → Blockchain
  unfolding remove_file hash
  drop_above target zero bc = bc
  drop_above target (suc n) bc =
      let height = suc n + target in
      drop_above target n (dropped height (lookup height bc.blocks_by_height) bc)

  -- Whether the block at the target was found, and the chain after it.
  unfoldable pub rollback_to_height : ℕ → Blockchain → Bool × Blockchain
  unfolding drop_above
  rollback_to_height target bc =
      if leb bc.tip_height target
      then (true, bc)
      else (let bc' = drop_above target (bc.tip_height - target) bc in
          elim (lookup target bc'.blocks_by_height) [
            | none ↦ (false, bc')
            | some b ↦ (true, record bc' { tip_hash = hash o b; tip_height = target })
          ])

  abbrev pub if_added :
      (Blockchain → Option BlockError × Blockchain)
      → Option BlockError × Blockchain
      → Option BlockError × Blockchain
  if_added next (none, bc) = next bc
  if_added next (some e, bc) = (some e, bc)

  -- The blocks up to the common ancestor's height are passed over.
  unfoldable pub add_above :
      (ℕ → ℕ) → ℕ → ℕ → List Block → Blockchain → Option BlockError × Blockchain
  unfolding add_block_without_broadcast
  add_above clock i height [] bc = (none, bc)
  add_above clock i height (b ∷ bs) bc =
      if leb b.header.height height
      then add_above clock (suc i) height bs bc
      else (if_added (add_above clock (suc i) height bs)
          (add_block_without_broadcast o (clock i) b bc))

  abbrev pub finished : Option BlockError × Blockchain → Reorganization × Blockchain
  finished (some e, bc) = (given_up (bad_block e), bc)
  finished (none, bc) = if ltb (length bc.tip_hash) 16 then (panicked, bc) else (reorganized, bc)

  abbrev pub rolled_back :
      (ℕ → ℕ) → ℕ → List Block → Bool × Blockchain → Reorganization × Blockchain
  rolled_back clock height bs (false, bc) = (given_up no_target, bc)
  rolled_back clock height bs (true, bc) = finished (add_above clock 0 height bs bc)

  -- `clock i` is the time at which the i-th block is validated.
  unfoldable pub reorganize_chain : (ℕ → ℕ) → List Block → Blockchain → Reorganization × Blockchain
  unfolding find_common_ancestor rollback_to_height add_above
  reorganize_chain clock [] bc = (given_up no_blocks, bc)
  reorganize_chain clock (b ∷ bs) bc =
      if ltb (length bc.tip_hash) 16
      then (panicked, bc)
      else (elim (find_common_ancestor (b ∷ bs) bc) [
        | none ↦ (given_up no_common_ancestor, bc)
        | some a ↦
            rolled_back clock a.header.height (b ∷ bs) (rollback_to_height a.header.height bc)
      ])
