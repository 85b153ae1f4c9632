-- ===== src/Blockchain/Stored.antt =====
-- Where `AddBlock` of cmd/blockchain.go puts a block.
use shadowyapparatus.Prelude.{
  ◌<◌, ◌≤◌, ◌≡◌, ◌⊎◌, inl, inr, refl, sym, ap, ◌∙◌, subst, arith, true, false, none, some, Bytes,
  Bool-cases, Option-cases,
}
use shadowyapparatus.Dict.{lookup, bytes_key, number_key, lookup-insert_self}
use shadowyapparatus.Executor.Operations.{TokenExecutor}
use shadowyapparatus.Blockchain.{Block, Outside, Blockchain}
use shadowyapparatus.Blockchain.Hash.{hash}
use shadowyapparatus.Blockchain.Checks.{validate_block}
use shadowyapparatus.Blockchain.Adding.{
  Answer, added, refused, panicked, BlockSurroundings, add_block, store_block, put_block, with_tip,
  save_block, record_win, execute_transactions, is_new_tip,
}
use shadowyapparatus.Blockchain.Reading.{get_block, get_block_by_height}
use shadowyapparatus.Blockchain.Links.{executed, record_win-Same}

-- Where a block goes.
abbrev pub IsStored : Bytes → Block → Blockchain → Blockchain → Type 0
IsStored h b bc bc' =
    (get_block h bc' ≡ some b)
    × (get_block_by_height b.header.height bc' ≡ some b)
    × (lookup h bc'.storage.files ≡ some b)
    × (((bc'.tip_hash ≡ h) × (bc'.tip_height ≡ b.header.height) × (bc.tip_height < b.header.height))
        ⊎ ((bc'.tip_hash ≡ bc.tip_hash)
            × (bc'.tip_height ≡ bc.tip_height)
            × (b.header.height ≤ bc.tip_height)))

store_block-IsStored :
    (h : Bytes) (b : Block) (bc : Blockchain)
    → (store_block h b bc).0 ≡ added
    → IsStored h b bc (store_block h b bc).1
unfolding store_block save_block with_tip put_block get_block get_block_by_height
store_block-IsStored h b bc q = (
  ground (arith, lookup-insert_self h b bc.blocks),
  ground (arith, lookup-insert_self b.header.height b bc.blocks_by_height),
  ground (arith, lookup-insert_self h b bc.storage.files),
  tip_cases (Bool-cases (is_new_tip b bc)),
)
  where
    tip_cases :
        (is_new_tip b bc ≡ true) ⊎ (is_new_tip b bc ≡ false)
        → (((store_block h b bc).1.tip_hash ≡ h)
            × ((store_block h b bc).1.tip_height ≡ b.header.height)
            × (bc.tip_height < b.header.height))
          ⊎ (((store_block h b bc).1.tip_hash ≡ bc.tip_hash)
              × ((store_block h b bc).1.tip_height ≡ bc.tip_height)
              × (b.header.height ≤ bc.tip_height))
    tip_cases (inl new) = inl (ground arith, ground arith, ground arith)
    tip_cases (inr old) = inr (ground arith, ground arith, ground arith)

IsStored-Same :
    (h : Bytes) (b : Block) (x y z : Blockchain)
    → x.tip_hash ≡ y.tip_hash
    → x.tip_height ≡ y.tip_height
    → IsStored h b x z
    → IsStored h b y z
IsStored-Same h b x y z e f (i, j, k, inl (tip, height, higher)) =
    (i, j, k, inl (tip, height, ground arith))
IsStored-Same h b x y z e f (i, j, k, inr (tip, height, lower)) =
    (i, j, k, inr (tip ∙ e, height ∙ f, ground arith))

-- A block that `AddBlock` has added is found by its hash, by its height and among the files, and it is
-- the tip if and only if it is higher than the tip was; else the tip stays.
pub added_block_found :
    (o : Outside) (e : BlockSurroundings) (b : Block) (bc : Blockchain)
    → (add_block o e b bc).0 ≡ added
    → IsStored (hash o b) b bc (add_block o e b bc).1
unfolding add_block
added_block_found o e b bc h = elim (Option-cases (validate_block o e.validated_at b bc)) [
  | inr (x, q) ↦ absurd (ground arith)
  | inl q ↦ go q (execute_transactions o e.around 0 b.body.transactions bc.token_executor) refl
]
  where
    go :
        validate_block o e.validated_at b bc ≡ none
        → (x : Answer × TokenExecutor)
        → execute_transactions o e.around 0 b.body.transactions bc.token_executor ≡ x
        → IsStored (hash o b) b bc (add_block o e b bc).1
    go q (refused y, te) p = absurd (ground arith)
    go q (panicked, te) p = absurd (ground arith)
    go q (added, te) p =
        let step = executed o e b bc te q p in
        let won = record_win e b (record bc { token_executor = te }) in
        let same = record_win-Same e b (record bc { token_executor = te }) in
        let there = store_block-IsStored (hash o b) b won (ap (λ r. r.0) (sym step) ∙ h) in
        subst (λ r. IsStored (hash o b) b bc r.1) (sym step)
          (IsStored-Same (hash o b) b won bc (store_block (hash o b) b won).1 same.1 same.2 there)
