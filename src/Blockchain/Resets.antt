-- ===== src/Blockchain/Resets.antt =====
-- What becomes of a node of cmd/blockchain.go that cuts its chain or resets it.
use shadowyapparatus.Prelude.{
  ℕ, suc, ◌<◌, ◌≡◌, ◌≢◌, inl, inr, refl, sym, ap, ◌∙◌, arith, Bool, true, none, some, [], Bytes,
  Option-cases,
}
use shadowyapparatus.Prelude.Tests.{lt→ltb}
use shadowyapparatus.Dict.{lookup, bytes_key, number_key}
use shadowyapparatus.TokenState.Reset.{blocked, reset_to_genesis}
use shadowyapparatus.Executor.Operations.{TokenExecutor, Surroundings}
use shadowyapparatus.Blockchain.{Block, Outside, Blockchain}
use shadowyapparatus.Blockchain.Hash.{hash}
use shadowyapparatus.Blockchain.Checks.{validate_block, check_parent}
use shadowyapparatus.Blockchain.Adding.{
  Answer, added, refused, BlockSurroundings, add_block, store_block, put_block, with_tip,
  save_block, record_win, execute_transactions,
}
use shadowyapparatus.Blockchain.Links.{executed}
use shadowyapparatus.Blockchain.Removal.{trim_blocks_from_height}
use shadowyapparatus.Blockchain.Loading.{
  nuclear_reset, walk, valid_to, validate_and_trim_chain, waits,
}

-- Where the directory of the token state can be made, a call that trims the chain never returns.
pub trim_waits :
    (o : Outside) (around : ℕ → ℕ → Surroundings) (removed : Bool) (from : ℕ) (bc : Blockchain)
    → trim_blocks_from_height o around removed true from bc ≡ blocked
unfolding trim_blocks_from_height reset_to_genesis
trim_waits o around removed from bc = refl

-- A node never finishes to load a chain that has a genesis block and in which the walk from it stops
-- below the tip, where the directory of the token state can be made.
pub broken_chain_waits :
    (o : Outside) (around : ℕ → ℕ → Surroundings) (removed : Bool) (bc : Blockchain)
    (genesis : Block) (height : ℕ)
    → lookup 0 bc.blocks_by_height ≡ some genesis
    → walk o bc.tip_height 0 (hash o genesis) bc ≡ valid_to height
    → height < bc.tip_height
    → validate_and_trim_chain o around removed true bc ≡ waits
unfolding validate_and_trim_chain
broken_chain_waits o around removed bc genesis height at stops below =
    ground (arith, trim_waits o around removed (suc height) bc, lt→ltb height bc.tip_height below)

-- No block, and no tip.
record IsEmpty (bc : Blockchain) : Type 0 where
  no_blocks : bc.blocks ≡ []
  no_height : bc.tip_height ≡ 0
  no_tip : bc.tip_hash ≡ []

nuclear_reset-IsEmpty : (bc bc' : Blockchain) → nuclear_reset bc ≡ (true, bc') → IsEmpty bc'
unfolding nuclear_reset
nuclear_reset-IsEmpty bc bc' r = record {
  no_blocks = ground arith;
  no_height = ground arith;
  no_tip = ground arith;
}

record_win-IsEmpty :
    (e : BlockSurroundings) (b : Block) (bc : Blockchain) → IsEmpty bc → IsEmpty (record_win e b bc)
unfolding record_win
record_win-IsEmpty e b bc x = record {
  no_blocks = ground (arith, x.no_blocks);
  no_height = ground (arith, x.no_height);
  no_tip = ground (arith, x.no_tip);
}

store_block-not_added :
    (h : Bytes) (b : Block) (bc : Blockchain)
    → IsEmpty bc
    → b.header.height ≡ 0
    → (store_block h b bc).0 ≢ added
unfolding store_block put_block with_tip save_block
store_block-not_added h b bc x z q = ground (arith, x.no_height, x.no_tip)

only_genesis :
    (o : Outside) (now : ℕ) (b : Block) (bc : Blockchain)
    → IsEmpty bc
    → validate_block o now b bc ≡ none
    → b.header.height ≡ 0
unfolding validate_block check_parent lookup
only_genesis o now b bc x v = ground (arith, x.no_blocks)

-- After a reset that succeeds no block can be added: `AddBlock` refuses it or panics.
pub nuclear_reset_strands :
    (o : Outside) (e : BlockSurroundings) (b : Block) (bc bc' : Blockchain)
    → nuclear_reset bc ≡ (true, bc')
    → (add_block o e b bc').0 ≢ added
unfolding add_block
nuclear_reset_strands o e b bc bc' r h =
    elim (Option-cases (validate_block o e.validated_at b bc')) [
      | inr (x, q) ↦ ground arith
      | inl q ↦ go q (execute_transactions o e.around 0 b.body.transactions bc'.token_executor) refl
    ]
  where
    empty : IsEmpty bc'
    empty = nuclear_reset-IsEmpty bc bc' r

    with_executor : TokenExecutor → Blockchain
    with_executor te = record bc' { token_executor = te }

    still_empty : (te : TokenExecutor) → IsEmpty (with_executor te)
    still_empty te = record {
      no_blocks = empty.no_blocks;
      no_height = empty.no_height;
      no_tip = empty.no_tip;
    }

    go :
        validate_block o e.validated_at b bc' ≡ none
        → (x : Answer × TokenExecutor)
        → execute_transactions o e.around 0 b.body.transactions bc'.token_executor ≡ x
        → ⊥
    go q (refused y, te) p = ground arith
    go q (Answer.panicked, te) p = ground arith
    go q (added, te) p =
        let won = record_win e b (with_executor te) in
        store_block-not_added (hash o b) b won
          (record_win-IsEmpty e b (with_executor te) (still_empty te))
          (only_genesis o e.validated_at b bc' empty q)
          (ap (λ x. x.0) (sym (executed o e b bc' te q p)) ∙ h)
