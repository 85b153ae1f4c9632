-- ===== src/Blockchain/Links.antt =====
-- What `AddBlock` of cmd/blockchain.go keeps: every stored block hangs on a stored block, and the tip
-- is one.
use shadowyapparatus.Prelude.{
  ℕ, ◌≡◌, ◌⊎◌, inl, inr, refl, sym, ap, ◌∙◌, subst, arith, none, some, [], ◌∷◌, Bytes,
  bytes_discrete, add64, Bool-cases, Option-cases, ◌==◌,
}
use shadowyapparatus.Dict.{
  Dict, lookup, insert, bytes_key, number_key, lookup-insert, lookup-insert_self,
}
use shadowyapparatus.Executor.Operations.{TokenExecutor}
use shadowyapparatus.Blockchain.{Block, Outside, Blockchain}
use shadowyapparatus.Blockchain.Hash.{hash}
use shadowyapparatus.Blockchain.Checks.{validate_block, check_parent}
use shadowyapparatus.Blockchain.Adding.{
  Answer, added, refused, panicked, BlockSurroundings, add_block, store_block, put_block, with_tip,
  save_block, record_win, execute_transactions, is_new_tip,
}

pub executed :
    (o : Outside) (e : BlockSurroundings) (b : Block) (bc : Blockchain) (te : TokenExecutor)
    → validate_block o e.validated_at b bc ≡ none
    → execute_transactions o e.around 0 b.body.transactions bc.token_executor ≡ (added, te)
    → add_block o e b bc
      ≡ store_block (hash o b) b (record_win e b (record bc { token_executor = te }))
unfolding add_block
executed o e b bc te q p = rw (add_block, q, p)

-- A genesis block, or one whose parent is stored, one height below.
abbrev pub HasParent : Dict Bytes Block → Block → Type 0
HasParent blocks b =
    (b.header.height ≡ 0)
    ⊎ ((p : Block) × (lookup b.header.previous_block_hash blocks ≡ some p)
        × (b.header.height ≡ add64 p.header.height 1))

abbrev pub AllHaveParents : Dict Bytes Block → Dict Bytes Block → Type 0
AllHaveParents blocks [] = Unit
AllHaveParents blocks ((h, b) ∷ m) = HasParent blocks b × AllHaveParents blocks m

pub record IsChain (bc : Blockchain) : Type 0 where
  pub parents : AllHaveParents bc.blocks bc.blocks
  pub tip :
      (t : Block) × (lookup bc.tip_hash bc.blocks ≡ some t) × (t.header.height ≡ bc.tip_height)

-- No block of another height is stored under a block's hash.
abbrev pub Fits : Bytes → Block → Dict Bytes Block → Type 0
Fits h b blocks =
    (lookup h blocks ≡ none)
    ⊎ ((old : Block) × (lookup h blocks ≡ some old) × (old.header.height ≡ b.header.height))

HasParent-insert :
    (h : Bytes) (b x : Block) (blocks : Dict Bytes Block)
    → Fits h b blocks
    → HasParent blocks x
    → HasParent (insert h b blocks) x
HasParent-insert h b x blocks f (inl z) = inl z
HasParent-insert h b x blocks f (inr (p, at, height)) =
    elim (bytes_discrete h x.header.previous_block_hash) [
      | yes e ↦ inr (
        b,
        rw (← e) (lookup-insert_self h b blocks),
        height ∙ ap (λ n. add64 n 1) (same_height f (ap (λ k. lookup k blocks) e ∙ at)),
      )
      | no e ↦
          inr (p, ground (arith, lookup-insert x.header.previous_block_hash h b blocks), height)
    ]
  where
    same_height : Fits h b blocks → lookup h blocks ≡ some p → p.header.height ≡ b.header.height
    same_height (inl none') q = ground arith
    same_height (inr (old, q', s)) q = ground arith

AllHaveParents-insert :
    (h : Bytes) (b : Block) (blocks m : Dict Bytes Block)
    → HasParent blocks b
    → AllHaveParents blocks m
    → AllHaveParents blocks (insert h b m)
unfolding insert
AllHaveParents-insert h b blocks [] p a = (p, tt)
AllHaveParents-insert h b blocks ((k, x) ∷ m) p a =
    ground (arith, AllHaveParents-insert h b blocks m p a.1)

AllHaveParents-grow :
    (h : Bytes) (b : Block) (blocks m : Dict Bytes Block)
    → Fits h b blocks
    → AllHaveParents blocks m
    → AllHaveParents (insert h b blocks) m
AllHaveParents-grow h b blocks [] f a = tt
AllHaveParents-grow h b blocks ((k, x) ∷ m) f a =
    (HasParent-insert h b x blocks f a.0, AllHaveParents-grow h b blocks m f a.1)

-- What the chain depends on.
abbrev pub Same : Blockchain → Blockchain → Type 0
Same x y = (y.blocks ≡ x.blocks) × (y.tip_hash ≡ x.tip_hash) × (y.tip_height ≡ x.tip_height)

IsChain-Same : (x y : Blockchain) → Same x y → IsChain x → IsChain y
IsChain-Same x y (blocks, tip_hash, tip_height) c = record {
  parents = ground (arith, c.parents);
  tip = let (t, at, height) = c.tip in (t, rw (blocks, tip_hash) at, height ∙ sym tip_height);
}

with_tip-IsChain :
    (h : Bytes) (b : Block) (bc : Blockchain)
    → IsChain bc
    → Fits h b bc.blocks
    → HasParent bc.blocks b
    → IsChain (with_tip h b (put_block h b bc))
unfolding with_tip put_block
with_tip-IsChain h b bc c f p = elim (Bool-cases (is_new_tip b bc)) [
  | inl new ↦ rw new record { parents = parents; tip = (b, lookup-insert_self h b bc.blocks, refl) }
  | inr old ↦ rw old record { parents = parents; tip = kept }
]
  where
    parents : AllHaveParents (insert h b bc.blocks) (insert h b bc.blocks)
    parents =
        AllHaveParents-insert h b (insert h b bc.blocks) bc.blocks
          (HasParent-insert h b b bc.blocks f p)
          (AllHaveParents-grow h b bc.blocks bc.blocks f c.parents)

    same :
        Fits h b bc.blocks
        → (t : Block) → lookup h bc.blocks ≡ some t
        → b.header.height ≡ t.header.height
    same (inl none') t q = ground arith
    same (inr (old, q', s)) t q = ground arith

    kept :
        (t : Block) × (lookup bc.tip_hash (insert h b bc.blocks) ≡ some t)
        × (t.header.height ≡ bc.tip_height)
    kept =
        let (t, at, height) = c.tip in
        elim (bytes_discrete h bc.tip_hash) [
          | yes e ↦ (b, rw (← e) (lookup-insert_self h b bc.blocks), same f t (rw e at) ∙ height)
          | no e ↦ (t, ground (arith, lookup-insert bc.tip_hash h b bc.blocks), height)
        ]

store_block-Same :
    (h : Bytes) (b : Block) (bc : Blockchain)
    → Same (with_tip h b (put_block h b bc)) (store_block h b bc).1
unfolding store_block save_block
store_block-Same h b bc = (ground arith, ground arith, ground arith)

pub record_win-Same :
    (e : BlockSurroundings) (b : Block) (bc : Blockchain) → Same bc (record_win e b bc)
unfolding record_win
record_win-Same e b bc = (ground arith, ground arith, ground arith)

checked_parent :
    (o : Outside) (now : ℕ) (b : Block) (bc : Blockchain)
    → validate_block o now b bc ≡ none
    → HasParent bc.blocks b
unfolding validate_block check_parent
checked_parent o now b bc v = elim (Bool-cases (b.header.height == 0)) [
  | inl z ↦ inl (ground arith)
  | inr z ↦ elim (Option-cases (lookup b.header.previous_block_hash bc.blocks)) [
    | inl missing ↦ absurd (ground arith)
    | inr (p, at) ↦ inr (p, at, ground arith)
  ]
]

-- `AddBlock`, whatever its answer: where every stored block but a genesis has its parent stored one
-- height below, and the tip is a stored block of the tip's height, this stays so. No block of another
-- height is to be stored under the new block's hash.
pub add_block-IsChain :
    (o : Outside) (e : BlockSurroundings) (b : Block) (bc : Blockchain)
    → IsChain bc
    → Fits (hash o b) b bc.blocks
    → IsChain (add_block o e b bc).1
unfolding add_block
add_block-IsChain o e b bc c f = elim (Option-cases (validate_block o e.validated_at b bc)) [
  | inr (x, q) ↦ rw (add_block, q) c
  | inl q ↦ go q (execute_transactions o e.around 0 b.body.transactions bc.token_executor) refl
]
  where
    with_executor : TokenExecutor → Blockchain
    with_executor te = record bc { token_executor = te }

    unchanged : (te : TokenExecutor) → IsChain (with_executor te)
    unchanged te = IsChain-Same bc (with_executor te) (refl, refl, refl) c

    go :
        validate_block o e.validated_at b bc ≡ none
        → (x : Answer × TokenExecutor)
        → execute_transactions o e.around 0 b.body.transactions bc.token_executor ≡ x
        → IsChain (add_block o e b bc).1
    go q (refused y, te) p = rw (add_block, q, p) (unchanged te)
    go q (panicked, te) p = rw (add_block, q, p) (unchanged te)
    go q (added, te) p =
        let won = record_win e b (with_executor te) in
        let same = record_win-Same e b (with_executor te) in
        let chain = IsChain-Same (with_executor te) won same (unchanged te) in
        let fits = subst (Fits (hash o b) b) (sym same.0) f in
        let parent =
          subst (λ m. HasParent m b) (sym same.0) (checked_parent o e.validated_at b bc q) in
        subst (λ r. IsChain r.1) (sym (executed o e b bc te q p))
          (IsChain-Same (with_tip (hash o b) b (put_block (hash o b) b won))
            (store_block (hash o b) b won).1 (store_block-Same (hash o b) b won)
            (with_tip-IsChain (hash o b) b won chain fits parent))
