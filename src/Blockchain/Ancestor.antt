-- ===== src/Blockchain/Ancestor.antt =====
-- The common ancestor that a reorganisation of cmd/blockchain.go goes back to, and what the
-- reorganisation leaves alone.
use shadowyapparatus.Prelude.{
  ℕ, zero, suc, ◌+◌, ◌-◌, ◌≤◌, ◌≡◌, ◌⊎◌, inl, inr, refl, sym, subst, dec_le, ◌∙◌, arith, Bool, true,
  false, Option, none, some, List, [], ◌∷◌, length, ltb, leb, Option-cases, Bool-cases,
}
use shadowyapparatus.Dict.{Dict, lookup, number_key}
use shadowyapparatus.Executor.Operations.{TokenExecutor}
use shadowyapparatus.Blockchain.{Block, Outside, Blockchain}
use shadowyapparatus.Blockchain.Checks.{BlockError}
use shadowyapparatus.Blockchain.Adding.{
  put_block, with_tip, save_block, add_block_without_broadcast,
}
use shadowyapparatus.Blockchain.Reorganization.{
  common_at, ancestor_from, find_common_ancestor, by_height, drop_above, rollback_to_height,
  add_above, reorganize_chain, if_added, dropped, finished, rolled_back,
}

-- The search from a height down, against any height it covers.
abbrev pub IsTopmost : (o : Outside) → ℕ → ℕ → Dict ℕ Block → Dict ℕ Block → Option Block → Type 0
IsTopmost o m tip ours theirs r =
    ((r ≡ none) × (common_at o m ours theirs ≡ none))
    ⊎ ((n : ℕ) × (a : Block) × (r ≡ some a)
        × (n ≤ tip)
        × (common_at o n ours theirs ≡ some a)
        × ((m ≤ n) ⊎ (common_at o m ours theirs ≡ none)))

module _ (o : Outside) (ours theirs : Dict ℕ Block) where
  found :
      (n : ℕ) (a : Block)
      → common_at o (suc n) ours theirs ≡ some a
      → ancestor_from o (suc n) ours theirs ≡ some a
  unfolding ancestor_from
  found n a h = rw (ancestor_from, h)

  missed :
      (n : ℕ)
      → common_at o (suc n) ours theirs ≡ none
      → ancestor_from o (suc n) ours theirs ≡ ancestor_from o n ours theirs
  unfolding ancestor_from
  missed n h = rw (ancestor_from, h)

  -- What a search from one height further down finds.
  one_up :
      (k m tip : ℕ) (r : Option Block)
      → (m ≡ k) ⊎ (common_at o m ours theirs ≡ none)
      → IsTopmost o k tip ours theirs r
      → IsTopmost o m (suc tip) ours theirs r
  one_up k m tip r (inl e) (inl (x, d)) =
      inl (x, subst (λ j. common_at o j ours theirs ≡ none) (sym e) d)
  one_up k m tip r (inr c) (inl (x, d)) = inl (x, c)
  one_up k m tip r (inl e) (inr (n, a, x, l, c, inl d)) =
      inr (n, a, x, omega arith, c, inl (omega arith))
  one_up k m tip r (inl e) (inr (n, a, x, l, c, inr d)) =
      inr (n, a, x, omega arith, c, inr (subst (λ j. common_at o j ours theirs ≡ none) (sym e) d))
  one_up k m tip r (inr c) (inr (n, a, x, l, c', d)) = inr (n, a, x, omega arith, c', inr c)

  ancestor_from-IsTopmost :
      (m tip : ℕ) → m ≤ tip → IsTopmost o m tip ours theirs (ancestor_from o tip ours theirs)
  ancestor_from-IsTopmost m zero h = elim (Option-cases (common_at o zero ours theirs)) [
    | inl q ↦ inl (at_zero q, subst (λ k. common_at o k ours theirs ≡ none) (omega arith) q)
    | inr (a, q) ↦ inr (zero, a, at_zero' a q, omega arith, q, inl h)
  ]
    where
      at_zero : common_at o zero ours theirs ≡ none → ancestor_from o zero ours theirs ≡ none
      at_zero q = unfold ancestor_from in q

      at_zero' :
          (a : Block)
          → common_at o zero ours theirs ≡ some a
          → ancestor_from o zero ours theirs ≡ some a
      at_zero' a q = unfold ancestor_from in q
  ancestor_from-IsTopmost m (suc tip) h = elim (Option-cases (common_at o (suc tip) ours theirs)) [
    | inr (a, q) ↦ inr (suc tip, a, found tip a q, omega arith, q, inl h)
    | inl q ↦
        subst (IsTopmost o m (suc tip) ours theirs) (sym (missed tip q)) (elim (dec_le m tip) [
          | yes low ↦
              one_up m m tip (ancestor_from o tip ours theirs) (inl refl)
                (ancestor_from-IsTopmost m tip low)
          | no high ↦
              one_up tip m tip (ancestor_from o tip ours theirs)
                (inr (subst (λ k. common_at o k ours theirs ≡ none) (omega arith) q))
                (ancestor_from-IsTopmost tip tip (omega arith))
        ])
  ]

-- `findCommonAncestor`, against any height m up to the tip: its answer is a block at which both
-- chains agree, at m or above, unless they do not agree at m; it is none only if they do not.
pub highest_common_ancestor :
    (o : Outside) (m : ℕ) (new_blocks : List Block) (bc : Blockchain)
    → m ≤ bc.tip_height
    → IsTopmost o m bc.tip_height bc.blocks_by_height
        (by_height new_blocks [])
        (find_common_ancestor o new_blocks bc)
unfolding find_common_ancestor
highest_common_ancestor o m new_blocks bc h =
    ancestor_from-IsTopmost o bc.blocks_by_height (by_height new_blocks []) m bc.tip_height h

-- A reorganisation, step by step, leaves the executor with the token state alone.
abbrev executor_of : {A : Type 0} → A × Blockchain → TokenExecutor
executor_of r = r.1.token_executor

add_keeps :
    (o : Outside) (now : ℕ) (b : Block) (bc : Blockchain)
    → executor_of (add_block_without_broadcast o now b bc) ≡ bc.token_executor
unfolding add_block_without_broadcast save_block with_tip put_block
add_keeps o now b bc = ground arith

if_added-keeps :
    (o : Outside) (next : Blockchain → Option BlockError × Blockchain)
    (r : Option BlockError × Blockchain)
    → ((bc : Blockchain) → executor_of (next bc) ≡ bc.token_executor)
    → executor_of (if_added o next r) ≡ executor_of r
if_added-keeps o next (none, bc) h = h bc
if_added-keeps o next (some e, bc) h = refl

add_above-keeps :
    (o : Outside) (clock : ℕ → ℕ) (i height : ℕ) (bs : List Block) (bc : Blockchain)
    → executor_of (add_above o clock i height bs bc) ≡ bc.token_executor
unfolding add_above
add_above-keeps o clock i height [] bc = refl
add_above-keeps o clock i height (b ∷ bs) bc =
    let rest = add_above-keeps o clock (suc i) height bs in
    let r = add_block_without_broadcast o (clock i) b bc in
    let kept =
      if_added-keeps o (add_above o clock (suc i) height bs) r rest ∙ add_keeps o (clock i) b bc in
    elim (Bool-cases (leb b.header.height height)) [
      | inl h ↦ rw (add_above, h) (rest bc)
      | inr h ↦ rw (add_above, h) kept
    ]

dropped-keeps :
    (o : Outside) (n : ℕ) (b : Option Block) (bc : Blockchain)
    → (dropped o n b bc).token_executor ≡ bc.token_executor
dropped-keeps o n none bc = refl
dropped-keeps o n (some b) bc = refl

drop_above-keeps :
    (o : Outside) (target n : ℕ) (bc : Blockchain)
    → (drop_above o target n bc).token_executor ≡ bc.token_executor
unfolding drop_above
drop_above-keeps o target zero bc = refl
drop_above-keeps o target (suc n) bc =
    let height = suc n + target in
    let b = lookup height bc.blocks_by_height in
    drop_above-keeps o target n (dropped o height b bc) ∙ dropped-keeps o height b bc

rollback-keeps :
    (o : Outside) (target : ℕ) (bc : Blockchain)
    → executor_of (rollback_to_height o target bc) ≡ bc.token_executor
unfolding rollback_to_height
rollback-keeps o target bc = ground (arith, drop_above-keeps o target (bc.tip_height - target) bc)

rolled_back-keeps :
    (o : Outside) (clock : ℕ → ℕ) (height : ℕ) (bs : List Block) (r : Bool × Blockchain)
    → executor_of (rolled_back o clock height bs r) ≡ executor_of r
rolled_back-keeps o clock height bs (false, bc) = refl
rolled_back-keeps o clock height bs (true, bc) =
    finished-keeps (add_above o clock 0 height bs bc) ∙ add_above-keeps o clock 0 height bs bc
  where
    finished-keeps :
        (r : Option BlockError × Blockchain) → executor_of (finished o r) ≡ executor_of r
    finished-keeps (none, bc') = ground arith
    finished-keeps (some e, bc') = refl

-- However a reorganisation ends, the token state is the one before it: no token operation of a block
-- that it removes is taken back, and none of a block that it adds is executed.
pub reorganization_keeps_tokens :
    (o : Outside) (clock : ℕ → ℕ) (new_blocks : List Block) (bc : Blockchain)
    → (reorganize_chain o clock new_blocks bc).1.token_executor ≡ bc.token_executor
unfolding reorganize_chain
reorganization_keeps_tokens o clock [] bc = refl
reorganization_keeps_tokens o clock (b ∷ bs) bc = elim (Bool-cases (ltb (length bc.tip_hash) 16)) [
  | inl short ↦ rw (reorganize_chain, short)
  | inr h ↦ elim (Option-cases (find_common_ancestor o (b ∷ bs) bc)) [
    | inl q ↦ rw (reorganize_chain, h, q)
    | inr (a, q) ↦
        let height = a.header.height in
        let r = rollback_to_height o height bc in
        rw (reorganize_chain, h, q)
          (rolled_back-keeps o clock height (b ∷ bs) r ∙ rollback-keeps o height bc)
  ]
]
