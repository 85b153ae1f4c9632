-- ===== src/Validation/Conflicts.antt =====
-- What the map of the seen operations amounts to.
use shadowyapparatus.Prelude.{
  ℕ, ◌≡◌, ◌⊎◌, inl, inr, ◌↔◌, refl, arith, ite, none, some, List, [], ◌∷◌, ◌++◌, Bytes,
  bytes_discrete, subst, if_pos, if_neg,
}
use mathlib.Core.List.{append-nil, append_assoc}
use shadowyapparatus.Dict.{Dict, lookup, IsDistinct, bytes_key, lookup-insert, insert-IsDistinct}
use shadowyapparatus.Token.{TokenOpType, TokenOperation}
use shadowyapparatus.Address.{Hashes}
use shadowyapparatus.Validation.{
  create_count, validate_token_operation_conflicts, first_conflict, or_nil, seen, validate_loop,
  validate_token_operations, validate_token_operation,
}

-- The types of the operations on one token, in their order.
abbrev pub types_of : Bytes → List TokenOperation → List TokenOpType
types_of id [] = []
types_of id (op ∷ ops) =
    ite (bytes_discrete op.token_id id) (op.op_type ∷ types_of id ops) (types_of id ops)

-- No CREATE, or a single operation, which is one.
abbrev pub IsCompatible : List TokenOpType → Type 0
IsCompatible ts = (create_count ts ≡ 0) ⊎ (ts ≡ TokenOpType.token_create ∷ [])

conflicts_iff :
    (ts : List TokenOpType) → (validate_token_operation_conflicts ts ≡ none) ↔ IsCompatible ts
unfolding validate_token_operation_conflicts create_count
conflicts_iff [] = (λ _. inl refl, λ _. refl)
conflicts_iff (t ∷ []) = single t
  where
    single :
        (t : TokenOpType)
        → (validate_token_operation_conflicts (t ∷ []) ≡ none) ↔ IsCompatible (t ∷ [])
    single TokenOpType.token_create = (λ _. inr refl, λ _. refl)
    single _ = (λ _. inl refl, λ _. refl)
conflicts_iff (t ∷ u ∷ ts) = (λ h. ground arith, λ h. ground arith)

abbrev AllCompatible : Dict Bytes (List TokenOpType) → Type 0
AllCompatible m = (id : Bytes) → IsCompatible (or_nil (lookup id m))

first_conflict_iff :
    (m : Dict Bytes (List TokenOpType)) → IsDistinct m → (first_conflict m ≡ none) ↔ AllCompatible m
unfolding first_conflict lookup
first_conflict_iff [] d = (λ _ id. inl refl, λ _. refl)
first_conflict_iff ((id, ts) ∷ m) d = (
  λ h j. at j (parts h).0 ((first_conflict_iff m d.1).0 (parts h).1 j),
  λ h. ground (arith, (conflicts_iff ts).1 (of_head h), (first_conflict_iff m d.1).1 (of_rest h)),
)
  where
    parts :
        first_conflict ((id, ts) ∷ m) ≡ none
        → (validate_token_operation_conflicts ts ≡ none) × (first_conflict m ≡ none)
    parts h = ground arith

    at :
        (j : Bytes)
        → validate_token_operation_conflicts ts ≡ none
        → IsCompatible (or_nil (lookup j m))
        → IsCompatible (or_nil (lookup j ((id, ts) ∷ m)))
    at j p q =
        elim (bytes_discrete j id) as (λ b. IsCompatible (or_nil (ite b (some ts) (lookup j m)))) [
          | yes _ ↦ (conflicts_iff ts).0 p
          | no _ ↦ q
        ]

    of_rest : AllCompatible ((id, ts) ∷ m) → AllCompatible m
    of_rest h j = elim (bytes_discrete j id) [
      | yes e ↦ rw e (rw d.0 (inl refl))
      | no e ↦ subst (λ o. IsCompatible (or_nil o)) (if_neg _ e (some ts) (lookup j m)) (h j)
    ]

    of_head : AllCompatible ((id, ts) ∷ m) → IsCompatible ts
    of_head h = subst (λ o. IsCompatible (or_nil o)) (if_pos _ refl (some ts) (lookup id m)) (h id)

-- How an operation joins the map.
seen_types :
    (m : Dict Bytes (List TokenOpType)) (op : TokenOperation) (ops : List TokenOperation)
    (j : Bytes)
    → or_nil (lookup j (seen m op)) ++ types_of j ops ≡ or_nil (lookup j m) ++ types_of j (op ∷ ops)
seen_types m op ops j =
    let old = or_nil (lookup op.token_id m) in
    rw (lookup-insert j op.token_id (old ++ op.op_type ∷ []) m)
      (elim (bytes_discrete op.token_id j)
        as (λ b.
          or_nil (ite b (some (old ++ op.op_type ∷ [])) (lookup j m)) ++ types_of j ops
          ≡ or_nil (lookup j m) ++ ite b (op.op_type ∷ types_of j ops) (types_of j ops)) [
            | yes e ↦ rw (append_assoc old (op.op_type ∷ []) (types_of j ops)) (rw e)
            | no _ ↦ refl
          ])

module _ (h : Hashes) (now : ℕ) where
  abbrev pub AllAccepted : List TokenOperation → Type 0
  AllAccepted [] = Unit
  AllAccepted (op ∷ ops) = (validate_token_operation h now op ≡ none) × AllAccepted ops

  validate_loop_iff :
      (ops : List TokenOperation) (m : Dict Bytes (List TokenOpType))
      → IsDistinct m
      → (validate_loop h now m ops ≡ none) ↔ (
          AllAccepted ops × ((id : Bytes) → IsCompatible (or_nil (lookup id m) ++ types_of id ops)))
  unfolding validate_loop
  validate_loop_iff [] m d = (
    λ e. (tt, λ id. rw append-nil ((first_conflict_iff m d).0 e id)),
    λ (_, c).
        (first_conflict_iff m d).1
          (λ id. subst IsCompatible (append-nil (or_nil (lookup id m))) (c id)),
  )
  validate_loop_iff (op ∷ ops) m d =
      let rest = validate_loop_iff ops (seen m op) (insert-IsDistinct op.token_id _ m d) in
      (
        λ e.
            let (first, others) = parts e in
            let (each, all) = rest.0 others in
            ((first, each), λ id. subst IsCompatible (seen_types m op ops id) (all id)),
        λ (each, all). join each.0 (rest.1 (each.1, λ id. rw (seen_types m op ops id) (all id))),
      )
    where
      parts :
          validate_loop h now m (op ∷ ops) ≡ none
          → (validate_token_operation h now op ≡ none)
            × (validate_loop h now (seen m op) ops ≡ none)
      parts e = ground arith

      join :
          validate_token_operation h now op ≡ none
          → validate_loop h now (seen m op) ops ≡ none
          → validate_loop h now m (op ∷ ops) ≡ none
      join p q = ground arith

  -- The operations of a transaction are accepted exactly when each is accepted by itself and every
  -- token with a CREATE among its operations has that operation only.
  pub operations_accepted_iff :
      (ops : List TokenOperation)
      → (validate_token_operations h now ops ≡ none)
        ↔ (AllAccepted ops × ((id : Bytes) → IsCompatible (types_of id ops)))
  unfolding validate_token_operations lookup
  operations_accepted_iff ops = validate_loop_iff ops [] tt
