-- ===== src/Validation/Accepted.antt =====
-- What the validation of an operation means for its execution on the token state.
use shadowyapparatus.Prelude.{ℕ, ◌<◌, ◌≡◌, ◌≢◌, ◌⊎◌, refl, arith, Option, none, some, Bytes, []}
use shadowyapparatus.Token.{TokenOpType, TokenOperation, TokenMetadata}
use shadowyapparatus.Address.{Hashes}
use shadowyapparatus.Dict.{lookup, insert, bytes_key, lookup-insert_self}
use shadowyapparatus.Dict.Sum.{amount}
use shadowyapparatus.TokenState.{
  TokenState, ok, err, already_exists, save_failed, create_token, balance, registered, save,
}
use shadowyapparatus.TokenState.Operations.{transfer_token}
use shadowyapparatus.TokenState.Validity.{IsValid, circulating}
use shadowyapparatus.TokenState.Conservation.{transfer_conserves}
use shadowyapparatus.Validation.{validate_token_operation, validate_by_type}
use shadowyapparatus.Validation.Tokens.{
  validate_token_create, validate_token_transfer, check_create,
}

first_amount : (a : Bytes) (n : ℕ) → amount a (insert a n []) ≡ n
unfolding insert lookup
first_amount a n = ground arith

create_outcomes :
    (id : Bytes) (m : TokenMetadata) (s : TokenState)
    → 0 < m.total_supply
    → 0 < m.lock_amount
    → let r = create_token id (some m) s in
      (r.0 ≡ err already_exists)
      ⊎ (r.0 ≡ err save_failed)
      ⊎ ((r.0 ≡ ok tt) × (balance id m.creator r.1 ≡ m.total_supply))
unfolding create_token save registered balance
create_outcomes id m s p q = ground (
  arith,
  first_amount m.creator m.total_supply,
  lookup-insert_self id (insert m.creator m.total_supply []) s.balances,
)

module _ (h : Hashes) (now : ℕ) (op : TokenOperation)
    (accepted : validate_token_operation h now op ≡ none) where
  typed : {t : TokenOpType} → op.op_type ≡ t → validate_by_type h now t op ≡ none
  unfolding validate_token_operation
  typed {t} e = ground (arith, e)

  different : op.op_type ≡ TokenOpType.token_transfer → op.from ≢ op.to
  unfolding validate_by_type validate_token_transfer
  different e = ground (arith, typed e)

  -- The execution of an accepted TRANSFER changes no token's circulating amount, whether it succeeds
  -- or fails.
  pub accepted_transfer_conserves :
      op.op_type ≡ TokenOpType.token_transfer
      → (s : TokenState) → IsValid s
      → (j : Bytes)
      → circulating j (transfer_token op.token_id op.from op.to op.op_amount s).1 ≡ circulating j s
  accepted_transfer_conserves e s v j =
      transfer_conserves op.token_id op.from op.to op.op_amount s v (different e) j

  created_facts :
      (m : TokenMetadata)
      → check_create h m op ≡ none
      → (0 < m.total_supply)
        × (0 < m.lock_amount)
        × (op.op_amount ≡ m.total_supply)
        × (op.to ≡ m.creator)
  unfolding check_create
  created_facts m e = ground arith

  metadata_of :
      op.op_type ≡ TokenOpType.token_create
      → (m : TokenMetadata) × (op.metadata ≡ some m) × (check_create h m op ≡ none)
  metadata_of e = go op.metadata refl
    where
      go :
          (o : Option TokenMetadata)
          → op.metadata ≡ o
          → (m : TokenMetadata) × (op.metadata ≡ some m) × (check_create h m op ≡ none)
      go none p = unfold validate_by_type validate_token_create in absurd (ground (arith, typed e))
      go (some m) p =
          (m, p, unfold validate_by_type validate_token_create in ground (arith, typed e))

  -- The execution of an accepted CREATE can fail only if the token exists or the save fails; and if it
  -- succeeds, the operation's recipient holds the operation's amount.
  pub accepted_create :
      op.op_type ≡ TokenOpType.token_create
      → (s : TokenState)
      → let r = create_token op.token_id op.metadata s in
        (r.0 ≡ err already_exists)
        ⊎ (r.0 ≡ err save_failed)
        ⊎ ((r.0 ≡ ok tt) × (balance op.token_id op.to r.1 ≡ op.op_amount))
  accepted_create e s =
      let (m, p, q) = metadata_of e in
      let facts = created_facts m q in
      rw (p, facts.2, facts.3) (create_outcomes op.token_id m s facts.0 facts.1)
