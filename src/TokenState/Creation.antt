-- ===== src/TokenState/Creation.antt =====
-- `CreateToken` as a whole, and what its unchecked product means for the Shadow behind a token.
use shadowyapparatus.Prelude.{
  ℕ, ◌<◌, ◌≡◌, refl, ite, arith, Option, none, some, [], Bytes, bytes_discrete, ◌⊎◌, inl, inr, Bool,
  true, false, dec_lt, u64_mod, mul64,
}
use shadowyapparatus.Prelude.Word.{mul64-lt}
use shadowyapparatus.Token.{TokenMetadata}
use shadowyapparatus.Dict.{Dict, lookup, insert, bytes_key, IsDistinct, lookup-insert, lookup-erase}
use shadowyapparatus.Dict.Sum.{sum}
use shadowyapparatus.TokenState.{
  TokenState, Error, Outcome, ok, err, already_exists, nil_metadata, zero_supply, zero_lock_amount,
  save_failed, save, create_token, registered, unregistered,
}
use shadowyapparatus.TokenState.Validity.{IsValid, IsBacked}

-- The holders of a new token.
unfoldable pub first_holders : TokenMetadata → Dict Bytes ℕ
first_holders m = insert m.creator m.total_supply []

-- A state with one token more, and otherwise the same but for the disk.
pub record Created (id : Bytes) (m : TokenMetadata) (s s' : TokenState) : Type 0 where
  pub tokens_at :
      (j : Bytes) → lookup j s'.tokens ≡ ite (bytes_discrete id j) (some m) (lookup j s.tokens)
  pub balances_at :
      (j : Bytes)
      → lookup j s'.balances
        ≡ ite (bytes_discrete id j) (some (first_holders m)) (lookup j s.balances)
  pub locked_at :
      (j : Bytes)
      → lookup j s'.locked_shadow
        ≡ ite
            (bytes_discrete id j)
            (some (mul64 m.total_supply m.lock_amount))
            (lookup j s.locked_shadow)

-- A state with the same tables, as they are read.
pub record Same (s s' : TokenState) : Type 0 where
  pub tokens_as : (j : Bytes) → lookup j s'.tokens ≡ lookup j s.tokens
  pub balances_as : (j : Bytes) → lookup j s'.balances ≡ lookup j s.balances
  pub locked_as : (j : Bytes) → lookup j s'.locked_shadow ≡ lookup j s.locked_shadow

abbrev pub Creates :
    Bytes → Option TokenMetadata → TokenState → Outcome (Unit {0}) × TokenState → Type 0
Creates id metadata s r =
    ((m : TokenMetadata) × (metadata ≡ some m)
      × (lookup id s.tokens ≡ none)
      × (0 < m.total_supply)
      × (0 < m.lock_amount)
      × (r.0 ≡ ok tt)
      × Created id m s r.1)
    ⊎ ((e : Error) × (r.0 ≡ err e) × Same s r.1)

Same-refl : (s : TokenState) → Same s s
Same-refl s = record { tokens_as = λ j. refl; balances_as = λ j. refl; locked_as = λ j. refl }

pub register_Created :
    (id : Bytes) (m : TokenMetadata) (s : TokenState) → Created id m s (save (registered id m s)).1
unfolding save registered first_holders
register_Created id m s = record {
  tokens_at = λ j. ground (arith, lookup-insert j id m s.tokens);
  balances_at = λ j. ground (arith, lookup-insert j id (first_holders m) s.balances);
  locked_at =
      λ j. ground (arith, lookup-insert j id (mul64 m.total_supply m.lock_amount) s.locked_shadow);
}

-- The rollback restores what every read gives, since the token was not there before.
unregister_Same :
    (id : Bytes) (m : TokenMetadata) (s s' : TokenState)
    → IsValid s
    → lookup id s.tokens ≡ none
    → Created id m s s'
    → Same s (unregistered id s')
unfolding unregistered
unregister_Same id m s s' v new c = record {
  tokens_as = λ j. ground (arith, lookup-erase j id s'.tokens, c.tokens_at j);
  balances_as = λ j. ground (arith, lookup-erase j id s'.balances, c.balances_at j, absent.0);
  locked_as = λ j. ground (arith, lookup-erase j id s'.locked_shadow, c.locked_at j, absent.1);
}
  where
    absent : (lookup id s.balances ≡ none) × (lookup id s.locked_shadow ≡ none)
    absent = ground (arith, v id)

-- A call on a valid state registers a new token with all of its supply at its creator, and locks
-- the product of supply and amount per token modulo 2 ^ 64; or it reports an error and every
-- table reads as before, also where the save has failed.
pub create_token_lem :
    (id : Bytes) (metadata : Option TokenMetadata) (s : TokenState)
    → IsValid s
    → Creates id metadata s (create_token id metadata s)
create_token_lem id metadata s v = go (lookup id s.tokens) metadata refl refl
  where
    by_save :
        (m : TokenMetadata)
        → metadata ≡ some m
        → lookup id s.tokens ≡ none
        → 0 < m.total_supply
        → 0 < m.lock_amount
        → (b : Bool) → (save (registered id m s)).0 ≡ b
        → Creates id metadata s (create_token id metadata s)
    by_save m e new supply lock true saved =
        let done : create_token id metadata s ≡ (ok tt, (save (registered id m s)).1) =
          unfold create_token in ground arith in
        rw done (inl (m, e, new, supply, lock, refl, register_Created id m s))
    by_save m e new supply lock false saved =
        let failed : create_token id metadata s
            ≡ (err save_failed, unregistered id (save (registered id m s)).1) =
          unfold create_token in ground arith in
        rw failed
          (inr (save_failed, refl, unregister_Same id m s _ v new (register_Created id m s)))

    fails :
        (e : Error)
        → create_token id metadata s ≡ (err e, s)
        → Creates id metadata s (create_token id metadata s)
    fails e p = rw p (inr (e, refl, Same-refl s))

    go :
        (known : Option TokenMetadata) (given : Option TokenMetadata)
        → lookup id s.tokens ≡ known
        → metadata ≡ given
        → Creates id metadata s (create_token id metadata s)
    go (some t) given old e = fails already_exists (unfold create_token in ground arith)
    go none none new e = fails nil_metadata (unfold create_token in ground arith)
    go none (some m) new e = elim (dec_lt 0 m.total_supply) [
      | no zero ↦ fails zero_supply (unfold create_token in ground arith)
      | yes supply ↦ elim (dec_lt 0 m.lock_amount) [
        | no zero ↦ fails zero_lock_amount (unfold create_token in ground arith)
        | yes lock ↦ by_save m e new supply lock (save (registered id m s)).0 refl
      ]
    ]

pub in_range_first :
    (m : TokenMetadata)
    → m.total_supply < u64_mod
    → IsDistinct (first_holders m) × (sum (first_holders m) ≡ m.total_supply)
unfolding first_holders insert sum lookup
in_range_first m h = ground arith

-- Whatever its outcome, the call keeps the state valid, if the supply is a uint64.
pub create_token-IsValid :
    (id : Bytes) (m : TokenMetadata) (s : TokenState)
    → m.total_supply < u64_mod
    → IsValid s
    → IsValid (create_token id (some m) s).1
create_token-IsValid id m s h v = go _ (create_token_lem id (some m) s v)
  where
    go : (r : Outcome (Unit {0}) × TokenState) → Creates id (some m) s r → IsValid r.1
    go r (inl (m', e, _, _, _, _, c)) j =
        rw (c.tokens_at j, c.balances_at j, c.locked_at j)
          (ground (arith, v j, in_range_first m h, mul64-lt m'.total_supply m'.lock_amount))
    go r (inr (_, _, k)) j = rw (k.tokens_as j, k.balances_as j, k.locked_as j) (v j)

-- The call keeps every token backed, in the sense of arithmetic modulo 2 ^ 64.
pub create_token-IsBacked :
    (id : Bytes) (m : TokenMetadata) (s : TokenState)
    → m.total_supply < u64_mod
    → IsValid s
    → IsBacked s
    → IsBacked (create_token id (some m) s).1
create_token-IsBacked id m s h v b = go _ (create_token_lem id (some m) s v)
  where
    go : (r : Outcome (Unit {0}) × TokenState) → Creates id (some m) s r → IsBacked r.1
    go r (inl (m', e, _, _, _, _, c)) j =
        rw (c.tokens_at j, c.balances_at j, c.locked_at j)
          (unfold mul64 in ground (arith, b j, in_range_first m h))
    go r (inr (_, _, k)) j = rw (k.tokens_as j, k.balances_as j, k.locked_as j) (b j)
