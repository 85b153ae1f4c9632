-- ===== src/TokenState/Melt.antt =====
-- `MeltToken` as a whole: it burns tokens and releases the Shadow behind them, or changes nothing.
pub mod Cases
use shadowyapparatus.Prelude.{
  ℕ, ◌+◌, ◌-◌, ◌*◌, ◌%◌, ◌≤◌, ◌<◌, ◌≡◌, ◌≢◌, refl, ite, arith, some, Bytes, bytes_discrete, ◌⊎◌,
  inl, inr, Bool, true, false, Option-cases, dec_lt, u64_mod, add64, sub64, mul64,
}
use shadowyapparatus.Prelude.Word.{add64-lt, sub64-lt, mul64-lt, add64-eq, sub64-eq}
use shadowyapparatus.Token.{TokenMetadata}
use shadowyapparatus.Dict.{
  Dict, lookup, insert, bytes_key, IsDistinct, insert-IsDistinct, lookup-insert, lookup-insert_self,
}
use shadowyapparatus.Dict.Sum.{amount, sum, sum-insert, amount-insert}
use shadowyapparatus.TokenState.{
  TokenState, Error, Outcome, ok, err, no_such_token, insufficient, save_failed, save, balance,
  is_written, balances_of,
}
use shadowyapparatus.TokenState.Operations.{melt_token, melt_at, burned}
use shadowyapparatus.TokenState.Balances.{amount-burned, burned-IsDistinct, sum-burned}
use shadowyapparatus.TokenState.Validity.{
  IsValid, IsBacked, Entries, known-Entries, Updated, Updated-IsValid, Updated-IsBacked,
  balance-Updated, locked-Updated, circulating, circulating-Updated,
}
use shadowyapparatus.TokenState.Melt.Cases.{
  add64-sub64, less_backed, left_over, put_back, amount-put_back, sum-put_back, put_back-IsDistinct,
  Ends, stopped, went_on, melt-Ends,
}

-- Whatever its outcome, a melt keeps the state valid.
pub melt_token-IsValid :
    (id from : Bytes) (n : ℕ) (s : TokenState) → IsValid s → IsValid (melt_token id from n s).1
melt_token-IsValid id from n s v = go _ (melt-Ends id from n s v)
  where
    go : (r : Outcome ℕ × TokenState) → Ends id from n s r → IsValid r.1
    go r (stopped e p) = rw p v
    go r (went_on t known x enough (inl (_, _, u))) =
        Updated-IsValid id _ _ s r.1 u v x
          (unfold left_over in burned-IsDistinct from n x.holders enough x.small x.distinct)
          (unfold left_over in
            omega (arith, sum-burned from n x.holders enough x.small x.distinct, x.small))
          (sub64-lt x.locked _)
    go r (went_on t known x enough (inr (_, _, u))) =
        Updated-IsValid id _ _ s r.1 u v x (put_back-IsDistinct id from n s x enough)
          (omega (arith, sum-put_back id from n s x enough, x.small)) (add64-lt _ _)

-- The two ways in which a call may end that melts n of a token's units held by an address.
abbrev pub Melts : Bytes → Bytes → ℕ → TokenState → Outcome ℕ × TokenState → Type 0
Melts id from n s r =
    ((t : TokenMetadata) × (lookup id s.tokens ≡ some t)
      × (r.0 ≡ ok (mul64 n t.lock_amount))
      × (n ≤ balance id from s)
      × ((j a : Bytes)
          → balance j a r.1
            ≡ ite (bytes_discrete id j)
                (ite (bytes_discrete from a) (balance j a s - n) (balance j a s)) (balance j a s))
      × ((j : Bytes)
          → amount j r.1.locked_shadow
            ≡ ite (bytes_discrete id j) (sub64 (amount j s.locked_shadow) (mul64 n t.lock_amount))
                (amount j s.locked_shadow)))
    ⊎ ((e : Error) × (r.0 ≡ err e)
        × ((j a : Bytes) → balance j a r.1 ≡ balance j a s)
        × ((j : Bytes) → amount j r.1.locked_shadow ≡ amount j s.locked_shadow))

-- A melt in a valid state either succeeds or reports an error and changes no balance and no locked
-- amount. Where it succeeds, what it releases is the amount times what is locked per token, modulo
-- 2 ^ 64; the amount leaves the one address, and the released Shadow leaves the token's locked
-- amount, again modulo 2 ^ 64.
pub melt_token_lem :
    (id from : Bytes) (n : ℕ) (s : TokenState)
    → IsValid s
    → Melts id from n s (melt_token id from n s)
melt_token_lem id from n s v = go _ (melt-Ends id from n s v)
  where
    held : (x : Entries id s) (a : Bytes) → balance id a s ≡ amount a x.holders
    held x a = unfold balance in rw x.at_balances

    kept : (x : Entries id s) → amount id s.locked_shadow ≡ x.locked
    kept x = rw x.at_locked

    go : (r : Outcome ℕ × TokenState) → Ends id from n s r → Melts id from n s r
    go r (stopped e p) = inr (e, ground arith, λ j a. ground arith, λ j. ground arith)
    go r (went_on t known x enough (inl (_, o, u))) = inl (
      t,
      known,
      o,
      omega (arith, held x from),
      λ j a.
          unfold left_over in
          ground (
            arith,
            balance-Updated id _ _ s r.1 u j a,
            amount-burned from n x.holders enough x.small a,
            held x a,
          ),
      λ j. ground (arith, locked-Updated id _ _ s r.1 u j, kept x),
    )
    go r (went_on t known x enough (inr (_, o, u))) = inr (
      save_failed,
      o,
      λ j a. ground (
        arith,
        balance-Updated id _ _ s r.1 u j a,
        amount-put_back id from n s x enough a,
        held x a,
      ),
      λ j. ground (
        arith,
        locked-Updated id _ _ s r.1 u j,
        kept x,
        add64-sub64 x.locked (mul64 n t.lock_amount) x.in_range (mul64-lt n t.lock_amount),
      ),
    )

-- A melt keeps every token backed.
pub melt_token-IsBacked :
    (id from : Bytes) (n : ℕ) (s : TokenState)
    → IsValid s
    → IsBacked s
    → IsBacked (melt_token id from n s).1
melt_token-IsBacked id from n s v b = go _ (melt-Ends id from n s v)
  where
    covers :
        (t : TokenMetadata) (x : Entries id s)
        → lookup id s.tokens ≡ some t
        → x.locked ≡ (sum x.holders * t.lock_amount) % u64_mod
    covers t x known = ground (arith, b id, x.at_balances, x.at_locked)

    go : (r : Outcome ℕ × TokenState) → Ends id from n s r → IsBacked r.1
    go r (stopped e p) = rw p b
    go r (went_on t known x enough (inl (_, _, u))) =
        let left = left_over id from n s x enough in
        let burnt : sum left + n ≡ sum x.holders =
          unfold left_over in sum-burned from n x.holders enough x.small x.distinct in
        Updated-IsBacked id _ _ s r.1 u b known
          (rw (covers t x known, ← burnt) (less_backed (sum left) n t.lock_amount))
    go r (went_on t known x enough (inr (_, _, u))) = Updated-IsBacked id _ _ s r.1 u b known (
        rw
          (
            add64-sub64 x.locked (mul64 n t.lock_amount) x.in_range (mul64-lt n t.lock_amount),
            sum-put_back id from n s x enough,
          )
          (covers t x known))
