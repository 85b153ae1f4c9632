-- ===== src/TokenState/Overflow.antt =====
-- What follows from the product of supply and locked amount that `CreateToken` takes modulo 2 ^ 64.
use shadowyapparatus.Prelude.{
  ◌*◌, ◌%◌, ◌≤◌, ◌<◌, ◌≡◌, ap, ◌∙◌, subst, arith, none, some, Bytes, inl, inr, true, u64_mod, mul64,
}
use shadowyapparatus.Token.{TokenMetadata}
use shadowyapparatus.Dict.{lookup, insert, bytes_key}
use shadowyapparatus.Dict.Sum.{amount}
use shadowyapparatus.TokenState.{
  TokenState, Outcome, ok, save, is_written, create_token, registered,
}
use shadowyapparatus.TokenState.Operations.{melt_token}
use shadowyapparatus.TokenState.Validity.{IsValid, Entries, known-Entries}
use shadowyapparatus.TokenState.Creation.{
  Created, first_holders, register_Created, create_token-IsValid,
}
use shadowyapparatus.TokenState.Melt.Cases.{melt_enough, melt_at_cases}

-- With the holders that a new token has, one unit melts for the amount per token.
melt_first :
    (id : Bytes) (m : TokenMetadata) (s : TokenState)
    → lookup id s.tokens ≡ some m
    → lookup id s.balances ≡ some (first_holders m)
    → Entries id s
    → 0 < m.total_supply
    → m.lock_amount < u64_mod
    → is_written (s.disk.moments 0).write ≡ true
    → (melt_token id m.creator 1 s).0 ≡ ok m.lock_amount
melt_first id m s known first x supply small saved =
    rw (melt_enough id m.creator 1 s m x known held)
      (elim (melt_at_cases id m.creator 1 s x held (mul64 1 m.lock_amount)) [
        | inl (_, o, _) ↦ o ∙ ap ok released
        | inr (bad, _, _) ↦ absurd (cc (bad, saved))
      ])
  where
    holders : x.holders ≡ first_holders m
    holders = cc (x.at_balances, first)

    held : 1 ≤ amount m.creator x.holders
    held = rw holders (unfold first_holders lookup insert in ground arith)

    released : mul64 1 m.lock_amount ≡ m.lock_amount
    released = unfold mul64 in omega arith

module _ (id : Bytes) (m : TokenMetadata) (s : TokenState) (v : IsValid s)
    (new : lookup id s.tokens ≡ none) (supply : 0 < m.total_supply) (lock : 0 < m.lock_amount)
    (saved : is_written (s.disk.moments 0).write ≡ true) where
  create_succeeds : create_token id (some m) s ≡ (ok tt, (save (registered id m s)).1)
  unfolding create_token save registered
  create_succeeds = ground arith

  -- In a valid state and with two writes that succeed, a new token whose positive uint64 supply times
  -- its positive uint64 locked amount is a multiple of 2 ^ 64 has nothing locked behind it, and yet its
  -- creator melts a single unit for the full amount per token.
  pub create_then_melt :
      m.total_supply < u64_mod
      → m.lock_amount < u64_mod
      → (m.total_supply * m.lock_amount) % u64_mod ≡ 0
      → is_written (s.disk.moments 1).write ≡ true
      → let s' = (create_token id (some m) s).1 in
        (amount id s'.locked_shadow ≡ 0) × ((melt_token id m.creator 1 s').0 ≡ ok m.lock_amount)
  create_then_melt small small' wraps saved' = rw create_succeeds (
    nothing,
    melt_first id m s' known (c.balances_at id ∙ ground arith) (known-Entries id s' valid known)
        supply small' later,
  )
    where
      s' : TokenState
      s' = (save (registered id m s)).1

      c : Created id m s s'
      c = register_Created id m s

      nothing : amount id s'.locked_shadow ≡ 0
      nothing = rw (c.locked_at id) (unfold mul64 in ground arith)

      known : lookup id s'.tokens ≡ some m
      known = rw (c.tokens_at id) (ground arith)

      valid : IsValid s'
      valid =
          subst (λ (r : Outcome (Unit {0}) × TokenState). IsValid r.1) create_succeeds
            (create_token-IsValid id m s small v)

      later : is_written (s'.disk.moments 0).write ≡ true
      later = unfold save registered in saved'
