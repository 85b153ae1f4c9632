-- ===== src/TokenState/Success.antt =====
-- When the calls that change the state succeed.
use shadowyapparatus.Prelude.{
  ℕ, ◌≤◌, ◌<◌, ◌≡◌, ◌↔◌, arith, none, some, Bytes, true, mul64, Option-cases, inl, inr,
}
use shadowyapparatus.Token.{TokenMetadata}
use shadowyapparatus.Dict.{lookup, bytes_key}
use shadowyapparatus.TokenState.{
  TokenState, ok, is_written, balance, create_token, save, registered,
}
use shadowyapparatus.TokenState.Operations.{transfer_token, transfer_at, melt_token, melt_at}
use shadowyapparatus.TokenState.Validity.{IsValid, known-Entries}

module _ (id from to : Bytes) (n : ℕ) (s : TokenState) (v : IsValid s) where
  -- In a valid state a transfer succeeds exactly when the token is known, the sender has the amount,
  -- and the file is written.
  pub transfer_succeeds_iff : ((transfer_token id from to n s).0 ≡ ok tt) ↔ (
      (t : TokenMetadata) × (lookup id s.tokens ≡ some t)
      × (n ≤ balance id from s)
      × (is_written (s.disk.moments 0).write ≡ true))
  unfolding transfer_token transfer_at save
  transfer_succeeds_iff = (there, λ (t, known, enough, written). back t known enough written)
    where
      back :
          (t : TokenMetadata)
          → lookup id s.tokens ≡ some t
          → n ≤ balance id from s
          → is_written (s.disk.moments 0).write ≡ true
          → (transfer_token id from to n s).0 ≡ ok tt
      back t known enough written =
          let x = known-Entries id s v known in ground (arith, x.at_balances)

      there :
          (transfer_token id from to n s).0 ≡ ok tt
          → (t : TokenMetadata) × (lookup id s.tokens ≡ some t)
            × (n ≤ balance id from s)
            × (is_written (s.disk.moments 0).write ≡ true)
      there e = elim (Option-cases (lookup id s.tokens)) [
        | inl unknown ↦ absurd (ground arith)
        | inr (t, known) ↦ (
          t,
          known,
          ground (arith, (known-Entries id s v known).at_balances),
          ground (arith, (known-Entries id s v known).at_balances),
        )
      ]

module _ (id from : Bytes) (n : ℕ) (s : TokenState) (v : IsValid s) where
  -- In a valid state a melt succeeds with a given amount of Shadow exactly when the token is known, the
  -- address has the tokens, the file is written, and the Shadow is the number of tokens times what is
  -- locked for each, modulo 2 ^ 64.
  pub melt_succeeds_iff :
      (released : ℕ)
      → ((melt_token id from n s).0 ≡ ok released) ↔ (
          (t : TokenMetadata) × (lookup id s.tokens ≡ some t)
          × (n ≤ balance id from s)
          × (is_written (s.disk.moments 0).write ≡ true)
          × (released ≡ mul64 n t.lock_amount))
  unfolding melt_token melt_at save
  melt_succeeds_iff released =
      (there, λ (t, known, enough, written, e). back t known enough written e)
    where
      back :
          (t : TokenMetadata)
          → lookup id s.tokens ≡ some t
          → n ≤ balance id from s
          → is_written (s.disk.moments 0).write ≡ true
          → released ≡ mul64 n t.lock_amount
          → (melt_token id from n s).0 ≡ ok released
      back t known enough written e =
          let x = known-Entries id s v known in ground (arith, x.at_balances)

      there :
          (melt_token id from n s).0 ≡ ok released
          → (t : TokenMetadata) × (lookup id s.tokens ≡ some t)
            × (n ≤ balance id from s)
            × (is_written (s.disk.moments 0).write ≡ true)
            × (released ≡ mul64 n t.lock_amount)
      there e = elim (Option-cases (lookup id s.tokens)) [
        | inl unknown ↦ absurd (ground arith)
        | inr (t, known) ↦ (
          t,
          known,
          ground (arith, (known-Entries id s v known).at_balances),
          ground (arith, (known-Entries id s v known).at_balances),
          ground (arith, (known-Entries id s v known).at_balances),
        )
      ]

-- A creation succeeds exactly when the token is new, its supply and its locked amount are not zero,
-- and the file is written.
pub create_succeeds_iff :
    (id : Bytes) (m : TokenMetadata) (s : TokenState)
    → ((create_token id (some m) s).0 ≡ ok tt) ↔ (
        (lookup id s.tokens ≡ none)
        × (0 < m.total_supply)
        × (0 < m.lock_amount)
        × (is_written (s.disk.moments 0).write ≡ true))
unfolding create_token save registered
create_succeeds_iff id m s = (λ e. ground arith, λ (new, supply, lock, written). ground arith)
