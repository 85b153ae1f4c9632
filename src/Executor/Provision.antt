-- ===== src/Executor/Provision.antt =====
-- How many shares a provider of liquidity is given.
use shadowyapparatus.Prelude.{
  ℕ, ◌+◌, ◌*◌, ◌/◌, ◌<◌, ◌≡◌, ◌≢◌, arith, inl, inr, Bytes, u64_mod, mul64,
}
use shadowyapparatus.Dict.{bytes_key}
use shadowyapparatus.Dict.Sum.{amount-nil}
use shadowyapparatus.TokenState.{TokenState, ok, balance}
use shadowyapparatus.TokenState.Queries.{get_token_balances}
use shadowyapparatus.TokenState.Operations.{transfer_token}
use shadowyapparatus.TokenState.Balances.{transferred}
use shadowyapparatus.TokenState.Validity.{IsValid}
use shadowyapparatus.TokenState.Transfer.{transfer_token_lem, transfer_token-IsValid}
use shadowyapparatus.Validation.Swaps.{shadow}
use shadowyapparatus.Executor.Liquidity.{provided_reserve, lp_tokens_to_mint}

provided_reserve_lem :
    (id l : Bytes) (s : TokenState)
    → IsValid s
    → id ≢ shadow
    → provided_reserve id l s ≡ balance id l s
unfolding provided_reserve get_token_balances balance
provided_reserve_lem id l s v ne = ground (arith, v id, amount-nil l)

shares_of :
    (n k supply : ℕ)
    → 0 < n
    → n * supply < u64_mod
    → lp_tokens_to_mint n (k + n) supply ≡ (n * supply) / (k + n)
unfolding lp_tokens_to_mint mul64
shares_of n k supply h fits = ground arith

-- The reserve is read after the transfer, so it holds the amount that was just provided: the branch
-- for a first provision is not taken, and the shares are the fraction n / (reserve + n) of the supply,
-- where `reserve` is the balance before the transfer.
pub provision_shares :
    (id provider l : Bytes) (n supply : ℕ) (s : TokenState)
    → IsValid s
    → provider ≢ l
    → id ≢ shadow
    → 0 < n
    → n * supply < u64_mod
    → (transfer_token id provider l n s).0 ≡ ok tt
    → lp_tokens_to_mint n (provided_reserve id l (transfer_token id provider l n s).1) supply
      ≡ (n * supply) / (balance id l s + n)
provision_shares id provider l n supply s v ne token h fits moved =
    rw
      (provided_reserve_lem id l (transfer_token id provider l n s).1
        (transfer_token-IsValid id provider l n s v) token)
      (rw held (shares_of n (balance id l s) supply h fits))
  where
    held : balance id l (transfer_token id provider l n s).1 ≡ balance id l s + n
    held = elim (transfer_token_lem id provider l n s v ne) [
      | inl (_, moves) ↦ unfold transferred in ground (arith, moves id l)
      | inr (x, fails, _) ↦ absurd (cc (moved, fails))
    ]
