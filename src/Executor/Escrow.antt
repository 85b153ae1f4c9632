-- ===== src/Executor/Escrow.antt =====
-- What an offer leaves behind when its own token cannot be created.
use shadowyapparatus.Prelude.{
  ℕ, ◌+◌, ◌-◌, ◌≤◌, ◌≡◌, ◌≢◌, inl, inr, ite, arith, Bytes, bytes_discrete, some, true,
}
use shadowyapparatus.Token.{TokenMetadata, TradeOfferData, TokenOperation}
use shadowyapparatus.Dict.{lookup, bytes_key}
use shadowyapparatus.TokenState.{
  TokenState, ok, already_exists, is_written, balance, create_token, save,
}
use shadowyapparatus.TokenState.Queries.{get_token_balance}
use shadowyapparatus.TokenState.Operations.{transfer_token, transfer_at}
use shadowyapparatus.TokenState.Balances.{transferred}
use shadowyapparatus.TokenState.Validity.{IsValid}
use shadowyapparatus.TokenState.Transfer.{transfer_token_lem}
use shadowyapparatus.TokenState.Success.{transfer_succeeds_iff}
use shadowyapparatus.Validation.Swaps.{shadow}
use shadowyapparatus.Executor.Monad.{failed, state_error}
use shadowyapparatus.Executor.Trades.{checked_transfer, offer_with}

tokens-transfer :
    (id from to : Bytes) (n : ℕ) (s : TokenState)
    → (transfer_token id from to n s).1.tokens ≡ s.tokens
unfolding transfer_token transfer_at save
tokens-transfer id from to n s = ground arith

module _ (op : TokenOperation) (m old : TokenMetadata) (offer : TradeOfferData) (index : ℕ)
    (s : TokenState) (v : IsValid s) (goods : offer.locked_token_id ≢ shadow)
    (escrow : offer.seller ≢ op.token_id) (t : TokenMetadata)
    (known : lookup offer.locked_token_id s.tokens ≡ some t)
    (enough : offer.locked_amount ≤ balance offer.locked_token_id offer.seller s)
    (written : is_written (s.disk.moments 0).write ≡ true)
    (taken : lookup op.token_id s.tokens ≡ some old) where
  succeeds :
      (transfer_token offer.locked_token_id offer.seller op.token_id offer.locked_amount s).0
      ≡ ok tt
  succeeds =
      (transfer_succeeds_iff offer.locked_token_id offer.seller op.token_id offer.locked_amount s
          v).1
        (t, known, enough, written)

  moves_of :
      (a : Bytes)
      → balance offer.locked_token_id a
          (transfer_token offer.locked_token_id offer.seller op.token_id offer.locked_amount s).1
        ≡ ite
            (bytes_discrete offer.seller a)
            (balance offer.locked_token_id a s - offer.locked_amount)
            (ite
              (bytes_discrete op.token_id a)
              (balance offer.locked_token_id a s + offer.locked_amount)
              (balance offer.locked_token_id a s))
  unfolding transferred
  moves_of a =
      elim (transfer_token_lem offer.locked_token_id offer.seller op.token_id offer.locked_amount s
        v escrow) [
          | inl (_, moves) ↦ ground (arith, moves offer.locked_token_id a)
          | inr (x, fails, _) ↦ absurd (cc (succeeds, fails))
        ]

  -- An offer under the identifier of an existing token, in a valid state where the seller, who is not
  -- that identifier, holds enough of the known tokens to be sold, other than SHADOW, and the file is
  -- written: it is refused, and yet these tokens have left the seller for that identifier.
  pub offer_loses_goods :
      let r = offer_with op m offer index s in
      (r.0 ≡ failed (state_error already_exists))
      × (balance offer.locked_token_id offer.seller r.1 + offer.locked_amount
          ≡ balance offer.locked_token_id offer.seller s)
      × (balance offer.locked_token_id op.token_id r.1
          ≡ balance offer.locked_token_id op.token_id s + offer.locked_amount)
  unfolding offer_with checked_transfer get_token_balance create_token
  offer_loses_goods =
      let id = offer.locked_token_id in
      let r = transfer_token id offer.seller op.token_id offer.locked_amount s in
      let moves = moves_of in
      ground (
        arith,
        succeeds,
        moves offer.seller,
        moves op.token_id,
        tokens-transfer id offer.seller op.token_id offer.locked_amount s,
      )
