-- ===== src/Executor/Settlement.antt =====
-- What a completed trade did to the balances.
use shadowyapparatus.Prelude.{
  ℕ, ◌∷◌, ◌+◌, ◌≤◌, ◌≡◌, ◌≢◌, inl, inr, refl, sym, ap, ◌∙◌, arith, Bytes, bytes, [], is_empty,
  false,
}
use shadowyapparatus.Token.{TradeOfferData, TokenOperation}
use shadowyapparatus.TokenState.{TokenState, Outcome, ok, err, panicked, balance}
use shadowyapparatus.TokenState.Operations.{transfer_token, melt_token}
use shadowyapparatus.TokenState.Balances.{transferred}
use shadowyapparatus.TokenState.Validity.{IsValid}
use shadowyapparatus.TokenState.Transfer.{Transfers, transfer_token_lem, transfer_token-IsValid}
use shadowyapparatus.TokenState.Melt.{Melts, melt_token_lem}
use shadowyapparatus.Validation.Swaps.{shadow}
use shadowyapparatus.Executor.Monad.{done, Exec, ◌>>=◌, pure, buyer_short}
use shadowyapparatus.Executor.Pools.{move_token}
use shadowyapparatus.Executor.Results.{TokenOpResult, op_result}
use shadowyapparatus.Executor.Trades.{
  melted, burned_or, destroy_offer, checked_transfer, pay_offer, trade_with,
}
use shadowyapparatus.Executor.Steps.{Moves, bind_done, move_done, checked_done}

-- The end of an offer's own token touches no other token.
destroy_other :
    (id seller : Bytes) (s : TokenState)
    → IsValid s
    → seller ≢ bytes "BURNED"
    → (j a : Bytes) → id ≢ j
    → balance j a (destroy_offer id seller s).1 ≡ balance j a s
unfolding destroy_offer
destroy_other id seller s v ne j a other =
    go (transfer_token id seller (bytes "BURNED") 1 s)
      (transfer_token_lem id seller (bytes "BURNED") 1 s v ne)
      (transfer_token-IsValid id seller (bytes "BURNED") 1 s v)
  where
    same :
        (r : Outcome (Unit {0}) × TokenState)
        → Transfers id seller (bytes "BURNED") 1 s r
        → balance j a r.1 ≡ balance j a s
    same r (inl (_, moves)) = ground (arith, moves j a)
    same r (inr (x, _, keeps)) = keeps j a

    after :
        (s' : TokenState) (r : Outcome ℕ × TokenState)
        → Melts id seller 1 s' r
        → balance j a (melted r).1 ≡ balance j a s'
    after s' (ok n, t) (inl (_, _, _, _, m, _)) = ground (arith, m j a)
    after s' (ok n, t) (inr (_, _, m, _)) = m j a
    after s' (err e, t) (inl (_, _, _, _, m, _)) = ground (arith, m j a)
    after s' (err e, t) (inr (_, _, m, _)) = m j a
    after s' (panicked, t) (inl (_, _, _, _, m, _)) = ground (arith, m j a)
    after s' (panicked, t) (inr (_, _, m, _)) = m j a

    go :
        (r : Outcome (Unit {0}) × TokenState)
        → Transfers id seller (bytes "BURNED") 1 s r
        → IsValid r.1
        → balance j a (burned_or r (melt_token id seller 1)).1 ≡ balance j a s
    go (ok u, s') h w = same (ok u, s') h
    go (panicked, s') h w = same (panicked, s') h
    go (err e, s') h w =
        after s' (melt_token id seller 1 s') (melt_token_lem id seller 1 s' w) ∙ same (err e, s') h

not_empty : (a : Bytes) → a ≢ [] → is_empty a ≡ false
not_empty [] h = absurd (h refl)
not_empty (c ∷ a) h = refl

-- The price of an offer that asks for a token.
pay_offer_tokens :
    (op : TokenOperation) (offer : TradeOfferData) (s : TokenState)
    → offer.asking_token_id ≢ []
    → offer.asking_token_id ≢ shadow
    → pay_offer op offer s
      ≡ checked_transfer offer.asking_token_id op.from offer.seller offer.asking_price buyer_short s
unfolding pay_offer
pay_offer_tokens op offer s h k = ground (arith, not_empty offer.asking_token_id h)

-- What completed trades have in common: the steps, and the states between them.
record Trade (op : TokenOperation) (offer : TradeOfferData) (s t : TokenState) : Type 0 where
  paid_state : TokenState
  delivered_state : TokenState
  affordable : offer.asking_price ≤ balance offer.asking_token_id op.from s
  paid : Moves offer.asking_token_id op.from offer.seller offer.asking_price s paid_state
  escrowed : offer.locked_amount ≤ balance offer.locked_token_id op.token_id paid_state
  delivered :
      Moves offer.locked_token_id op.token_id op.from offer.locked_amount paid_state delivered_state
  rest : (j a : Bytes) → op.token_id ≢ j → balance j a t ≡ balance j a delivered_state

module _ (op : TokenOperation) (offer : TradeOfferData) (index : ℕ) (r : TokenOpResult)
    (s t : TokenState) (v : IsValid s) (buys : op.from ≢ offer.seller)
    (escrow : op.token_id ≢ op.from) (ends : offer.seller ≢ bytes "BURNED")
    (priced : offer.asking_token_id ≢ []) (price : offer.asking_token_id ≢ shadow)
    (goods : offer.locked_token_id ≢ shadow)
    (traded : trade_with op offer index s ≡ (done r, t)) where
  steps_taken : Trade op offer s t
  unfolding trade_with
  steps_taken =
      let deliver = move_token offer.locked_token_id op.token_id op.from offer.locked_amount in
      let destroy = destroy_offer op.token_id offer.seller in
      let end : Exec TokenOpResult = pure (op_result index op op.from offer.seller 0 0) in
      let (_, s1, first, e1) =
        bind_done (pay_offer op offer) (λ _. deliver >>= λ _. destroy >>= λ _. end) s t r traded in
      let (_, s2, second, e2) = bind_done deliver (λ _. destroy >>= λ _. end) s1 t r e1 in
      let (_, s3, third, e3) = bind_done destroy (λ _. end) s2 t r e2 in
      let (v1, affordable, paid) =
        checked_done offer.asking_token_id op.from offer.seller offer.asking_price buyer_short s s1
          v buys (sym (pay_offer_tokens op offer s priced price) ∙ first) in
      let (v2, escrowed, delivered) =
        move_done offer.locked_token_id op.token_id op.from offer.locked_amount s1 s2 v1 escrow
          goods second in
      record {
        paid_state = s1;
        delivered_state = s2;
        affordable = affordable;
        paid = paid;
        escrowed = escrowed;
        delivered = delivered;
        rest = λ j a other.
            ap (λ k. balance j a k) (sym (ap (λ w. w.1) e3) ∙ sym (ap (λ w. w.1) third))
            ∙ destroy_other op.token_id offer.seller s2 v2 ends j a other;
      }

  -- A trade for a price in tokens, none of them SHADOW, that is completed from a valid state: the seller has gained the price and the buyer has paid it,
  -- and the buyer has gained the locked tokens, which have left the escrow. The price, the goods and the
  -- offer are three different tokens, and buyer, seller, escrow and the null address are different.
  pub trade_settles :
      offer.locked_token_id ≢ offer.asking_token_id
      → op.token_id ≢ offer.locked_token_id
      → op.token_id ≢ offer.asking_token_id
      → (balance offer.asking_token_id offer.seller t
          ≡ balance offer.asking_token_id offer.seller s + offer.asking_price)
        × (balance offer.asking_token_id op.from t + offer.asking_price
            ≡ balance offer.asking_token_id op.from s)
        × (balance offer.locked_token_id op.from t
            ≡ balance offer.locked_token_id op.from s + offer.locked_amount)
        × (balance offer.locked_token_id op.token_id t + offer.locked_amount
            ≡ balance offer.locked_token_id op.token_id s)
  trade_settles p q w =
      let c = steps_taken in
      let k = offer.asking_token_id in
      let l = offer.locked_token_id in
      (
        unfold transferred in
            ground
              (arith, c.rest k offer.seller, c.delivered k offer.seller, c.paid k offer.seller),
        unfold transferred in
            ground (arith, c.affordable, c.rest k op.from, c.delivered k op.from, c.paid k op.from),
        unfold transferred in
            ground (arith, c.rest l op.from, c.delivered l op.from, c.paid l op.from),
        unfold transferred in
            ground (
              arith,
              c.escrowed,
              c.rest l op.token_id,
              c.delivered l op.token_id,
              c.paid l op.token_id,
            ),
      )
