-- ===== src/Validation/Trades.antt =====
-- `validateTradeOffer`, `validateTradeExecute`, `validateSyndicateJoin` and `validatePoolCreate` of
-- cmd/transaction.go.
use shadowyapparatus.Prelude.{◌==◌, ◌||◌, not, Option, none, some, [], ◌∷◌, is_empty}
use shadowyapparatus.Token.{TokenMetadata, TradeOfferData, TokenOperation, le_i64}
use shadowyapparatus.Address.{Hashes, is_valid_address}
use shadowyapparatus.Validation.Checks.{
  Refusal, empty_token_id, zero_amount, no_metadata, metadata_present, empty_name, empty_ticker,
  zero_lock, empty_from, empty_to, bad_from, no_trade_offer, empty_locked_token, zero_locked,
  zero_price, bad_seller, early_expiration, not_nft, not_one, first_of,
}

module _ (h : Hashes) where
  unfoldable pub check_offer : TokenMetadata → TradeOfferData → Option Refusal
  check_offer m trade = first_of (
      (is_empty trade.locked_token_id, empty_locked_token)
      ∷ (trade.locked_amount == 0, zero_locked)
      ∷ (trade.asking_price == 0, zero_price)
      ∷ (not (is_valid_address h trade.seller), bad_seller)
      ∷ (le_i64 trade.expiration_time trade.creation_time, early_expiration)
      ∷ (not (m.decimals == 0) || not (m.total_supply == 1), not_nft)
      ∷ [])

  unfoldable pub validate_trade_offer : TokenOperation → Option Refusal
  unfolding check_offer
  validate_trade_offer op = elim op.metadata [
    | none ↦ some no_metadata
    | some m ↦ elim m.trade_offer [ none ↦ some no_trade_offer | some trade ↦ check_offer m trade ]
  ]

  unfoldable pub validate_trade_execute : TokenOperation → Option Refusal
  validate_trade_execute op = elim op.metadata [
    | some _ ↦ some metadata_present
    | none ↦ first_of (
        (is_empty op.from, empty_from)
        ∷ (not (is_valid_address h op.from), bad_from)
        ∷ (not (op.op_amount == 1), not_one)
        ∷ [])
  ]

unfoldable pub validate_syndicate_join : TokenOperation → Option Refusal
validate_syndicate_join op = first_of (
    (is_empty op.token_id, empty_token_id)
    ∷ (is_empty op.to, empty_to)
    ∷ (op.op_amount == 0, zero_amount)
    ∷ (elim op.metadata [
      | none ↦ []
      | some m ↦ (is_empty m.name, empty_name) ∷ (is_empty m.ticker, empty_ticker) ∷ []
    ]))

unfoldable pub validate_pool_create : TokenOperation → Option Refusal
validate_pool_create op = first_of (
    (is_empty op.token_id, empty_token_id)
    ∷ (is_empty op.to, empty_to)
    ∷ (op.op_amount == 0, zero_amount)
    ∷ (elim op.metadata [
      | none ↦ []
      | some m ↦
          (is_empty m.name, empty_name)
          ∷ (is_empty m.ticker, empty_ticker)
          ∷ (m.lock_amount == 0, zero_lock)
          ∷ []
    ]))
