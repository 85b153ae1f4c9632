-- ===== src/Transaction/Built.antt =====
-- What the validation of cmd/transaction.go makes of the operations that its builders make, and which
-- tokens share an identifier.
use shadowyapparatus.Prelude.{
  ℕ, ◌+◌, ◌*◌, ◌^◌, ◌≤◌, ◌<◌, ◌≡◌, ◌≢◌, ◌⊎◌, ap, ◌∙◌, sym, true, false, none, [], ◌∷◌, ◌++◌, Bytes,
  length,
}
use shadowyapparatus.Token.{SyndicateType, TokenOperation, TokenOpType}
use shadowyapparatus.Syndicate.{same_syndicate}
use shadowyapparatus.Executor.Requirements.{require_membership}
use shadowyapparatus.Address.{Hashes, is_valid_address}
use shadowyapparatus.Address.Hex.{hex_encode}
use shadowyapparatus.Validation.{validate_token_operation}
use shadowyapparatus.Validation.Checks.{is_valid_uri}
use shadowyapparatus.Validation.Swaps.{unix}
use shadowyapparatus.Transaction.{Transaction}
use shadowyapparatus.Transaction.Builders.{
  generate_token_id, add_token_create, add_token_transfer, add_token_melt, add_trade_offer,
  add_trade_execute, add_syndicate_join, add_pool_create, decimal,
}
use mathlib.Core.List.{append_assoc}

-- A call of a builder, other than the one for swaps.
pub data Call : Type 0 where
  create : (name ticker : Bytes) → (supply decimals lock : ℕ) → (creator uri : Bytes) → Call
  transfer : Bytes → ℕ → (from to : Bytes) → Call
  melt : Bytes → ℕ → Bytes → Call
  offer : Bytes → (locked price : ℕ) → (asked seller : Bytes) → ℕ → Call
  execute : (nft buyer : Bytes) → Call
  join : SyndicateType → Bytes → (capacity days : ℕ) → Call
  pool :
      (token_a token_b : Bytes) → (ratio_a ratio_b fee : ℕ) → (creator name ticker : Bytes) → Call

module _ (h : Hashes) where
  unfoldable pub made_by : Call → Transaction → Transaction
  made_by (create name ticker supply decimals lock creator uri) tx =
      add_token_create h name ticker supply decimals lock creator uri tx
  made_by (transfer id amount from to) tx = add_token_transfer h id amount from to tx
  made_by (melt id amount from) tx = add_token_melt h id amount from tx
  made_by (offer id locked price asked seller hours) tx =
      add_trade_offer h id locked price asked seller hours tx
  made_by (execute nft buyer) tx = add_trade_execute h nft buyer tx
  made_by (join syndicate miner capacity days) tx =
      add_syndicate_join h syndicate miner capacity days tx
  made_by (pool a b ratio_a ratio_b fee creator name ticker) tx =
      add_pool_create h a b ratio_a ratio_b fee creator name ticker tx

  -- Arguments that name valid addresses, and amounts, texts and durations within the limits.
  abbrev pub IsSensible : Transaction → Call → Type 0
  IsSensible tx (create name ticker supply decimals lock creator uri) =
      (0 < length name)
      × (length name ≤ 64)
      × (0 < length ticker)
      × (length ticker ≤ 16)
      × (0 < supply)
      × (decimals ≤ 18)
      × (0 < lock)
      × (is_valid_address h creator ≡ true)
      × ((uri ≡ []) ⊎ ((is_valid_uri uri ≡ true) × (length uri ≤ 128)))
  IsSensible tx (transfer id amount from to) =
      (length id ≡ 64)
      × (0 < amount)
      × (is_valid_address h from ≡ true)
      × (is_valid_address h to ≡ true)
      × (from ≢ to)
  IsSensible tx (melt id amount from) =
      (length id ≡ 64) × (0 < amount) × (is_valid_address h from ≡ true)
  IsSensible tx (offer id locked price asked seller hours) =
      (0 < length id)
      × (0 < locked)
      × (0 < price)
      × (is_valid_address h seller ≡ true)
      × (0 < hours)
      × (unix tx.timestamp + hours * 3600 < 2 ^ 63)
  IsSensible tx (execute nft buyer) = (length nft ≡ 64) × (is_valid_address h buyer ≡ true)
  IsSensible tx (join syndicate miner capacity days) =
      (0 < length miner)
      × (same_syndicate syndicate SyndicateType.other ≡ false)
      × (0 < days)
      × (days ≤ 8)
      × (unix tx.timestamp + 8 * 24 * 3600 < 2 ^ 63)
  IsSensible tx (pool a b ratio_a ratio_b fee creator name ticker) =
      (0 < length creator) × (0 < length name) × (0 < length ticker)

  -- What a builder adds, and that it is accepted; a membership by the executor's check as well.
  abbrev pub AddsAccepted : ℕ → Transaction → Transaction → Type 0
  AddsAccepted now tx tx' =
      (op : TokenOperation) × (tx'.token_ops ≡ tx.token_ops ++ op ∷ [])
      × (validate_token_operation h now op ≡ none)
      × (op.op_type ≡ TokenOpType.syndicate_join → require_membership op ≡ none)

  colon_assoc :
      (a b c rest : Bytes)
      → (a ++ (b':' ∷ b)) ++ (b':' ∷ (c ++ rest)) ≡ a ++ (b':' ∷ ((b ++ (b':' ∷ c)) ++ rest))
  colon_assoc a b c rest =
      append_assoc a (b':' ∷ b) (b':' ∷ (c ++ rest))
      ∙ ap (λ m. a ++ (b':' ∷ m)) (sym (append_assoc b (b':' ∷ c) rest))

  -- A colon may stand in a name or in a ticker: two tokens whose names and tickers differ have the
  -- same identifier, if they have one creator and are made within a second.
  pub colon_moves :
      (a b c creator : Bytes) (s t : ℕ)
      → unix s ≡ unix t
      → generate_token_id h (a ++ (b':' ∷ b)) c creator s
        ≡ generate_token_id h a (b ++ (b':' ∷ c)) creator t
  unfolding generate_token_id
  colon_moves a b c creator s t e = rw e (
      ap (λ m. hex_encode (h.shake 32 m))
        (colon_assoc a b c (b':' ∷ (creator ++ (b':' ∷ decimal (unix t))))))
