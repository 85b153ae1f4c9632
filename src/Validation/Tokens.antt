-- ===== src/Validation/Tokens.antt =====
-- `validateTokenCreate`, `validateTokenTransfer` and `validateTokenMelt` of cmd/transaction.go.
use shadowyapparatus.Prelude.{
  ltb, ◌==◌, ◌&&◌, not, Option, none, some, [], ◌∷◌, length, is_empty, str_eq,
}
use shadowyapparatus.Token.{TokenMetadata, TokenOperation}
use shadowyapparatus.Address.{Hashes, is_valid_address}
use shadowyapparatus.Validation.Checks.{
  Refusal, no_metadata, metadata_present, empty_name, empty_ticker, long_name, long_ticker,
  zero_supply, many_decimals, zero_lock, bad_creator, long_uri, bad_uri, amount_not_supply,
  recipient_not_creator, empty_from, empty_to, bad_from, bad_to, same_address, to_present, first_of,
  is_valid_uri,
}

module _ (h : Hashes) where
  unfoldable pub check_create : TokenMetadata → TokenOperation → Option Refusal
  check_create m op = first_of (
      (is_empty m.name, empty_name)
      ∷ (is_empty m.ticker, empty_ticker)
      ∷ (ltb 64 (length m.name), long_name)
      ∷ (ltb 16 (length m.ticker), long_ticker)
      ∷ (m.total_supply == 0, zero_supply)
      ∷ (ltb 18 m.decimals, many_decimals)
      ∷ (m.lock_amount == 0, zero_lock)
      ∷ (not (is_valid_address h m.creator), bad_creator)
      ∷ (not (is_empty m.uri) && ltb 128 (length m.uri), long_uri)
      ∷ (not (is_empty m.uri) && not (is_valid_uri m.uri), bad_uri)
      ∷ (not (op.op_amount == m.total_supply), amount_not_supply)
      ∷ (not (str_eq op.to m.creator), recipient_not_creator)
      ∷ [])

  unfoldable pub validate_token_create : TokenOperation → Option Refusal
  unfolding check_create
  validate_token_create op = elim op.metadata [
    | none ↦ some no_metadata
    | some m ↦ check_create m op
  ]

  unfoldable pub validate_token_transfer : TokenOperation → Option Refusal
  validate_token_transfer op = elim op.metadata [
    | some _ ↦ some metadata_present
    | none ↦ first_of (
        (is_empty op.from, empty_from)
        ∷ (is_empty op.to, empty_to)
        ∷ (not (is_valid_address h op.from), bad_from)
        ∷ (not (is_valid_address h op.to), bad_to)
        ∷ (str_eq op.from op.to, same_address)
        ∷ [])
  ]

  unfoldable pub validate_token_melt : TokenOperation → Option Refusal
  validate_token_melt op = elim op.metadata [
    | some _ ↦ some metadata_present
    | none ↦ first_of (
        (not (is_empty op.to), to_present)
        ∷ (is_empty op.from, empty_from)
        ∷ (not (is_valid_address h op.from), bad_from)
        ∷ [])
  ]
