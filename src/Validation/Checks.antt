-- ===== src/Validation/Checks.antt =====
-- The errors of the validators of cmd/transaction.go, one constructor for each message, and
-- `isValidURI`.
use shadowyapparatus.Prelude.{
  ℕ, ◌+◌, ◌==◌, leb, ◌&&◌, ◌||◌, if◌then◌else◌, Bool, true, false, not, Option, none, some, List,
  [], ◌∷◌, Bytes, bytes, is_empty,
}

pub data Refusal : Type 0 where
  empty_token_id token_id_length zero_amount unknown_type : Refusal
  no_metadata metadata_present empty_name empty_ticker long_name long_ticker : Refusal
  zero_supply many_decimals zero_lock bad_creator long_uri bad_uri : Refusal
  amount_not_supply recipient_not_creator : Refusal
  empty_from empty_to bad_from bad_to same_address to_present : Refusal
  no_trade_offer empty_locked_token zero_locked zero_price bad_seller : Refusal
  early_expiration not_nft not_one : Refusal
  no_pool_swap empty_pool bad_pool empty_input empty_output same_tokens : Refusal
  input_format output_format empty_swapper bad_swapper : Refusal
  input_mismatch from_mismatch to_mismatch high_slippage : Refusal
  expired late_expiration both_limits no_creation_time future_creation : Refusal
  many_creates create_combined : Refusal

-- `if bad { return error }` in a row: the first test that holds gives the error, and `none` is nil.
abbrev pub first_of : List (Bool × Refusal) → Option Refusal
first_of [] = none
first_of ((bad, r) ∷ rest) = if bad then some r else first_of rest

abbrev lower_byte : ℕ → ℕ
lower_byte a = if leb b'A' a && leb a b'Z' then a + 32 else a

-- `strings.ToLower`, as far as the prefixes below can tell: besides the capitals, only İ (0xC4 0xB0
-- in UTF-8) becomes a letter that occurs in them.
unfoldable pub to_lower : Bytes → Bytes
to_lower [] = []
to_lower (a ∷ []) = lower_byte a ∷ []
to_lower (a ∷ b ∷ rest) = elim (a == 0xC4 && b == 0xB0) [
  | true ↦ b'i' ∷ to_lower rest
  | false ↦ lower_byte a ∷ to_lower (b ∷ rest)
]

abbrev pub has_prefix : Bytes → Bytes → Bool
has_prefix s [] = true
has_prefix [] (p ∷ ps) = false
has_prefix (c ∷ s) (p ∷ ps) = c == p && has_prefix s ps

abbrev pub any_prefix : Bytes → List Bytes → Bool
any_prefix s [] = false
any_prefix s (p ∷ ps) = has_prefix s p || any_prefix s ps

abbrev pub contains_byte : Bytes → ℕ → Bool
contains_byte [] x = false
contains_byte (c ∷ s) x = c == x || contains_byte s x

unfoldable pub is_valid_uri : Bytes → Bool
unfolding to_lower
is_valid_uri uri =
    if is_empty uri
    then false
    else if not (
        any_prefix (to_lower uri) (
          bytes "http://"
          ∷ bytes "https://"
          ∷ bytes "ipfs://"
          ∷ bytes "ar://"
          ∷ bytes "data:"
          ∷ []))
    then false
    else not (
        contains_byte uri b' '
        || contains_byte uri 10
        || contains_byte uri 13
        || contains_byte uri 9)
