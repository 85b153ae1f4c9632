-- ===== src/TokenState/Queries.antt =====
-- The methods of cmd/token_state.go that only read. They answer with copies.
use shadowyapparatus.Prelude.{
  ℕ, Option, none, some, List, [], ◌∷◌, Bytes, ltb, if◌then◌else◌, add64,
}
use shadowyapparatus.Dict.{Dict, lookup, bytes_key}
use shadowyapparatus.Dict.Sum.{amount}
use shadowyapparatus.Token.{TokenMetadata}
use shadowyapparatus.TokenState.{TokenState, Outcome, ok, err, no_such_token, balance, balances_of}

abbrev if_known : {A : Type 0} → Bytes → A → TokenState → Outcome A
if_known id a s = elim (lookup id s.tokens) [ none ↦ err no_such_token | some _ ↦ ok a ]

unfoldable pub get_token_info : Bytes → TokenState → Option TokenMetadata
get_token_info id s = lookup id s.tokens

unfoldable pub get_token_balance : Bytes → Bytes → TokenState → Outcome ℕ
get_token_balance id address s = if_known id (balance id address s) s

pub record TokenBalance : Type 0 where
  pub token_id : Bytes
  pub address : Bytes
  pub amount_held : ℕ
  pub token_info : Option TokenMetadata

-- The loop of `GetAllTokenBalances` over the balances of every token.
unfoldable pub holdings :
    Bytes → Dict Bytes TokenMetadata → Dict Bytes (Dict Bytes ℕ) → List TokenBalance
holdings address tokens [] = []
holdings address tokens ((id, m) ∷ rest) =
    if ltb 0 (amount address m)
    then record {
      token_id = id;
      address = address;
      amount_held = amount address m;
      token_info = lookup id tokens;
    }
      ∷ holdings address tokens rest
    else holdings address tokens rest

unfoldable pub get_all_token_balances : Bytes → TokenState → List TokenBalance
unfolding holdings
get_all_token_balances address s = holdings address s.tokens s.balances

unfoldable pub get_token_holders : Bytes → TokenState → Outcome (Dict Bytes ℕ)
get_token_holders id s = if_known id (balances_of (lookup id s.balances)) s

-- `total += balance` over the balances of a token.
unfoldable pub add_balances : ℕ → Dict Bytes ℕ → ℕ
add_balances total [] = total
add_balances total ((_, n) ∷ m) = add_balances (add64 total n) m

unfoldable pub get_total_supply : Bytes → TokenState → Outcome ℕ
unfolding add_balances add64
get_total_supply id s = if_known id (add_balances 0 (balances_of (lookup id s.balances))) s

unfoldable pub get_locked_shadow : Bytes → TokenState → Outcome ℕ
get_locked_shadow id s = if_known id (amount id s.locked_shadow) s

-- `ListAllTokens` and `GetAllTokens`
unfoldable pub get_all_tokens : TokenState → Dict Bytes TokenMetadata
get_all_tokens s = s.tokens

unfoldable pub get_token_balances : Bytes → TokenState → Dict Bytes ℕ
get_token_balances id s = elim (lookup id s.tokens) [
  | none ↦ []
  | some _ ↦ balances_of (lookup id s.balances)
]
