-- ===== src/TokenState/Operations.antt =====
-- `TransferToken`, `MeltToken` and `MintTokensTo` of cmd/token_state.go, each with what it undoes
-- when the save at its end fails.
use shadowyapparatus.Prelude.{
  ℕ, ite, none, some, Bytes, bytes, bytes_discrete, ltb, ◌==◌, if◌then◌else◌, add64, sub64, mul64,
}
use shadowyapparatus.Dict.{Dict, lookup, insert, erase, bytes_key}
use shadowyapparatus.Dict.Sum.{amount}
use shadowyapparatus.Token.{TokenMetadata}
use shadowyapparatus.TokenState.{
  TokenState, Outcome, ok, err, panicked, no_such_token, insufficient, save_failed, save, balance,
  balances_of,
}

abbrev pub drop_zero : Bytes → Dict Bytes ℕ → Dict Bytes ℕ
drop_zero a m = if amount a m == 0 then erase a m else m

-- The balances of one token after a transfer out of `have`.
unfoldable pub moved : Bytes → Bytes → ℕ → ℕ → Dict Bytes ℕ → Dict Bytes ℕ
moved from to n have m =
    let debited = insert from (sub64 have n) m in
    drop_zero from (insert to (add64 (amount to debited) n) debited)

-- The rollback of a transfer.
unfoldable pub moved_back : Bytes → Bytes → ℕ → ℕ → Dict Bytes ℕ → Dict Bytes ℕ
moved_back from to n have m =
    let credited = insert from have m in
    drop_zero to (insert to (sub64 (amount to credited) n) credited)

abbrev pub with_balances : Bytes → Dict Bytes ℕ → TokenState → TokenState
with_balances id m s = record s { balances = insert id m s.balances }

-- The part of `TransferToken` below its checks, at the balances `m` of the token.
unfoldable pub transfer_at :
    Bytes → Bytes → Bytes → ℕ → ℕ → Dict Bytes ℕ → TokenState → Outcome (Unit {0}) × TokenState
transfer_at id from to n have m s =
    let (saved, s') = save (with_balances id (moved from to n have m) s) in
    if saved then (ok tt, s') else (
      err save_failed,
      with_balances id (moved_back from to n have (balances_of (lookup id s'.balances))) s',
    )

unfoldable pub transfer_token :
    Bytes → Bytes → Bytes → ℕ → TokenState → Outcome (Unit {0}) × TokenState
transfer_token id from to n s = elim (lookup id s.tokens) [
  | none ↦ (err no_such_token, s)
  | some _ ↦
      if ltb (balance id from s) n
      then (err (insufficient (balance id from s) n), s)
      else (elim (lookup id s.balances) [
        | none ↦ (panicked, s)
        | some m ↦ transfer_at id from to n (balance id from s) m s
      ])
]

-- The balances of one token after a melt out of `have`.
unfoldable pub burned : Bytes → ℕ → ℕ → Dict Bytes ℕ → Dict Bytes ℕ
burned from n have m = drop_zero from (insert from (sub64 have n) m)

abbrev pub with_melt : Bytes → Dict Bytes ℕ → ℕ → TokenState → TokenState
with_melt id m locked s = record s {
  balances = insert id m s.balances;
  locked_shadow = insert id locked s.locked_shadow;
}

-- The part of `MeltToken` below its checks; `shadow` is what it will return.
unfoldable pub melt_at :
    Bytes → Bytes → ℕ → ℕ → ℕ → Dict Bytes ℕ → TokenState → Outcome ℕ × TokenState
melt_at id from n have shadow m s =
    let (saved, s') =
      save (with_melt id (burned from n have m) (sub64 (amount id s.locked_shadow) shadow) s) in
    if saved then (ok shadow, s') else (
      err save_failed,
      with_melt id (insert from have (balances_of (lookup id s'.balances)))
          (add64 (amount id s'.locked_shadow) shadow) s',
    )

unfoldable pub melt_token : Bytes → Bytes → ℕ → TokenState → Outcome ℕ × TokenState
melt_token id from n s = elim (lookup id s.tokens) [
  | none ↦ (err no_such_token, s)
  | some info ↦
      if ltb (balance id from s) n
      then (err (insufficient (balance id from s) n), s)
      else (elim (lookup id s.balances) [
        | none ↦ (panicked, s)
        | some m ↦ melt_at id from n (balance id from s) (mul64 n info.lock_amount) m s
      ])
]

-- An empty address stands for the token's creator.
unfoldable pub recipient : Bytes → TokenMetadata → Bytes
recipient to token = ite (bytes_discrete to (bytes "")) token.creator to

abbrev pub with_mint : Bytes → Bytes → ℕ → TokenMetadata → TokenState → TokenState
with_mint id to n token s =
    let m = balances_of (lookup id s.balances) in
    record s {
      tokens = insert id (record token { total_supply = add64 token.total_supply n }) s.tokens;
      balances = insert id (insert to (add64 (amount to m) n) m) s.balances;
    }

-- A failed save is reported, and nothing is undone.
unfoldable pub mint_tokens_to : Bytes → ℕ → Bytes → TokenState → Outcome (Unit {0}) × TokenState
unfolding recipient
mint_tokens_to id n to s = elim (lookup id s.tokens) [
  | none ↦ (err no_such_token, s)
  | some token ↦
      let (saved, s') = save (with_mint id (recipient to token) n token s) in
      if saved then (ok tt, s') else (err save_failed, s')
]

unfoldable pub mint_tokens : Bytes → ℕ → TokenState → Outcome (Unit {0}) × TokenState
unfolding mint_tokens_to
mint_tokens id n s = mint_tokens_to id n (bytes "") s
