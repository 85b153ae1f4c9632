-- ===== src/TokenState/Minting.antt =====
-- `MintTokensTo` as a whole.
use shadowyapparatus.Prelude.{
  ℕ, ◌+◌, ◌<◌, ◌≡◌, ite, arith, some, Bytes, bytes_discrete, if◌then◌else◌, u64_mod, add64,
}
use shadowyapparatus.Prelude.Word.{add64-eq}
use shadowyapparatus.Token.{TokenMetadata}
use shadowyapparatus.Dict.{lookup, insert, bytes_key, insert-IsDistinct, lookup-insert}
use shadowyapparatus.Dict.Sum.{amount, sum, sum-insert, amount-insert, amount-le-sum}
use shadowyapparatus.TokenState.{
  TokenState, Outcome, ok, err, save_failed, save, balance, is_written, balances_of,
}
use shadowyapparatus.TokenState.Operations.{mint_tokens_to, recipient}
use shadowyapparatus.TokenState.Validity.{IsValid, Entries, known-Entries, circulating}

-- The result of a mint of a token with the metadata t.
abbrev pub Mints :
    Bytes → Bytes → ℕ → TokenState → TokenMetadata → Outcome (Unit {0}) × TokenState → Type 0
Mints id to n s t r =
    (r.0 ≡ (if is_written (s.disk.moments 0).write then ok tt else err save_failed))
    × ((j a : Bytes)
        → balance j a r.1
          ≡ ite (bytes_discrete id j)
              (ite (bytes_discrete (recipient to t) a) (add64 (balance j a s) n) (balance j a s))
              (balance j a s))
    × ((j : Bytes)
        → lookup j r.1.tokens
          ≡ ite (bytes_discrete id j) (some (record t { total_supply = add64 t.total_supply n }))
              (lookup j s.tokens))
    × (r.1.locked_shadow ≡ s.locked_shadow)

-- A mint of a known token adds the amount to the recipient's balance and to the recorded supply,
-- modulo 2 ^ 64, and locks nothing. It does so also where it reports that its save has failed.
pub mint_tokens_to_lem :
    (id to : Bytes) (n : ℕ) (s : TokenState) (t : TokenMetadata)
    → lookup id s.tokens ≡ some t
    → Mints id to n s t (mint_tokens_to id n to s)
unfolding mint_tokens_to save balance
mint_tokens_to_lem id to n s t known =
    let who = recipient to t in
    let m = balances_of (lookup id s.balances) in
    let new = add64 (amount who m) n in
    let token : TokenMetadata = record t { total_supply = add64 t.total_supply n } in
    (
      ground arith,
      λ j a.
          ground
            (arith, lookup-insert j id (insert who new m) s.balances, amount-insert a who new m),
      λ j. ground (arith, lookup-insert j id token s.tokens),
      ground arith,
    )

-- So in a valid state a mint that stays within a uint64 adds n units to the circulation, with no
-- Shadow behind them.
pub mint_tokens_to_unbacked :
    (id to : Bytes) (n : ℕ) (s : TokenState) (t : TokenMetadata)
    → IsValid s
    → lookup id s.tokens ≡ some t
    → circulating id s + n < u64_mod
    → let s' = (mint_tokens_to id n to s).1 in
      (circulating id s' ≡ circulating id s + n)
      × (amount id s'.locked_shadow ≡ amount id s.locked_shadow)
      × IsValid s'
unfolding mint_tokens_to save circulating
mint_tokens_to_unbacked id to n s t v known fits = (
  ground (arith, x.at_balances, grown, lookup-insert id id (insert who new x.holders) s.balances),
  ground arith,
  λ j. ground (
    arith,
    v j,
    x.at_balances,
    x.at_locked,
    x.in_range,
    insert-IsDistinct who new x.holders x.distinct,
    grown,
    within,
    lookup-insert j id (insert who new x.holders) s.balances,
    lookup-insert j id token s.tokens,
  ),
)
  where
    x : Entries id s
    x = known-Entries id s v known

    who : Bytes
    who = recipient to t

    new : ℕ
    new = add64 (amount who x.holders) n

    within : sum x.holders + n < u64_mod
    within = ground (arith, x.at_balances, fits)

    grown : sum (insert who new x.holders) ≡ sum x.holders + n
    grown = omega (
      arith,
      sum-insert who new x.holders,
      add64-eq (amount who x.holders) n,
      amount-le-sum who x.holders,
      within,
    )

    token : TokenMetadata
    token = record t { total_supply = add64 t.total_supply n }
