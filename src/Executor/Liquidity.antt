-- ===== src/Executor/Liquidity.antt =====
-- Transfers in cmd/token_executor.go. One to an L-address is a provision of liquidity, for which the
-- sender is given shares of the pool.
use shadowyapparatus.Prelude.{
  ℕ, ◌/◌, not, ◌&&◌, none, some, [], ◌∷◌, Bytes, str_eq, ◌==◌, if◌then◌else◌, mul64, length,
}
use shadowyapparatus.Dict.{bytes_key}
use shadowyapparatus.Dict.Sum.{amount}
use shadowyapparatus.Token.{LiquidityPoolData, TokenOperation}
use shadowyapparatus.TokenState.{TokenState}
use shadowyapparatus.TokenState.Queries.{get_token_balances, get_token_info}
use shadowyapparatus.TokenState.Operations.{transfer_token, mint_tokens_to}
use shadowyapparatus.Validation.Swaps.{shadow}
use shadowyapparatus.Executor.Monad.{
  Exec, Result, done, failed, crashed, pure, fail, crash, ◌>>=◌, ◌>>◌, fail_if, read, call,
  pool_not_found, not_in_pool, shadow_not_accepted, no_share_token, nothing_to_mint,
}
use shadowyapparatus.Executor.Pools.{find_pool_by_l_address}
use shadowyapparatus.Executor.Results.{TokenOpResult, op_result}

-- `getTokenBalance`, with 0 where it reports an error; that of SHADOW is not tracked.
unfoldable pub provided_reserve : Bytes → Bytes → TokenState → ℕ
unfolding get_token_balances
provided_reserve id l s = if str_eq id shadow then 0 else amount l (get_token_balances id s)

unfoldable pub lp_tokens_to_mint : ℕ → ℕ → ℕ → ℕ
lp_tokens_to_mint n reserve supply = if reserve == 0 then mul64 n 1000 else mul64 n supply / reserve

-- `handleLiquidityProvision` once the pool is found.
unfoldable pub provide : LiquidityPoolData → Bytes → Bytes → Bytes → ℕ → Exec (Unit {0})
unfolding provided_reserve lp_tokens_to_mint get_token_info
provide pool l provider id n = do
  fail_if (not (str_eq id pool.token_a) && not (str_eq id pool.token_b)) not_in_pool
  fail_if (str_eq id shadow && not (str_eq pool.token_a shadow) && not (str_eq pool.token_b shadow))
      shadow_not_accepted
  reserve_a ← read (provided_reserve pool.token_a l)
  reserve_b ← read (provided_reserve pool.token_b l)
  share ← read (get_token_info pool.share_token_id)
  elim share [
    | none ↦ fail no_share_token
    | some token ↦ do
      let reserve = if str_eq id pool.token_a then reserve_a else reserve_b
      let minted = lp_tokens_to_mint n reserve token.total_supply
      fail_if (minted == 0) nothing_to_mint
      call (mint_tokens_to pool.share_token_id minted provider)
  ]

unfoldable pub handle_liquidity_provision : Bytes → Bytes → Bytes → ℕ → Exec (Unit {0})
unfolding find_pool_by_l_address provide
handle_liquidity_provision l provider id n = do
  found ← read (find_pool_by_l_address l)
  elim found [ none ↦ fail pool_not_found | some (_, pool) ↦ provide pool l provider id n ]

-- An error is logged, and forgotten.
abbrev ignored : Result (Unit {0}) × TokenState → Result (Unit {0}) × TokenState
ignored (done _, s) = (done tt, s)
ignored (failed _, s) = (done tt, s)
ignored (crashed, s) = (crashed, s)

abbrev pub attempt : Exec (Unit {0}) → Exec (Unit {0})
attempt m s = ignored (m s)

-- What follows a transfer to an address. A log line reads its first byte, which panics if it is empty.
unfoldable pub after_transfer : TokenOperation → Bytes → Exec (Unit {0})
unfolding handle_liquidity_provision
after_transfer op [] = crash
after_transfer op (c ∷ rest) =
    if length (c ∷ rest) == 41 && c == b'L'
    then attempt (handle_liquidity_provision (c ∷ rest) op.from op.token_id op.op_amount)
    else pure tt

unfoldable pub execute_token_transfer : TokenOperation → ℕ → Exec TokenOpResult
unfolding after_transfer
execute_token_transfer op index = do
  call (transfer_token op.token_id op.from op.to op.op_amount)
  after_transfer op op.to
  pure (op_result index op op.from op.to 0 0)
