-- ===== src/Executor/Trades.antt =====
-- The operations of cmd/token_executor.go that create tokens, and the execution of a trade.
use shadowyapparatus.Prelude.{
  ℕ, ◌-◌, ◌||◌, none, some, ◌++◌, Bytes, bytes, str_eq, is_empty, ltb, if◌then◌else◌, mul64, length,
  drop,
}
use shadowyapparatus.Token.{TokenMetadata, TradeOfferData, LiquidityPoolData, TokenOperation}
use shadowyapparatus.TokenState.{
  TokenState, Outcome, ok, err, panicked, no_such_token, create_token,
}
use shadowyapparatus.TokenState.Queries.{get_token_balance, get_token_info}
use shadowyapparatus.TokenState.Operations.{transfer_token, melt_token}
use shadowyapparatus.Validation.Swaps.{shadow}
use shadowyapparatus.Executor.Monad.{
  Exec, Failure, Result, done, crashed, pure, fail, crash, ◌>>=◌, ◌>>◌, fail_if, read, call,
  no_metadata, state_error, not_an_offer, seller_short, buyer_short,
}
use shadowyapparatus.Executor.Pools.{move_token}
use shadowyapparatus.Executor.Results.{TokenOpResult, op_result}

unfoldable pub execute_token_create : TokenOperation → ℕ → Exec TokenOpResult
execute_token_create op index = elim op.metadata [
  | none ↦ fail no_metadata
  | some m ↦ do
    call (create_token op.token_id (some m))
    pure (op_result index op (bytes "") op.to (mul64 m.total_supply m.lock_amount) 0)
]

-- A payment or an escrow: SHADOW is left to the blockchain, and a token's balance is checked first.
unfoldable pub checked_transfer : Bytes → Bytes → Bytes → ℕ → Failure → Exec (Unit {0})
unfolding get_token_balance
checked_transfer id from to n short = do
  have ← call (λ s. (get_token_balance id from s, s))
  fail_if (ltb have n) short
  call (transfer_token id from to n)

unfoldable pub offer_with : TokenOperation → TokenMetadata → TradeOfferData → ℕ → Exec TokenOpResult
unfolding checked_transfer
offer_with op m offer index = do
  (if str_eq offer.locked_token_id shadow
      then pure tt
      else checked_transfer offer.locked_token_id offer.seller op.token_id offer.locked_amount
          seller_short)
  call (create_token op.token_id (some m))
  pure (op_result index op op.from op.to m.lock_amount 0)

unfoldable pub execute_trade_offer : TokenOperation → ℕ → Exec TokenOpResult
unfolding offer_with
execute_trade_offer op index = elim op.metadata [
  | none ↦ fail no_metadata
  | some m ↦ elim m.trade_offer [
    | none ↦ fail no_metadata
    | some offer ↦ offer_with op m offer index
  ]
]

abbrev pub melted : Outcome ℕ × TokenState → Result (Unit {0}) × TokenState
melted (panicked, s) = (crashed, s)
melted (ok _, s) = (done tt, s)
melted (err _, s) = (done tt, s)

abbrev pub burned_or :
    Outcome (Unit {0}) × TokenState
    → (TokenState → Outcome ℕ × TokenState)
    → Result (Unit {0}) × TokenState
burned_or (ok _, s) melt = (done tt, s)
burned_or (panicked, s) melt = (crashed, s)
burned_or (err _, s) melt = melted (melt s)

-- The offer's token goes to a null address, or is melted if that fails; if this fails too, the
-- failure is logged only.
unfoldable pub destroy_offer : Bytes → Bytes → Exec (Unit {0})
destroy_offer id seller s =
    burned_or (transfer_token id seller (bytes "BURNED") 1 s) (melt_token id seller 1)

unfoldable pub pay_offer : TokenOperation → TradeOfferData → Exec (Unit {0})
unfolding checked_transfer
pay_offer op offer =
    if is_empty offer.asking_token_id || str_eq offer.asking_token_id shadow
    then pure tt
    else checked_transfer offer.asking_token_id op.from offer.seller offer.asking_price buyer_short

unfoldable pub trade_with : TokenOperation → TradeOfferData → ℕ → Exec TokenOpResult
unfolding pay_offer destroy_offer move_token
trade_with op offer index = do
  pay_offer op offer
  move_token offer.locked_token_id op.token_id op.from offer.locked_amount
  destroy_offer op.token_id offer.seller
  pure (op_result index op op.from offer.seller 0 0)

unfoldable pub execute_trade_execute : TokenOperation → ℕ → Exec TokenOpResult
unfolding trade_with get_token_info
execute_trade_execute op index = do
  found ← read (get_token_info op.token_id)
  elim found [
    | none ↦ fail (state_error no_such_token)
    | some nft ↦ elim nft.trade_offer [
      | none ↦ fail not_an_offer
      | some offer ↦ trade_with op offer index
    ]
  ]

abbrev pub share_supply : ℕ
share_supply = 1000000000000

unfoldable pub share_metadata : TokenMetadata → LiquidityPoolData → TokenMetadata
share_metadata m pool =
    let suffix = drop (length pool.l_address - 8) pool.l_address in
    record {
      name = m.name ++ bytes " LP-" ++ suffix;
      ticker = m.ticker ++ bytes "_LP_" ++ suffix;
      total_supply = share_supply;
      decimals = 8;
      lock_amount = 1000000000;
      creator = pool.l_address;
      creation_time = m.creation_time;
      uri = bytes "";
      trade_offer = none;
      syndicate = none;
      liquidity_pool = none;
      pool_swap = none;
    }

-- The shares of a new pool. A slice that starts below 0 panics.
unfoldable pub create_shares : TokenOperation → TokenMetadata → LiquidityPoolData → Exec (Unit {0})
unfolding share_metadata
create_shares op m pool = if ltb (length pool.l_address) 8 then crash else (do
  call (create_token pool.share_token_id (some (share_metadata m pool)))
  call (transfer_token pool.share_token_id pool.l_address op.to share_supply))

unfoldable pub pool_with :
    TokenOperation → TokenMetadata → LiquidityPoolData → ℕ → Exec TokenOpResult
unfolding create_shares
pool_with op m pool index = do
  call (create_token op.token_id (some m))
  if is_empty pool.share_token_id then pure tt else create_shares op m pool
  pure (op_result index op op.from op.to m.lock_amount 0)

unfoldable pub execute_pool_create : TokenOperation → ℕ → Exec TokenOpResult
unfolding pool_with
execute_pool_create op index = elim op.metadata [
  | none ↦ fail no_metadata
  | some m ↦ elim m.liquidity_pool [
    | none ↦ fail no_metadata
    | some pool ↦ pool_with op m pool index
  ]
]
