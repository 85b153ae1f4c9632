-- ===== src/Executor/Pools.antt =====
-- The liquidity pools of cmd/token_executor.go: their lookup, their reserves, the price of a swap and
-- its execution. `now` is the clock, in nanoseconds since Go's zero time.
use shadowyapparatus.Prelude.{
  ℕ, ◌/◌, Bool, true, false, not, ◌&&◌, ◌||◌, Option, none, some, [], ◌∷◌, Bytes, str_eq, ltb, ◌==◌,
  if◌then◌else◌, add64, sub64, mul64,
}
use shadowyapparatus.Dict.{Dict, bytes_key}
use shadowyapparatus.Token.{TokenMetadata, LiquidityPoolData, PoolSwapData, TokenOperation}
use shadowyapparatus.TokenState.{TokenState, Outcome, ok, err, panicked}
use shadowyapparatus.TokenState.Queries.{get_token_balance, get_all_tokens}
use shadowyapparatus.TokenState.Operations.{transfer_token}
use shadowyapparatus.Validation.Swaps.{shadow}
use shadowyapparatus.Executor.Monad.{
  Exec, pure, fail, crash, ◌>>=◌, ◌>>◌, fail_if, read, call, no_metadata, swap_expired,
  pool_not_found, wrong_pair, insufficient_liquidity, no_output_liquidity, zero_output,
  slippage_exceeded, below_minimum, partial_not_implemented,
}
use shadowyapparatus.Executor.Results.{TokenOpResult, op_result}

abbrev pool_of : Option TokenMetadata → Option LiquidityPoolData
pool_of none = none
pool_of (some m) = m.liquidity_pool

-- The loop of `findPoolByLAddress`.
unfoldable pub pool_at : Bytes → Dict Bytes TokenMetadata → Option (Bytes × LiquidityPoolData)
pool_at l [] = none
pool_at l ((id, m) ∷ rest) = elim m.liquidity_pool [
  | none ↦ pool_at l rest
  | some pool ↦ elim (str_eq pool.l_address l) [ true ↦ some (id, pool) | false ↦ pool_at l rest ]
]

unfoldable pub find_pool_by_l_address : Bytes → TokenState → Option (Bytes × LiquidityPoolData)
unfolding pool_at get_all_tokens
find_pool_by_l_address l s = pool_at l (get_all_tokens s)

abbrev or_nothing : Outcome ℕ → ℕ
or_nothing (ok n) = n
or_nothing (err _) = 0
or_nothing panicked = 0

-- One reserve of a pool; that of SHADOW is taken to be the initial one.
unfoldable pub reserve : Bytes → ℕ → Bytes → TokenState → ℕ
unfolding get_token_balance
reserve id initial l s = if str_eq id shadow then initial else or_nothing (get_token_balance id l s)

unfoldable pub get_pool_reserves : LiquidityPoolData → Bytes → TokenState → ℕ × ℕ
unfolding reserve
get_pool_reserves pool l s =
    (reserve pool.token_a pool.initial_ratio_a l s, reserve pool.token_b pool.initial_ratio_b l s)

-- The input and the output reserve.
unfoldable pub swap_reserves : PoolSwapData → LiquidityPoolData → TokenState → ℕ × ℕ
unfolding get_pool_reserves
swap_reserves swap pool s =
    let (a, b) = get_pool_reserves pool swap.pool_l_address s in
    if str_eq swap.input_token_id pool.token_a then (a, b) else (b, a)

unfoldable pub output_of : ℕ → ℕ → ℕ → ℕ → ℕ
output_of input_reserve output_reserve input fee =
    mul64 (mul64 output_reserve input) (sub64 10000 fee) / mul64 (add64 input_reserve input) 10000

-- The output of a swap, or why there is none.
unfoldable pub swap_output : ℕ → ℕ → ℕ → ℕ → Exec ℕ
unfolding output_of
swap_output input_reserve output_reserve input fee = do
  fail_if (mul64 (add64 input_reserve input) 10000 == 0) insufficient_liquidity
  let output = output_of input_reserve output_reserve input fee
  fail_if (output == 0 && output_reserve == 0) no_output_liquidity
  fail_if (output == 0) zero_output
  pure output

abbrev pub expected_output : ℕ → ℕ → ℕ → ℕ
expected_output input_reserve output_reserve input =
    mul64 output_reserve input / add64 input_reserve input

-- Go panics where it divides by an expected output of 0.
unfoldable pub check_slippage : ℕ → ℕ → ℕ → ℕ → ℕ → Exec (Unit {0})
check_slippage max input_reserve output_reserve input output =
    if max == 0
    then pure tt
    else (let expected = expected_output input_reserve output_reserve input in
        if expected == 0
        then crash
        else fail_if (ltb max (mul64 (sub64 expected output) 10000 / expected)) slippage_exceeded)

unfoldable pub check_minimum : PoolSwapData → ℕ → Exec (Unit {0})
check_minimum swap output = do
  let short = ltb 0 swap.min_received && ltb output swap.min_received
  fail_if (short && swap.all_or_nothing) below_minimum
  fail_if short partial_not_implemented

-- A transfer, unless the token is SHADOW, which the blockchain moves.
unfoldable pub move_token : Bytes → Bytes → Bytes → ℕ → Exec (Unit {0})
move_token id from to n = if str_eq id shadow then pure tt else call (transfer_token id from to n)

unfoldable pub can_swap : PoolSwapData → LiquidityPoolData → Bool
can_swap swap pool =
    (str_eq swap.input_token_id pool.token_a && str_eq swap.output_token_id pool.token_b)
    || (str_eq swap.input_token_id pool.token_b && str_eq swap.output_token_id pool.token_a)

-- The output amount that `executePoolSwap` arrives at, after its checks against the pool.
unfoldable pub quote : PoolSwapData → LiquidityPoolData → ℕ → Exec ℕ
unfolding swap_reserves swap_output check_slippage check_minimum can_swap
quote swap pool input = do
  fail_if (not (can_swap swap pool)) wrong_pair
  reserves ← read (swap_reserves swap pool)
  output ← swap_output reserves.0 reserves.1 input pool.fee_rate
  check_slippage swap.max_slippage reserves.0 reserves.1 input output
  check_minimum swap output
  pure output

-- The two transfers.
unfoldable pub settle : PoolSwapData → ℕ → ℕ → Exec (Unit {0})
unfolding move_token
settle swap input output = do
  move_token swap.input_token_id swap.swapper_address swap.pool_l_address input
  move_token swap.output_token_id swap.pool_l_address swap.swapper_address output

unfoldable pub swap_in_pool : PoolSwapData → LiquidityPoolData → ℕ → Exec ℕ
unfolding quote settle
swap_in_pool swap pool input = do
  output ← quote swap pool input
  settle swap input output
  pure output

abbrev pub with_swap :
    {A : Type 0} → TokenOperation → (TokenMetadata → PoolSwapData → Exec A) → Exec A
with_swap op k = elim op.metadata [
  | none ↦ fail no_metadata
  | some m ↦ elim m.pool_swap [ none ↦ fail no_metadata | some swap ↦ k m swap ]
]

unfoldable pub execute_pool_swap : ℕ → TokenOperation → ℕ → Exec TokenOpResult
unfolding find_pool_by_l_address swap_in_pool
execute_pool_swap now op index = with_swap op λ _ swap. do
  fail_if (not (swap.not_after == 0) && ltb swap.not_after now) swap_expired
  found ← read (find_pool_by_l_address swap.pool_l_address)
  elim found [
    | none ↦ fail pool_not_found
    | some (_, pool) ↦ do
      _ ← swap_in_pool swap pool op.op_amount
      pure (op_result index op op.from op.to 0 0)
  ]
