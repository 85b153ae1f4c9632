-- ===== src/Tests/Pools.antt =====
-- A swap of 100 coins for gold, and a provision of liquidity.
use shadowyapparatus.Prelude.{
  ◌+◌, ◌*◌, ◌≤◌, ◌<◌, ◌≡◌, ◌≢◌, refl, arith, bytes_discrete, ℕ_discrete, u64_mod, add64, sub64,
  mul64,
}
use shadowyapparatus.Dict.{lookup, insert, erase}
use shadowyapparatus.TokenState.{ok, balance, save, create_snapshot, save_state_with_snapshot}
use shadowyapparatus.TokenState.Queries.{get_token_balance}
use shadowyapparatus.TokenState.Operations.{transfer_token, transfer_at, moved}
use shadowyapparatus.Executor.Monad.{done}
use shadowyapparatus.Executor.Pools.{
  swap_in_pool, quote, settle, move_token, swap_output, check_slippage, check_minimum, can_swap,
  swap_reserves, get_pool_reserves, reserve, output_of,
}
use shadowyapparatus.Executor.Product.{swap_product}
use shadowyapparatus.Tests.Data.{
  apart, bob, coin, gold, pool_address, pool, swap, with_pool, with_pool-IsValid,
}

swap_pays : (swap_in_pool swap pool 100 with_pool).0 ≡ done 90
unfolding swap_in_pool quote settle move_token swap_output check_slippage check_minimum can_swap
    swap_reserves get_pool_reserves reserve output_of get_token_balance balance lookup insert erase
    transfer_token transfer_at moved save create_snapshot save_state_with_snapshot add64 sub64 mul64
    bytes_discrete ℕ_discrete
swap_pays = refl

swapped : swap_in_pool swap pool 100 with_pool ≡ (done 90, (swap_in_pool swap pool 100 with_pool).1)
swapped = λ i. (swap_pays i, (swap_in_pool swap pool 100 with_pool).1)

gold_fits : balance gold pool_address with_pool * 100 * 10000 < u64_mod
unfolding balance lookup bytes_discrete ℕ_discrete
gold_fits = omega arith

coins_fit : (balance coin pool_address with_pool + 100) * 10000 < u64_mod
unfolding balance lookup bytes_discrete ℕ_discrete
coins_fit = omega arith

coin-ne-gold : coin ≢ gold
unfolding bytes_discrete ℕ_discrete
coin-ne-gold = apart coin gold refl

swap_product_example :
    let t = (swap_in_pool swap pool 100 with_pool).1 in
    let x = balance coin pool_address with_pool in
    let y = balance gold pool_address with_pool in
    let x' = balance coin pool_address t in
    let y' = balance gold pool_address t in
    (x' ≡ x + 100)
    × (y' + 90 ≡ y)
    × (balance coin bob t + 100 ≡ balance coin bob with_pool)
    × (balance gold bob t ≡ balance gold bob with_pool + 90)
    × (x * y ≤ x' * y')
swap_product_example =
    swap_product swap pool 100 90 with_pool (swap_in_pool swap pool 100 with_pool).1
      with_pool-IsValid (λ e. cc) (λ e. cc) (λ e. cc) coin-ne-gold swapped (omega arith)
      (omega arith) gold_fits coins_fit

provided : (transfer_token coin bob pool_address 50 with_pool).0 ≡ ok tt
unfolding transfer_token transfer_at moved balance save lookup insert erase bytes_discrete
    ℕ_discrete create_snapshot save_state_with_snapshot add64 sub64
provided = refl
