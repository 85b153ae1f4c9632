-- ===== src/Tests/Rewards.antt =====
-- The rewards at a few heights.
use shadowyapparatus.Prelude.{◌+◌, ◌≡◌, refl, arith, some, add64, sub64, mul64, ◌>>64◌}
use shadowyapparatus.Rewards.{
  calculate_block_reward, calculate_transaction_fee, get_total_supply_at_height, supply_loop,
  blocks_in_era, satoshis_per_shadow,
}
use shadowyapparatus.Rewards.Eras.{paid}
use shadowyapparatus.Rewards.Supply.{total_supply_paid}

first_halving : calculate_block_reward 210000 ≡ 2500000000
unfolding calculate_block_reward ◌>>64◌
first_halving = refl

small_fee : calculate_transaction_fee 1025 7 ≡ 1207
unfolding calculate_transaction_fee add64 mul64
small_fee = refl

supply_of_three : get_total_supply_at_height 3 ≡ some 15100000000
unfolding get_total_supply_at_height supply_loop blocks_in_era add64 sub64 mul64
    calculate_block_reward ◌>>64◌
supply_of_three = refl

total_supply_paid_example :
    get_total_supply_at_height 210005 ≡ some (satoshis_per_shadow + paid 210005)
total_supply_paid_example = total_supply_paid 210005 (omega arith) (omega arith)
