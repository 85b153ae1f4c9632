-- ===== src/Rewards.antt =====
-- cmd/rewards.go: the reward of a block by its height, and the supply that the node reports.
-- Amounts are in satoshis. The functions that only format a number as a float are left out.
pub mod Eras
pub mod Supply
pub mod Halving
use shadowyapparatus.Prelude.{
  ℕ, zero, suc, ◌+◌, ◌*◌, ◌/◌, Option, none, some, List, [], ◌∷◌, ltb, leb, ◌==◌, if◌then◌else◌,
  add64, sub64, mul64, ◌>>64◌,
}

abbrev pub max_supply : ℕ
max_supply = 21000000

abbrev pub satoshis_per_shadow : ℕ
satoshis_per_shadow = 100000000

abbrev pub max_satoshis : ℕ
max_satoshis = max_supply * satoshis_per_shadow

abbrev pub initial_block_reward : ℕ
initial_block_reward = 50 * satoshis_per_shadow

abbrev pub halving_interval : ℕ
halving_interval = 210000

abbrev pub max_halvings : ℕ
max_halvings = 64

unfoldable pub calculate_block_reward : ℕ → ℕ
unfolding ◌>>64◌
calculate_block_reward height =
    if leb max_halvings (height / halving_interval)
    then 0
    else initial_block_reward >>64 (height / halving_interval)

-- `tx_size` is a length, so it is not negative; it is far from the range of an int.
unfoldable pub calculate_transaction_fee : ℕ → ℕ → ℕ
unfolding add64 mul64
calculate_transaction_fee tx_size priority_fee =
    add64 (add64 1000 (mul64 ((tx_size + 1023) / 1024) 100)) priority_fee

-- The number of blocks that one round of the loop counts.
unfoldable pub blocks_in_era : ℕ → ℕ → ℕ
unfolding add64 sub64
blocks_in_era current height =
    if ltb height (sub64 (add64 current halving_interval) 1)
    then add64 (sub64 height current) 1
    else halving_interval

-- `for currentHeight <= height`, on fuel: `none` when the fuel runs out.
unfoldable pub supply_loop : ℕ → ℕ → ℕ → ℕ → Option ℕ
supply_loop zero height current total = none
supply_loop (suc fuel) height current total =
    let blocks = blocks_in_era current height in
    let rest =
      supply_loop fuel height (add64 current blocks)
        (add64 total (mul64 blocks (calculate_block_reward current))) in
    if leb current height then rest else some total

-- `fuel` bounds the rounds; `height / 210000 + 2` of them are enough.
unfoldable pub get_total_supply_at_height : ℕ → Option ℕ
unfolding supply_loop
get_total_supply_at_height height =
    if height == 0
    then some satoshis_per_shadow
    else supply_loop (height / halving_interval + 2) height 1 satoshis_per_shadow

-- `none` when the claim is accepted, or what was expected and what was claimed.
unfoldable pub validate_reward : ℕ → ℕ → Option (ℕ × ℕ)
unfolding calculate_block_reward
validate_reward height claimed =
    if claimed == calculate_block_reward height
    then none
    else some (calculate_block_reward height, claimed)

unfoldable pub next_halving_height : ℕ → ℕ
unfolding add64 mul64
next_halving_height height = mul64 (add64 (height / halving_interval) 1) halving_interval

unfoldable pub blocks_until_halving : ℕ → ℕ
unfolding next_halving_height sub64
blocks_until_halving height = sub64 (next_halving_height height) height

-- The integer fields of a row of the schedule.
pub record RewardSchedule : Type 0 where
  pub era : ℕ
  pub start_block : ℕ
  pub end_block : ℕ
  pub reward_satoshi : ℕ
  pub blocks_in_era : ℕ
  pub total_reward : ℕ

unfoldable pub schedule_row : ℕ → RewardSchedule
unfolding calculate_block_reward add64 mul64 sub64
schedule_row era = record {
  era = era + 1;
  start_block = mul64 era halving_interval;
  end_block = sub64 (add64 (mul64 era halving_interval) halving_interval) 1;
  reward_satoshi = calculate_block_reward (mul64 era halving_interval);
  blocks_in_era = halving_interval;
  total_reward = mul64 halving_interval (calculate_block_reward (mul64 era halving_interval));
}

-- `for era := ...; era < 10; era++`, with its `break` at the first era that pays nothing.
unfoldable pub schedule_from : ℕ → ℕ → List RewardSchedule
unfolding schedule_row
schedule_from zero era = []
schedule_from (suc left) era =
    let rest = schedule_row era ∷ schedule_from left (era + 1) in
    if (schedule_row era).reward_satoshi == 0 then [] else rest

unfoldable pub get_reward_schedule : List RewardSchedule
unfolding schedule_from
get_reward_schedule = schedule_from 10 0
