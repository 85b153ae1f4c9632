-- ===== src/Rewards/Supply.antt =====
-- The supply that `GetTotalSupplyAtHeight` reports, against what the blocks pay.
use shadowyapparatus.Prelude.{
  dec_le, inr, inl, ◌⊎◌, ℕ, zero, suc, ◌+◌, ◌-◌, ◌*◌, ◌/◌, ◌≤◌, ◌<◌, ◌≡◌, refl, ap, ◌∙◌, arith,
  some, ltb, if◌then◌else◌, u64_mod, add64, mul64, dec_lt,
}
use shadowyapparatus.Prelude.Word.{add64-eq, mul64-eq}
use shadowyapparatus.Rewards.{
  calculate_block_reward, halving_interval, initial_block_reward, satoshis_per_shadow, max_satoshis,
  blocks_in_era, supply_loop, get_total_supply_at_height,
}
use shadowyapparatus.Rewards.Eras.{
  era_reward, reward_in_era, paid, paid-add, paid-le, paid_late, all_eras,
}

-- Heights of no interest to the program are left out: those within an era of 2 ^ 64.
abbrev pub InRange : ℕ → Type 0
InRange height = height + 2 * halving_interval < u64_mod

-- Round k counts the blocks of era k, or what is left of it.
blocks_in_era_lem :
    (k height : ℕ)
    → InRange height
    → k * halving_interval < height
    → blocks_in_era (k * halving_interval + 1) height ≡ (
        if ltb height ((k + 1) * halving_interval)
        then height - k * halving_interval
        else halving_interval)
unfolding blocks_in_era
blocks_in_era_lem k height r h = ground arith

reward_of_round : (k : ℕ) → calculate_block_reward (k * halving_interval + 1) ≡ era_reward k
reward_of_round k = reward_in_era k 1 (omega arith)

-- What one round adds, with no overflow.
round_pays :
    (k n : ℕ)
    → n ≤ halving_interval
    → paid (k * halving_interval + n) ≡ paid (k * halving_interval) + n * era_reward k
round_pays k n h =
    paid-add (k * halving_interval) n (era_reward k) (λ i l. reward_in_era k i (omega arith))

round_total :
    (k n : ℕ)
    → n ≤ halving_interval
    → add64
        (satoshis_per_shadow + paid (k * halving_interval))
        (mul64 n (calculate_block_reward (k * halving_interval + 1)))
      ≡ satoshis_per_shadow + paid (k * halving_interval + n)
round_total k n h =
    let r : n * era_reward k ≤ halving_interval * all_eras =
      omega (arith, round_pays k n h, paid-le (k * halving_interval + n)) in
    let m : mul64 n (calculate_block_reward (k * halving_interval + 1)) ≡ n * era_reward k =
      ap (mul64 n) (reward_of_round k) ∙ mul64-eq n (era_reward k) (omega arith) in
    rw m (
      omega (
        arith,
        round_pays k n h,
        paid-le (k * halving_interval + n),
        add64-eq (satoshis_per_shadow + paid (k * halving_interval)) (n * era_reward k),
      ))

-- The loop ends by its test as soon as it has passed the height.
loop_ends :
    (fuel height current total : ℕ)
    → height < current
    → supply_loop (suc fuel) height current total ≡ some total
unfolding supply_loop
loop_ends fuel height current total h = ground arith

loop_round :
    (fuel height current total : ℕ)
    → current ≤ height
    → supply_loop (suc fuel) height current total
      ≡ supply_loop fuel height
          (add64 current (blocks_in_era current height))
          (add64 total (mul64 (blocks_in_era current height) (calculate_block_reward current)))
unfolding supply_loop
loop_round fuel height current total h = ground arith

round_step :
    (fuel k n height : ℕ)
    → InRange height
    → k * halving_interval < height
    → n ≤ halving_interval
    → blocks_in_era (k * halving_interval + 1) height ≡ n
    → supply_loop
        (suc fuel)
        height
        (k * halving_interval + 1)
        (satoshis_per_shadow + paid (k * halving_interval))
      ≡ supply_loop fuel height
          (k * halving_interval + n + 1)
          (satoshis_per_shadow + paid (k * halving_interval + n))
round_step fuel k n height r low small e =
    let next : add64 (k * halving_interval + 1) n ≡ k * halving_interval + n + 1 =
      omega (arith, add64-eq (k * halving_interval + 1) n) in
    loop_round fuel height (k * halving_interval + 1) _ (omega arith)
    ∙ rw (e, next, round_total k n small)

-- From round k on, with a round of fuel for each era that is left.
loop_from :
    (fuel k height : ℕ)
    → InRange height
    → k * halving_interval ≤ height
    → height ≤ (k + fuel) * halving_interval
    → supply_loop
        (suc fuel)
        height
        (k * halving_interval + 1)
        (satoshis_per_shadow + paid (k * halving_interval))
      ≡ some (satoshis_per_shadow + paid height)
loop_from zero k height r low high =
    let e : k * halving_interval ≡ height = omega arith in
    rw e (loop_ends zero height (height + 1) _ (omega arith))
loop_from (suc fuel) k height r low high = elim (dec_lt (k * halving_interval) height) [
  | no top ↦
      let e : k * halving_interval ≡ height = omega arith in
      rw e (loop_ends (suc fuel) height (height + 1) _ (omega arith))
  | yes more ↦ elim (dec_lt height ((k + 1) * halving_interval)) [
    | yes last ↦
        let n : ℕ = height - k * halving_interval in
        let e : k * halving_interval + n ≡ height = omega arith in
        round_step (suc fuel) k n height r more (omega arith)
          (blocks_in_era_lem k height r more ∙ ground arith)
        ∙ rw e (loop_ends fuel height (height + 1) _ (omega arith))
    | no full ↦
        let e : k * halving_interval + halving_interval ≡ (k + 1) * halving_interval =
          omega arith in
        round_step (suc fuel) k halving_interval height r more (omega arith)
          (blocks_in_era_lem k height r more ∙ ground arith)
        ∙ rw e (loop_from fuel (k + 1) height r (omega arith) (omega arith))
  ]
]

-- Above height 0 the loop ends within its fuel, and reports the bootstrap and what the blocks 0 to
-- height - 1 pay.
pub total_supply_paid :
    (height : ℕ)
    → 0 < height
    → InRange height
    → get_total_supply_at_height height ≡ some (satoshis_per_shadow + paid height)
unfolding get_total_supply_at_height
total_supply_paid height pos r =
    let z : paid (0 * halving_interval) ≡ 0 = unfold paid in refl in
    ground
      (arith, z, loop_from (height / halving_interval + 1) 0 height r (omega arith) (omega arith))

-- What exists once the blocks 1 to height are mined: the bootstrap of the genesis block, and the
-- reward that each block claims at its own height.
unfoldable pub minted : ℕ → ℕ
minted zero = satoshis_per_shadow
minted (suc n) = minted n + calculate_block_reward (suc n)

minted-paid :
    (n : ℕ)
    → minted n + calculate_block_reward 0 ≡ satoshis_per_shadow + paid n + calculate_block_reward n
unfolding minted paid
minted-paid zero = omega arith
minted-paid (suc n) = omega (arith, minted-paid n)

-- The reported supply is too large: at every height from 1 on that is not within two eras of
-- 2 ^ 64 it is what has been minted, and the first reward less the reward at that height on top.
pub total_supply_overcounts :
    (height : ℕ)
    → 0 < height
    → InRange height
    → (supply : ℕ) × (get_total_supply_at_height height ≡ some supply)
      × (supply + calculate_block_reward height ≡ minted height + initial_block_reward)
total_supply_overcounts height pos r = (
  satoshis_per_shadow + paid height,
  total_supply_paid height pos r,
  omega (arith, minted-paid height, first_reward),
)
  where
    first_reward : calculate_block_reward 0 ≡ initial_block_reward
    first_reward = unfold calculate_block_reward in refl

-- From the end of era 32 on the reported supply stays at 2,100,000,097,690,000 satoshis, and before
-- it is never more; the declared maximum is 97,690,000 satoshis less.
pub total_supply_limit :
    (height : ℕ)
    → 0 < height
    → InRange height
    → (supply : ℕ) × (get_total_supply_at_height height ≡ some supply)
      × (supply ≤ max_satoshis + 97690000)
      × ((height < 33 * halving_interval) ⊎ (supply ≡ max_satoshis + 97690000))
total_supply_limit height pos r = (
  satoshis_per_shadow + paid height,
  total_supply_paid height pos r,
  omega (arith, paid-le height),
  elim (dec_le (33 * halving_interval) height) [
    | yes late ↦
        inr (omega (arith, paid_late (height - 33 * halving_interval), ap paid (reach late)))
    | no early ↦ inl (omega arith)
  ],
)
  where
    reach :
        33 * halving_interval ≤ height
        → 33 * halving_interval + (height - 33 * halving_interval) ≡ height
    reach late = omega arith
