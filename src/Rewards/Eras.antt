-- ===== src/Rewards/Eras.antt =====
-- Block rewards era by era: within an era all blocks pay the same, and each era pays half of the
-- one before it. `paid n` is what the blocks 0 to n - 1 pay together.
use shadowyapparatus.Prelude.{
  ℕ, zero, suc, ◌+◌, ◌-◌, ◌*◌, ◌/◌, ◌^◌, ◌≤◌, ◌<◌, ◌≡◌, refl, ap, ◌∙◌, arith, leb, if◌then◌else◌,
}
use native.Mathlib.Nat.{
  add-zero, add-suc, add_comm, le_trans, pow-le-pow_right, one-le-pow, div-eq_of_lt, div-le_self,
  div-mul-le_self, le-div_iff_mul-le, mul-le-mul_left,
}
use shadowyapparatus.Rewards.{
  calculate_block_reward, halving_interval, initial_block_reward, max_halvings,
}

pub era_reward : ℕ → ℕ
era_reward k = if leb max_halvings k then 0 else initial_block_reward / 2 ^ k

pub reward_by_era : (h : ℕ) → calculate_block_reward h ≡ era_reward (h / halving_interval)
unfolding calculate_block_reward era_reward
reward_by_era h = refl

unfoldable pub paid : ℕ → ℕ
paid zero = 0
paid (suc n) = paid n + calculate_block_reward n

-- What the first n eras pay, for one block of each.
pub eras : ℕ → ℕ
eras zero = 0
eras (suc n) = eras n + era_reward n

-- Blocks that pay the same add up to a product.
pub paid-add :
    (s n r : ℕ)
    → ((i : ℕ) → i < n → calculate_block_reward (s + i) ≡ r)
    → paid (s + n) ≡ paid s + n * r
unfolding paid
paid-add s zero r h = rw add-zero (omega arith)
paid-add s (suc n) r h =
    rw add-suc (omega (arith, paid-add s n r (λ i l. h i (omega arith)), h n (omega arith)))

pub reward_in_era :
    (k i : ℕ)
    → i < halving_interval
    → calculate_block_reward (k * halving_interval + i) ≡ era_reward k
reward_in_era k i h =
    let e : (k * halving_interval + i) / halving_interval ≡ k = omega arith in
    reward_by_era _ ∙ ap era_reward e

pub paid_eras : (k : ℕ) → paid (k * halving_interval) ≡ halving_interval * eras k
unfolding eras
paid_eras zero = zero_paid
  where
    zero_paid : paid 0 ≡ 0
    zero_paid = unfold paid in refl
paid_eras (suc k) =
    let e : suc k * halving_interval ≡ k * halving_interval + halving_interval = omega arith in
    rw e (
      omega (
        arith,
        paid-add (k * halving_interval) halving_interval (era_reward k) (reward_in_era k),
        paid_eras k,
      ))

pub paid_mono : (m n : ℕ) → paid m ≤ paid (m + n)
unfolding paid
paid_mono m zero = rw add-zero (omega arith)
paid_mono m (suc n) = rw add-suc (omega (arith, paid_mono m n))

pub eras_mono : (m n : ℕ) → eras m ≤ eras (m + n)
unfolding eras
eras_mono m zero = rw add-zero (omega arith)
eras_mono m (suc n) = rw add-suc (omega (arith, eras_mono m n))

-- 2 ^ 33 exceeds the first reward, so from era 33 on the shifted reward is 0.
pub era_reward_late : (k : ℕ) → 33 ≤ k → era_reward k ≡ 0
unfolding era_reward
era_reward_late k h =
    let p : 2 ^ 33 ≤ 2 ^ k = pow-le-pow_right (omega arith) h in
    let q : initial_block_reward / 2 ^ k ≡ 0 = div-eq_of_lt (omega arith) in ground arith

pub era_reward_early : (k : ℕ) → k < max_halvings → era_reward k ≡ initial_block_reward / 2 ^ k
unfolding era_reward
era_reward_early k h = ground arith

-- One block of each era: 11 satoshis short of twice the first reward, lost by the shifts.
abbrev pub all_eras : ℕ
all_eras = 9999999989

pub eras_late : (n : ℕ) → eras (33 + n) ≡ all_eras
unfolding eras era_reward
eras_late zero = refl
eras_late (suc n) = rw add-suc (omega (arith, eras_late n, era_reward_late (33 + n) (omega arith)))

pub eras-le : (k : ℕ) → eras k ≤ all_eras
eras-le k = omega (arith, eras_mono k 33, eras_late k, ap eras (add_comm k 33))

-- All blocks together pay less than 2.1 quadrillion satoshis.
pub paid-le : (n : ℕ) → paid n ≤ halving_interval * all_eras
paid-le n =
    omega (arith, paid_mono n (n * halving_interval - n), paid_eras n, eras-le n, ap paid (reach n))
  where
    reach : (m : ℕ) → m + (m * halving_interval - m) ≡ m * halving_interval
    reach m = omega arith

pub paid_late : (n : ℕ) → paid (33 * halving_interval + n) ≡ halving_interval * all_eras
paid_late n = omega (
  arith,
  paid_mono (33 * halving_interval) n,
  paid_eras 33,
  eras_late 0,
  paid-le (33 * halving_interval + n),
)

-- Within the reward itself: the first era pays the most.
pub era_reward-le : (k : ℕ) → era_reward k ≤ initial_block_reward
unfolding era_reward
era_reward-le k = ground (arith, div-le_self initial_block_reward (2 ^ k))

pub era_reward_antitone : (j k : ℕ) → j ≤ k → era_reward k ≤ era_reward j
unfolding era_reward
era_reward_antitone j k h =
    let p : 2 ^ j ≤ 2 ^ k = pow-le-pow_right (omega arith) h in
    let pos : 0 < 2 ^ j = one-le-pow j 2 (omega arith) in
    let q : initial_block_reward / 2 ^ k * 2 ^ k ≤ initial_block_reward = div-mul-le_self _ _ in
    let r : initial_block_reward / 2 ^ k * 2 ^ j ≤ initial_block_reward =
      le_trans (mul-le-mul_left (initial_block_reward / 2 ^ k) p) q in
    let t : initial_block_reward / 2 ^ k ≤ initial_block_reward / 2 ^ j =
      (le-div_iff_mul-le pos).1 r in
    ground arith
