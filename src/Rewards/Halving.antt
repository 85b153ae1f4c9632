-- ===== src/Rewards/Halving.antt =====
-- Halvings, the check of a claimed reward, and the rows of the reward schedule.
use native.Mathlib.Nat.{add-zero, pow-suc, div-div-eq-div-mul}
use native.Mathlib.Numerals.{add-one}
use shadowyapparatus.Prelude.{
  ℕ, suc, ◌+◌, ◌*◌, ◌/◌, ◌^◌, ◌≤◌, ◌<◌, ◌≡◌, ◌↔◌, refl, sym, ap, ◌∙◌, arith, none, add64, sub64,
  mul64, dec_le,
}
use shadowyapparatus.Prelude.Word.{add64-eq, mul64-eq, sub64-eq}
use shadowyapparatus.Rewards.{
  calculate_block_reward, halving_interval, initial_block_reward, max_halvings, next_halving_height,
  blocks_until_halving, validate_reward, schedule_row,
}
use shadowyapparatus.Rewards.Eras.{
  era_reward, reward_by_era, reward_in_era, era_reward_late, era_reward_early, era_reward-le,
  era_reward_antitone, paid, paid-add,
}
use shadowyapparatus.Rewards.Supply.{InRange}

-- The reward never grows with the height.
pub block_reward_antitone : (g h : ℕ) → g ≤ h → calculate_block_reward h ≤ calculate_block_reward g
block_reward_antitone g h l = omega (
  arith,
  reward_by_era g,
  reward_by_era h,
  era_reward_antitone (g / halving_interval) (h / halving_interval) (omega arith),
)

halved_once : (k : ℕ) → initial_block_reward / 2 ^ suc k ≡ initial_block_reward / 2 ^ k / 2
halved_once k =
    ap (λ d. initial_block_reward / d) (pow-suc 2 k)
    ∙ sym (div-div-eq-div-mul initial_block_reward (2 ^ k) 2)

era_reward-suc : (k : ℕ) → era_reward (suc k) ≡ era_reward k / 2
era_reward-suc k = elim (dec_le 33 k) [
  | yes late ↦ omega (arith, era_reward_late k late, era_reward_late (suc k) (omega arith))
  | no early ↦
      era_reward_early (suc k) (omega arith)
      ∙ halved_once k
      ∙ ap (λ r. r / 2) (sym (era_reward_early k (omega arith)))
]

next_halving_eq :
    (height : ℕ)
    → InRange height
    → next_halving_height height ≡ (height / halving_interval + 1) * halving_interval + 0
unfolding next_halving_height
next_halving_eq height r =
    let e : add64 (height / halving_interval) 1 ≡ height / halving_interval + 1 =
      omega (arith, add64-eq (height / halving_interval) 1) in
    rw e (omega (arith, mul64-eq (height / halving_interval + 1) halving_interval))

-- The next halving lies ahead, at most an interval away, its distance is the one that is reported,
-- and there the reward is half of what it is at the height itself.
pub next_halving_lem :
    (height : ℕ)
    → InRange height
    → (height < next_halving_height height)
      × (next_halving_height height ≤ height + halving_interval)
      × (height + blocks_until_halving height ≡ next_halving_height height)
      × (calculate_block_reward (next_halving_height height) ≡ calculate_block_reward height / 2)
unfolding blocks_until_halving
next_halving_lem height r =
    let e = next_halving_eq height r in
    let ahead : height < next_halving_height height = omega (arith, e) in
    let near : next_halving_height height ≤ height + halving_interval = omega (arith, e) in
    (
      ahead,
      near,
      omega (arith, sub64-eq (next_halving_height height) height),
      ap calculate_block_reward e
          ∙ reward_in_era (height / halving_interval + 1) 0 (omega arith)
          ∙ rw add-one (era_reward-suc (height / halving_interval))
          ∙ ap (λ r. r / 2) (sym (reward_by_era height)),
    )

-- A claimed reward is accepted exactly when it is the reward at its height.
pub validate_reward_iff :
    (height claimed : ℕ)
    → (validate_reward height claimed ≡ none) ↔ (claimed ≡ calculate_block_reward height)
unfolding validate_reward
validate_reward_iff height claimed = ground arith

-- A row of the schedule states what the blocks of its era pay together: those from its first block
-- to its last.
pub schedule_row_total :
    (era : ℕ)
    → era < max_halvings
    → let row = schedule_row era in
      (row.start_block ≡ era * halving_interval)
      × (row.end_block + 1 ≡ row.start_block + row.blocks_in_era)
      × (paid row.start_block + row.total_reward ≡ paid (row.end_block + 1))
unfolding schedule_row
schedule_row_total era h =
    let pay = era_reward-le era in
    let at_start : calculate_block_reward (era * halving_interval) ≡ era_reward era =
      ap calculate_block_reward (sym (add-zero (era * halving_interval)))
      ∙ reward_in_era era 0 (omega arith) in
    let start : mul64 era halving_interval ≡ era * halving_interval =
      mul64-eq era halving_interval (omega arith) in
    let end : sub64 (add64 (era * halving_interval) halving_interval) 1 + 1
        ≡ era * halving_interval + halving_interval =
      omega (
        arith,
        add64-eq (era * halving_interval) halving_interval,
        sub64-eq (add64 (era * halving_interval) halving_interval) 1,
      ) in
    let total : mul64 halving_interval (era_reward era) ≡ halving_interval * era_reward era =
      mul64-eq halving_interval (era_reward era) (omega arith) in
    rw (start, end, at_start, total)
      (
        refl,
        refl,
        sym (
            paid-add (era * halving_interval) halving_interval (era_reward era)
              (reward_in_era era)),
      )
