-- ===== src/Syndicate/Members.antt =====
-- Joining, leaving and winning, in any order.
use shadowyapparatus.Prelude.{
  ℕ, ◌%◌, ◌<◌, ◌≡◌, refl, true, some, List, Bytes, u64_mod, inl, inr, length, ◌==◌,
}
use shadowyapparatus.Prelude.Tests.{Bool-cases, Option-cases}
use shadowyapparatus.Token.{SyndicateType, SyndicateData}
use shadowyapparatus.Syndicate.{
  SyndicateStats, BlockWinner, SyndicateManager, stats_of, with_stats, add_member, remove_member,
  update_block_win, recalculate_win_percentages, no_stats, new_syndicate_manager, won,
}
use shadowyapparatus.Syndicate.Capacity.{
  IsValid, IsCounted, adjusted, distinct, stats_of-IsCounted, with_stats-IsValid,
  add_member-IsValid, remove_member-IsValid,
}
use shadowyapparatus.Syndicate.Window.{recorded, slid, update_solo, update_won}

recalculate-IsValid :
    (sm : SyndicateManager) → IsValid sm → IsValid (recalculate_win_percentages sm)
unfolding recalculate_win_percentages
recalculate-IsValid sm v = elim (Bool-cases (length sm.block_history == 0)) [
  | inl h ↦ rw h v
  | inr h ↦ rw h record {
    at_seiryu = record {
      total = v.at_seiryu.total;
      addresses = v.at_seiryu.addresses;
      small = v.at_seiryu.small;
    };
    at_byakko = record {
      total = v.at_byakko.total;
      addresses = v.at_byakko.addresses;
      small = v.at_byakko.small;
    };
    at_suzaku = record {
      total = v.at_suzaku.total;
      addresses = v.at_suzaku.addresses;
      small = v.at_suzaku.small;
    };
    at_genbu = record {
      total = v.at_genbu.total;
      addresses = v.at_genbu.addresses;
      small = v.at_genbu.small;
    };
  }
]

moved-IsValid : (b : BlockWinner) (sm : SyndicateManager) → IsValid sm → IsValid (slid b sm)
moved-IsValid b sm v = record {
  at_seiryu = v.at_seiryu;
  at_byakko = v.at_byakko;
  at_suzaku = v.at_suzaku;
  at_genbu = v.at_genbu;
}

won-IsCounted : (height : ℕ) (x : SyndicateStats) → IsCounted x → IsCounted (won height x)
won-IsCounted height x c = record { total = c.total; addresses = c.addresses; small = c.small }

update_block_win-IsValid :
    (height : ℕ) (winner : SyndicateType) (miner : Bytes) (now : ℕ) (sm : SyndicateManager)
    → IsValid sm
    → IsValid (update_block_win height winner miner now sm)
update_block_win-IsValid height winner miner now sm v =
    let b = recorded height winner miner now in
    elim (Option-cases (stats_of winner sm)) [
      | inl q ↦ rw (update_solo height winner miner now sm q) (moved-IsValid b sm v)
      | inr (x, q) ↦ rw (update_won height winner miner now sm x q) (
          recalculate-IsValid (with_stats winner (won height x) (slid b sm)) (
            with_stats-IsValid winner (won height x) (slid b sm) (moved-IsValid b sm v)
              (won-IsCounted height x (stats_of-IsCounted winner sm x v q))))
    ]

-- A call, whatever its outcome. The capacity that a new member reports is a uint64, and `order` is
-- the order in which the removal's loop visits the map.
pub data Step : SyndicateManager → SyndicateManager → Type 0 where
  add :
      (id : Bytes) (d : SyndicateData) (sm : SyndicateManager)
      → d.reported_capacity < u64_mod
      → Step sm (add_member id d sm).1
  remove :
      (order : List SyndicateType) (id : Bytes) (sm : SyndicateManager)
      → Step sm (remove_member order id sm).1
  win :
      (height : ℕ) (winner : SyndicateType) (miner : Bytes) (now : ℕ) (sm : SyndicateManager)
      → Step sm (update_block_win height winner miner now sm)

pub data Reach (sm : SyndicateManager) : SyndicateManager → Type 0 where
  here : Reach sm sm
  next : {t u : SyndicateManager} → Reach sm t → Step t u → Reach sm u

Step-IsValid : {s t : SyndicateManager} → Step s t → IsValid s → IsValid t
Step-IsValid (add id d sm l) v = add_member-IsValid id d sm l v
Step-IsValid (remove order id sm) v = remove_member-IsValid order id sm v
Step-IsValid (win height winner miner now sm) v =
    update_block_win-IsValid height winner miner now sm v

Reach-IsValid : {s t : SyndicateManager} → Reach s t → IsValid s → IsValid t
Reach-IsValid here v = v
Reach-IsValid (next r st) v = Step-IsValid st (Reach-IsValid r v)

new_manager-IsValid : IsValid new_syndicate_manager
unfolding new_syndicate_manager adjusted distinct
new_manager-IsValid = record {
  at_seiryu = none_yet;
  at_byakko = none_yet;
  at_suzaku = none_yet;
  at_genbu = none_yet;
}
  where
    none_yet : {s : SyndicateType} → IsCounted (no_stats s)
    none_yet {s} = record { total = refl; addresses = refl; small = tt }

-- Whatever members join and leave and whoever wins blocks, from a new manager on: each syndicate's
-- total capacity is the sum of its members' adjusted capacities, as a uint64, and no address is
-- twice among its members.
pub members_counted :
    (sm : SyndicateManager) (s : SyndicateType) (x : SyndicateStats)
    → Reach new_syndicate_manager sm
    → stats_of s sm ≡ some x
    → (x.total_capacity ≡ adjusted x.members % u64_mod) × (distinct x.members ≡ true)
members_counted sm s x r q =
    let c = stats_of-IsCounted s sm x (Reach-IsValid r new_manager-IsValid) q in
    (c.total, c.addresses)
