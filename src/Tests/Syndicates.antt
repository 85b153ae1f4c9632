-- ===== src/Tests/Syndicates.antt =====
-- The syndicate manager.
use shadowyapparatus.Prelude.{
  ℕ, ◌≡◌, refl, arith, true, some, List, [], ◌∷◌, ◌++◌, Bytes, bytes, add64, bytes_discrete,
  ℕ_discrete, u64_mod, ◌%◌,
}
use shadowyapparatus.Token.{SyndicateType, seiryu, byakko, other, SyndicateData}
use shadowyapparatus.Syndicate.{
  SyndicateManager, SyndicateStats, BlockWinner, already_member, lowest_of, stats_of, with_stats,
  joined, has_address, add_member, update_block_win, recalculate_win_percentages, window, wins_in,
  new_syndicate_manager, get_lowest_capacity_syndicate, no_stats, fortnight, new_member,
}
use shadowyapparatus.Syndicate.Capacity.{adjusted, distinct}
use shadowyapparatus.Syndicate.Window.{
  last, update_all, Tallies, update_all_window, update_block_win_counts,
}
use shadowyapparatus.Syndicate.Members.{here, next, add, members_counted}
use shadowyapparatus.Tests.Data.{alice, coin}

abbrev membership : Bytes → ℕ → SyndicateData
membership miner capacity = record {
  syndicate = byakko;
  miner_address = miner;
  reported_capacity = capacity;
  join_time = 0;
  expiration_time = 100;
  renewal_count = 0;
}

abbrev one_member : SyndicateManager
one_member = (add_member coin (membership alice 7) new_syndicate_manager).1

abbrev byakko_stats_then : SyndicateStats
byakko_stats_then = joined (new_member coin (membership alice 7) 0) (no_stats byakko)

second_join_fails : (add_member (bytes "x") (membership alice 1) one_member).0 ≡ some already_member
unfolding add_member new_syndicate_manager stats_of with_stats joined has_address add64
    bytes_discrete ℕ_discrete
second_join_fails = refl

next_is_seiryu : get_lowest_capacity_syndicate one_member ≡ seiryu
unfolding get_lowest_capacity_syndicate lowest_of add_member new_syndicate_manager stats_of
    with_stats joined has_address add64
next_is_seiryu = refl

-- A solo win moves the window, but leaves the counts: the last win of seiryu is out of the window of
-- 2016 blocks only for the next winner's count.
solo_win_keeps_count :
    (update_block_win 2 other [] 0
      (update_block_win 1 seiryu alice 0 new_syndicate_manager)).seiryu_stats.win_percentage
    ≡ (1, 1)
unfolding update_block_win new_syndicate_manager stats_of with_stats window
    recalculate_win_percentages wins_in add64
solo_win_keeps_count = refl

members_counted_example :
    (byakko_stats_then.total_capacity ≡ adjusted byakko_stats_then.members % u64_mod)
    × (distinct byakko_stats_then.members ≡ true)
unfolding add_member new_syndicate_manager stats_of with_stats has_address
members_counted_example =
    members_counted one_member byakko byakko_stats_then
      (next here (add coin (membership alice 7) new_syndicate_manager (omega arith))) refl

abbrev win : ℕ → SyndicateType → BlockWinner
win height s = record { block_height = height; winner = s; miner_addr = alice; timestamp = 0 }

abbrev two_wins : List BlockWinner
two_wins = win 1 seiryu ∷ win 2 other ∷ []

update_all_window_example :
    (update_all two_wins new_syndicate_manager).block_history ≡ last fortnight two_wins
update_all_window_example = update_all_window two_wins

abbrev after_win : SyndicateManager
after_win = update_block_win 3 seiryu alice 0 (update_all two_wins new_syndicate_manager)

abbrev seiryu_before : SyndicateStats
seiryu_before = record (no_stats seiryu) {
  blocks_won = 1;
  last_block_win = 1;
  win_percentage = (1, 1);
}

abbrev seiryu_then : SyndicateStats
seiryu_then = record (no_stats seiryu) {
  blocks_won = 2;
  last_block_win = 3;
  win_percentage = (2, 3);
}

update_block_win_counts_example :
    Tallies seiryu seiryu_then (last fortnight (two_wins ++ win 3 seiryu ∷ [])) after_win
unfolding update_block_win update_all new_syndicate_manager stats_of with_stats window
    recalculate_win_percentages wins_in add64
update_block_win_counts_example =
    update_block_win_counts two_wins (win 3 seiryu) seiryu seiryu_then seiryu_before refl refl
