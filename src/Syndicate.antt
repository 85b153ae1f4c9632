-- ===== src/Syndicate.antt =====
-- cmd/syndicate_manager.go: the four mining syndicates, their members, and who won the last 2016
-- blocks. Every method holds the mutex throughout, so a call is one step.
-- A `time.Time` made by `time.Unix(t, 0)` is kept as t. A win percentage is kept as the pair of the
-- wins and the blocks that it is the quotient of.
pub mod Capacity
pub mod Window
pub mod Members
pub mod Leaving
pub mod Assignment
use shadowyapparatus.Prelude.{
  ℕ, suc, ◌+◌, ◌*◌, Bool, true, false, Option, none, some, List, [], ◌∷◌, ◌++◌, Bytes, str_eq, ltb,
  leb, ◌==◌, if◌then◌else◌, add64, sub64, length, ◌||◌,
}
use shadowyapparatus.Token.{
  SyndicateType, seiryu, byakko, suzaku, genbu, auto, other, SyndicateData,
}

pub record SyndicateMember : Type 0 where
  pub address : Bytes
  pub nft_token_id : Bytes
  pub reported_capacity : ℕ
  pub adjusted_capacity : ℕ
  pub join_time : ℕ
  pub expiration_time : ℕ
  pub renewal_count : ℕ
  pub unique_proofs : ℕ
  pub last_proof_reset : ℕ

pub record SyndicateStats : Type 0 where
  pub syndicate : SyndicateType
  pub members : List SyndicateMember
  pub total_capacity : ℕ
  pub blocks_won : ℕ
  pub last_block_win : ℕ
  pub win_percentage : ℕ × ℕ
  pub fortnight_start : ℕ

-- A winner that is no syndicate is a solo miner.
pub record BlockWinner : Type 0 where
  pub block_height : ℕ
  pub winner : SyndicateType
  pub miner_addr : Bytes
  pub timestamp : ℕ

-- The map of syndicates has an entry for each of the four, which is never removed.
pub record SyndicateManager : Type 0 where
  pub seiryu_stats : SyndicateStats
  pub byakko_stats : SyndicateStats
  pub suzaku_stats : SyndicateStats
  pub genbu_stats : SyndicateStats
  pub block_history : List BlockWinner
  pub current_block : ℕ

pub data SyndicateError : Type 0 where
  no_such_syndicate already_member member_not_found : SyndicateError

abbrev pub fortnight : ℕ
fortnight = 2016

abbrev pub four : List SyndicateType
four = seiryu ∷ byakko ∷ suzaku ∷ genbu ∷ []

-- `sm.syndicates[syndicate]`
unfoldable pub stats_of : SyndicateType → SyndicateManager → Option SyndicateStats
stats_of seiryu sm = some sm.seiryu_stats
stats_of byakko sm = some sm.byakko_stats
stats_of suzaku sm = some sm.suzaku_stats
stats_of genbu sm = some sm.genbu_stats
stats_of auto sm = none
stats_of other sm = none

-- The stats of one syndicate replaced.
unfoldable pub with_stats : SyndicateType → SyndicateStats → SyndicateManager → SyndicateManager
with_stats seiryu x sm = record sm { seiryu_stats = x }
with_stats byakko x sm = record sm { byakko_stats = x }
with_stats suzaku x sm = record sm { suzaku_stats = x }
with_stats genbu x sm = record sm { genbu_stats = x }
with_stats auto x sm = sm
with_stats other x sm = sm

abbrev pub no_stats : SyndicateType → SyndicateStats
no_stats syndicate = record {
  syndicate = syndicate;
  members = [];
  total_capacity = 0;
  blocks_won = 0;
  last_block_win = 0;
  win_percentage = (0, 0);
  fortnight_start = 0;
}

unfoldable pub new_syndicate_manager : SyndicateManager
new_syndicate_manager = record {
  seiryu_stats = no_stats seiryu;
  byakko_stats = no_stats byakko;
  suzaku_stats = no_stats suzaku;
  genbu_stats = no_stats genbu;
  block_history = [];
  current_block = 0;
}

unfoldable pub has_address : Bytes → List SyndicateMember → Bool
has_address a [] = false
has_address a (m ∷ ms) = str_eq m.address a || has_address a ms

abbrev pub new_member : Bytes → SyndicateData → ℕ → SyndicateMember
new_member id d block = record {
  address = d.miner_address;
  nft_token_id = id;
  reported_capacity = d.reported_capacity;
  adjusted_capacity = d.reported_capacity;
  join_time = d.join_time;
  expiration_time = d.expiration_time;
  renewal_count = d.renewal_count;
  unique_proofs = 0;
  last_proof_reset = block;
}

unfoldable pub joined : SyndicateMember → SyndicateStats → SyndicateStats
unfolding add64
joined m stats = record stats {
  members = stats.members ++ m ∷ [];
  total_capacity = add64 stats.total_capacity m.adjusted_capacity;
}

unfoldable pub add_member :
    Bytes → SyndicateData → SyndicateManager → Option SyndicateError × SyndicateManager
unfolding has_address joined
add_member id d sm = elim (stats_of d.syndicate sm) [
  | none ↦ (some no_such_syndicate, sm)
  | some stats ↦
      if has_address d.miner_address stats.members
      then (some already_member, sm)
      else (none, with_stats d.syndicate (joined (new_member id d sm.current_block) stats) sm)
]

-- The first member with an NFT, and the members without it.
unfoldable pub take_out :
    Bytes → List SyndicateMember → Option (SyndicateMember × List SyndicateMember)
take_out id [] = none
take_out id (m ∷ ms) = elim (str_eq m.nft_token_id id) [
  | true ↦ some (m, ms)
  | false ↦ elim (take_out id ms) [ none ↦ none | some (x, rest) ↦ some (x, m ∷ rest) ]
]

unfoldable pub left : SyndicateMember → List SyndicateMember → SyndicateStats → SyndicateStats
unfolding sub64
left m rest stats = record stats {
  members = rest;
  total_capacity = sub64 stats.total_capacity m.adjusted_capacity;
}

abbrev pub found_in :
    Option SyndicateStats → Bytes → Option (SyndicateStats × SyndicateMember × List SyndicateMember)
found_in none id = none
found_in (some stats) id = elim (take_out id stats.members) [
  | none ↦ none
  | some (m, rest) ↦ some (stats, m, rest)
]

-- `order` is the order in which the `range` loop happens to visit the map.
unfoldable pub remove_member :
    List SyndicateType → Bytes → SyndicateManager → Option SyndicateError × SyndicateManager
unfolding take_out left
remove_member [] id sm = (some member_not_found, sm)
remove_member (syndicate ∷ order) id sm = elim (found_in (stats_of syndicate sm) id) [
  | some (stats, m, rest) ↦ (none, with_stats syndicate (left m rest stats) sm)
  | none ↦ remove_member order id sm
]

-- `sm.syndicates[syndicate].TotalCapacity`, for one of the four.
abbrev pub capacity_of : SyndicateType → SyndicateManager → ℕ
capacity_of syndicate sm = elim (stats_of syndicate sm) [ none ↦ 0 | some x ↦ x.total_capacity ]

unfoldable pub lowest_of : SyndicateType → List SyndicateType → SyndicateManager → SyndicateType
lowest_of best [] sm = best
lowest_of best (s ∷ rest) sm =
    lowest_of (if ltb (capacity_of s sm) (capacity_of best sm) then s else best) rest sm

unfoldable pub get_lowest_capacity_syndicate : SyndicateManager → SyndicateType
unfolding lowest_of
get_lowest_capacity_syndicate sm = lowest_of seiryu (byakko ∷ suzaku ∷ genbu ∷ []) sm

abbrev pub same_syndicate : SyndicateType → SyndicateType → Bool
same_syndicate seiryu seiryu = true
same_syndicate byakko byakko = true
same_syndicate suzaku suzaku = true
same_syndicate genbu genbu = true
same_syndicate auto auto = true
same_syndicate other other = true
same_syndicate _ _ = false

-- Whether a loop over the map comes by a syndicate.
unfoldable pub visits : SyndicateType → List SyndicateType → Bool
visits s [] = false
visits s (t ∷ order) = same_syndicate s t || visits s order

-- How many blocks of the window a syndicate has won.
unfoldable pub wins_in : SyndicateType → List BlockWinner → ℕ
wins_in s [] = 0
wins_in s (b ∷ bs) = if same_syndicate b.winner s then suc (wins_in s bs) else wins_in s bs

abbrev recounted : List BlockWinner → SyndicateType → SyndicateStats → SyndicateStats
recounted history s stats = record stats {
  blocks_won = wins_in s history;
  win_percentage = (wins_in s history, length history);
}

unfoldable pub recalculate_win_percentages : SyndicateManager → SyndicateManager
unfolding wins_in
recalculate_win_percentages sm = if length sm.block_history == 0 then sm else record sm {
  seiryu_stats = recounted sm.block_history seiryu sm.seiryu_stats;
  byakko_stats = recounted sm.block_history byakko sm.byakko_stats;
  suzaku_stats = recounted sm.block_history suzaku sm.suzaku_stats;
  genbu_stats = recounted sm.block_history genbu sm.genbu_stats;
}

abbrev pub without_oldest : List BlockWinner → List BlockWinner
without_oldest [] = []
without_oldest (b ∷ bs) = bs

unfoldable pub window : BlockWinner → List BlockWinner → List BlockWinner
window b history =
    (if leb fortnight (length history) then without_oldest history else history) ++ b ∷ []

abbrev pub won : ℕ → SyndicateStats → SyndicateStats
won height stats = record stats { blocks_won = add64 stats.blocks_won 1; last_block_win = height }

unfoldable pub update_block_win :
    ℕ → SyndicateType → Bytes → ℕ → SyndicateManager → SyndicateManager
unfolding window recalculate_win_percentages add64
update_block_win height winner miner now sm =
    let b : BlockWinner = record {
      block_height = height;
      winner = winner;
      miner_addr = miner;
      timestamp = now;
    } in
    let sm' = record sm { current_block = height; block_history = window b sm.block_history } in
    elim (stats_of winner sm') [
      | none ↦ sm'
      | some stats ↦ recalculate_win_percentages (with_stats winner (won height stats) sm')
    ]

-- `WinPercentage > 35.0`: more than seven blocks in twenty. In float64 the quotient times 100 is on
-- the same side of 35.0 for windows of up to 2016 blocks.
unfoldable pub check_dominance_threshold : SyndicateType → SyndicateManager → Bool
check_dominance_threshold s sm = elim (stats_of s sm) [
  | none ↦ false
  | some stats ↦ ltb (7 * stats.win_percentage.1) (20 * stats.win_percentage.0)
]

unfoldable pub get_members_by_syndicate :
    SyndicateType → SyndicateManager → Option (List SyndicateMember)
get_members_by_syndicate s sm = elim (stats_of s sm) [
  | none ↦ none
  | some stats ↦ some stats.members
]
