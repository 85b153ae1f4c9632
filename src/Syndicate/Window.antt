-- ===== src/Syndicate/Window.antt =====
-- The window of the last 2016 blocks and the numbers that are counted in it.
use shadowyapparatus.Prelude.{
  ℕ, suc, zero, ◌-◌, ◌*◌, ◌<◌, ◌≤◌, ◌≡◌, refl, sym, ap, ◌∙◌, arith, true, false, none, some, List,
  [], ◌∷◌, ◌++◌, Bytes, length, drop, ltb, leb, ◌==◌, if◌then◌else◌, length-append, length-drop,
  ◌↔◌, inl, inr, subst,
}
use shadowyapparatus.Prelude.Tests.{leb→le, ltb→lt, lt→ltb, Bool-cases, Option-cases}
use shadowyapparatus.Token.{SyndicateType, seiryu, byakko, suzaku, genbu, auto, other}
use shadowyapparatus.Syndicate.{
  BlockWinner, SyndicateManager, SyndicateStats, stats_of, with_stats, window, wins_in,
  update_block_win, recalculate_win_percentages, check_dominance_threshold, fortnight, won,
  without_oldest, new_syndicate_manager, same_syndicate,
}

-- The last n of a list.
unfoldable pub last {ℓ} : {A : Type ℓ} → ℕ → List A → List A
last n xs = drop (length xs - n) xs

last_short {ℓ} : {A : Type ℓ} (n : ℕ) (xs : List A) → length xs ≤ n → last n xs ≡ xs
unfolding last
last_short n xs h = rw (minus (length xs) n h)
  where
    minus : (a b : ℕ) → a ≤ b → a - b ≡ 0
    minus a b l = omega arith

drop_snoc {ℓ} :
    {A : Type ℓ} (k : ℕ) (xs : List A) (x : A)
    → k ≤ length xs
    → drop k (xs ++ x ∷ []) ≡ drop k xs ++ x ∷ []
drop_snoc zero xs x h = refl
drop_snoc (suc k) [] x h = absurd (omega arith)
drop_snoc (suc k) (y ∷ xs) x h = drop_snoc k xs x (omega arith)

without_oldest-drop : (k : ℕ) (xs : List BlockWinner) → without_oldest (drop k xs) ≡ drop (suc k) xs
without_oldest-drop zero [] = refl
without_oldest-drop zero (x ∷ xs) = refl
without_oldest-drop (suc k) [] = refl
without_oldest-drop (suc k) (x ∷ xs) = without_oldest-drop k xs

window_full :
    (b : BlockWinner) (xs : List BlockWinner)
    → leb fortnight (length xs) ≡ true
    → window b xs ≡ without_oldest xs ++ b ∷ []
unfolding window
window_full b xs h = rw (window, h)

window_room :
    (b : BlockWinner) (xs : List BlockWinner)
    → leb fortnight (length xs) ≡ false
    → window b xs ≡ xs ++ b ∷ []
unfolding window
window_room b xs h = rw (window, h)

length-last :
    (xs : List BlockWinner) → fortnight ≤ length xs → length (last fortnight xs) ≡ fortnight
unfolding last
length-last xs h = omega (arith, length-drop (length xs - fortnight) xs)

shifted :
    (b : BlockWinner) (xs : List BlockWinner)
    → fortnight ≤ length xs
    → without_oldest (last fortnight xs) ++ b ∷ [] ≡ last fortnight (xs ++ b ∷ [])
unfolding last
shifted b xs h =
    let count : length (xs ++ b ∷ []) - fortnight ≡ suc (length xs - fortnight) =
      omega (arith, length-append xs (b ∷ [])) in
    rw (
      count,
      without_oldest-drop (length xs - fortnight) xs,
      drop_snoc (suc (length xs - fortnight)) xs b (omega arith),
    )

leb-false→lt : (a b : ℕ) → leb a b ≡ false → b < a
leb-false→lt a b h = ground arith

window-last :
    (b : BlockWinner) (xs : List BlockWinner)
    → window b (last fortnight xs) ≡ last fortnight (xs ++ b ∷ [])
window-last b xs = elim (Bool-cases (leb fortnight (length xs))) [
  | inl h ↦
      let long : fortnight ≤ length xs = leb→le fortnight (length xs) h in
      let all : length (last fortnight xs) ≡ fortnight = length-last xs long in
      window_full b (last fortnight xs) (rw all) ∙ shifted b xs long
  | inr h ↦
      let short : suc (length xs) ≤ fortnight = leb-false→lt fortnight (length xs) h in
      let appended : length (xs ++ b ∷ []) ≤ fortnight = omega (arith, length-append xs (b ∷ [])) in
      rw (last_short fortnight xs (omega arith), last_short fortnight (xs ++ b ∷ []) appended)
        (window_room b xs h)
]

with_stats-history :
    (s : SyndicateType) (x : SyndicateStats) (sm : SyndicateManager)
    → (with_stats s x sm).block_history ≡ sm.block_history
unfolding with_stats
with_stats-history seiryu x sm = refl
with_stats-history byakko x sm = refl
with_stats-history suzaku x sm = refl
with_stats-history genbu x sm = refl
with_stats-history auto x sm = refl
with_stats-history other x sm = refl

recalculate-history :
    (sm : SyndicateManager) → (recalculate_win_percentages sm).block_history ≡ sm.block_history
unfolding recalculate_win_percentages
recalculate-history sm = elim (Bool-cases (length sm.block_history == 0)) [
  | inl h ↦ rw h
  | inr h ↦ rw h
]

-- The entry that a call records, and the manager before the stats are touched.
abbrev pub recorded : ℕ → SyndicateType → Bytes → ℕ → BlockWinner
recorded height winner miner now = record {
  block_height = height;
  winner = winner;
  miner_addr = miner;
  timestamp = now;
}

abbrev pub slid : BlockWinner → SyndicateManager → SyndicateManager
slid b sm = record sm { current_block = b.block_height; block_history = window b sm.block_history }

-- A solo win moves the window alone.
pub update_solo :
    (height : ℕ) (winner : SyndicateType) (miner : Bytes) (now : ℕ) (sm : SyndicateManager)
    → stats_of winner sm ≡ none
    → update_block_win height winner miner now sm ≡ slid (recorded height winner miner now) sm
unfolding update_block_win stats_of
update_solo height auto miner now sm h = refl
update_solo height other miner now sm h = refl
update_solo height seiryu miner now sm h = ground arith
update_solo height byakko miner now sm h = ground arith
update_solo height suzaku miner now sm h = ground arith
update_solo height genbu miner now sm h = ground arith

pub update_won :
    (height : ℕ) (winner : SyndicateType) (miner : Bytes) (now : ℕ) (sm : SyndicateManager)
    (x : SyndicateStats)
    → stats_of winner sm ≡ some x
    → update_block_win height winner miner now sm
      ≡ recalculate_win_percentages
          (with_stats winner (won height x) (slid (recorded height winner miner now) sm))
unfolding update_block_win stats_of
update_won height auto miner now sm x h = ground arith
update_won height other miner now sm x h = ground arith
update_won height seiryu miner now sm x h = ground arith
update_won height byakko miner now sm x h = ground arith
update_won height suzaku miner now sm x h = ground arith
update_won height genbu miner now sm x h = ground arith

history_after :
    (height : ℕ) (winner : SyndicateType) (miner : Bytes) (now : ℕ) (sm : SyndicateManager)
    → (update_block_win height winner miner now sm).block_history
      ≡ window (recorded height winner miner now) sm.block_history
history_after height winner miner now sm = elim (Option-cases (stats_of winner sm)) [
  | inl q ↦ ap (λ s. s.block_history) (update_solo height winner miner now sm q)
  | inr (x, q) ↦
      let sm' = slid (recorded height winner miner now) sm in
      ap (λ s. s.block_history) (update_won height winner miner now sm x q)
      ∙ recalculate-history (with_stats winner (won height x) sm')
      ∙ with_stats-history winner (won height x) sm'
]

update_each :
    (s : SyndicateType) (sm : SyndicateManager) (x : SyndicateStats)
    → (length sm.block_history == 0) ≡ false
    → stats_of s (recalculate_win_percentages sm) ≡ some x
    → let sm' = recalculate_win_percentages sm in
      (x.blocks_won ≡ wins_in s sm'.block_history)
      × (x.win_percentage ≡ (wins_in s sm'.block_history, length sm'.block_history))
unfolding stats_of recalculate_win_percentages
update_each seiryu sm x h q = ground arith
update_each byakko sm x h q = ground arith
update_each suzaku sm x h q = ground arith
update_each genbu sm x h q = ground arith
update_each auto sm x h q = ground arith
update_each other sm x h q = ground arith

-- A run of wins, oldest first.
unfoldable pub update_all : List BlockWinner → SyndicateManager → SyndicateManager
update_all [] sm = sm
update_all (b ∷ bs) sm =
    update_all bs (update_block_win b.block_height b.winner b.miner_addr b.timestamp sm)

append-nil : (xs : List BlockWinner) → xs ++ [] ≡ xs
append-nil [] = refl
append-nil (x ∷ xs) = rw (append-nil xs)

append-snoc :
    (xs : List BlockWinner) (b : BlockWinner) (ys : List BlockWinner)
    → (xs ++ b ∷ []) ++ ys ≡ xs ++ b ∷ ys
append-snoc [] b ys = refl
append-snoc (x ∷ xs) b ys = rw (append-snoc xs b ys)

update_all-history :
    (bs before : List BlockWinner) (sm : SyndicateManager)
    → sm.block_history ≡ last fortnight before
    → (update_all bs sm).block_history ≡ last fortnight (before ++ bs)
unfolding update_all
update_all-history [] before sm h = rw (append-nil before) h
update_all-history (b ∷ bs) before sm h =
    let sm' = update_block_win b.block_height b.winner b.miner_addr b.timestamp sm in
    let step : sm'.block_history ≡ last fortnight (before ++ b ∷ []) =
      history_after b.block_height b.winner b.miner_addr b.timestamp sm
      ∙ ap (window b) h
      ∙ window-last b before in
    rw (← append-snoc before b bs) (update_all-history bs (before ++ b ∷ []) sm' step)

-- After any run of blocks, the history that a new manager has kept is the run's last 2016 blocks.
pub update_all_window :
    (bs : List BlockWinner)
    → (update_all bs new_syndicate_manager).block_history ≡ last fortnight bs
unfolding new_syndicate_manager last
update_all_window bs = update_all-history bs [] new_syndicate_manager refl

window_nonempty : (b : BlockWinner) (xs : List BlockWinner) → (length (window b xs) == 0) ≡ false
unfolding window
window_nonempty b xs = snoc_nonempty (if leb fortnight (length xs) then without_oldest xs else xs)
  where
    snoc_nonempty : (ys : List BlockWinner) → (length (ys ++ b ∷ []) == 0) ≡ false
    snoc_nonempty [] = refl
    snoc_nonempty (y ∷ ys) = ground arith

-- The blocks that a syndicate has won.
pub won_blocks : SyndicateType → List BlockWinner → List BlockWinner
won_blocks s [] = []
won_blocks s (b ∷ bs) = if same_syndicate b.winner s then b ∷ won_blocks s bs else won_blocks s bs

wins-length : (s : SyndicateType) (bs : List BlockWinner) → wins_in s bs ≡ length (won_blocks s bs)
unfolding wins_in won_blocks
wins-length s [] = refl
wins-length s (b ∷ bs) = ground (arith, wins-length s bs)

-- What the stats of a syndicate say of a window, and what the manager then answers.
abbrev pub Tallies : SyndicateType → SyndicateStats → List BlockWinner → SyndicateManager → Type 0
Tallies s x blocks sm =
    (x.blocks_won ≡ length (won_blocks s blocks))
    × (x.win_percentage ≡ (length (won_blocks s blocks), length blocks))
    × ((check_dominance_threshold s sm ≡ true)
        ↔ (35 * length blocks < 100 * length (won_blocks s blocks)))

threshold : (blocks wins : ℕ) → (ltb (7 * blocks) (20 * wins) ≡ true) ↔ (35 * blocks < 100 * wins)
threshold blocks wins = (λ h. omega (arith, ltb→lt _ _ h), λ h. lt→ltb _ _ (omega arith))

dominance_eq :
    (s : SyndicateType) (sm : SyndicateManager) (x : SyndicateStats)
    → stats_of s sm ≡ some x
    → check_dominance_threshold s sm ≡ ltb (7 * x.win_percentage.1) (20 * x.win_percentage.0)
unfolding check_dominance_threshold
dominance_eq s sm x h = rw (check_dominance_threshold, h)

tallied :
    (s : SyndicateType) (sm : SyndicateManager) (x : SyndicateStats)
    → stats_of s sm ≡ some x
    → x.blocks_won ≡ wins_in s sm.block_history
    → x.win_percentage ≡ (wins_in s sm.block_history, length sm.block_history)
    → Tallies s x sm.block_history sm
tallied s sm x q won percentage = rw (← wins-length s sm.block_history) (
  won,
  percentage,
  rw (dominance_eq s sm x q, percentage)
      (threshold (length sm.block_history) (wins_in s sm.block_history)),
)

update_block_win-Tallies :
    (height : ℕ) (winner s : SyndicateType) (miner : Bytes) (now : ℕ) (sm : SyndicateManager)
    (x y : SyndicateStats)
    → let sm' = update_block_win height winner miner now sm in
      stats_of winner sm ≡ some y → stats_of s sm' ≡ some x → Tallies s x sm'.block_history sm'
update_block_win-Tallies height winner s miner now sm x y q p =
    let b = recorded height winner miner now in
    let sm' = with_stats winner (won height y) (slid b sm) in
    let e = update_won height winner miner now sm y q in
    let some_block : (length sm'.block_history == 0) ≡ false =
      rw (with_stats-history winner (won height y) (slid b sm))
        (window_nonempty b sm.block_history) in
    let p' = sym (ap (stats_of s) e) ∙ p in
    let c = update_each s sm' x some_block p' in
    rw e (tallied s (recalculate_win_percentages sm') x p' c.0 c.1)

-- A run of blocks on a new manager, then a block that one of the four syndicates wins: the wins of each
-- syndicate are then its blocks among the last 2016 of them all, its percentage is that of these wins
-- among those blocks, and the dominance test holds for it if and only if that is more than 35 in 100.
pub update_block_win_counts :
    (bs : List BlockWinner) (b : BlockWinner) (s : SyndicateType) (x y : SyndicateStats)
    → let sm = update_all bs new_syndicate_manager in
      let sm' = update_block_win b.block_height b.winner b.miner_addr b.timestamp sm in
      stats_of b.winner sm ≡ some y
      → stats_of s sm' ≡ some x
      → Tallies s x (last fortnight (bs ++ b ∷ [])) sm'
update_block_win_counts bs b s x y q p =
    let sm = update_all bs new_syndicate_manager in
    let sm' = update_block_win b.block_height b.winner b.miner_addr b.timestamp sm in
    let h =
      history_after b.block_height b.winner b.miner_addr b.timestamp sm
      ∙ ap (window b) (update_all_window bs)
      ∙ window-last b bs in
    subst (λ w. Tallies s x w sm') h
      (update_block_win-Tallies b.block_height b.winner s b.miner_addr b.timestamp sm x y q p)
