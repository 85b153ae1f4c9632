-- ===== src/Executor/Membership.antt =====
-- The syndicate that cmd/token_executor.go gives a miner who leaves the choice open.
use shadowyapparatus.Prelude.{
  ◌≡◌, ◌⊎◌, inl, inr, refl, sym, subst, true, false, Option, none, some, List, [], ◌∷◌, Bool-cases,
}
use shadowyapparatus.Token.{SyndicateType}
use shadowyapparatus.Syndicate.{
  SyndicateManager, four, visits, check_dominance_threshold, get_lowest_capacity_syndicate,
}
use shadowyapparatus.Syndicate.Assignment.{AllVisited, lowest_capacity}
use shadowyapparatus.Executor.Operations.{assigned, first_open}

abbrev pub AllDominant : List SyndicateType → SyndicateManager → Type 0
AllDominant [] sm = Unit
AllDominant (s ∷ rest) sm = (check_dominance_threshold s sm ≡ true) × AllDominant rest sm

-- One of the four that is below the threshold, or none where all are above it.
abbrev pub Chooses : List SyndicateType → SyndicateManager → Option SyndicateType → Type 0
Chooses all sm r =
    ((s : SyndicateType) × (r ≡ some s)
      × (visits s four ≡ true)
      × (check_dominance_threshold s sm ≡ false))
    ⊎ ((r ≡ none) × AllDominant all sm)

here :
    (s : SyndicateType) (rest : List SyndicateType) (sm : SyndicateManager)
    → check_dominance_threshold s sm ≡ false
    → first_open (s ∷ rest) sm ≡ some s
unfolding first_open
here s rest sm h = rw (first_open, h)

passed :
    (s : SyndicateType) (rest : List SyndicateType) (sm : SyndicateManager)
    → check_dominance_threshold s sm ≡ true
    → first_open (s ∷ rest) sm ≡ first_open rest sm
unfolding first_open
passed s rest sm h = rw (first_open, h)

first_open-Chooses :
    (rest : List SyndicateType) (sm : SyndicateManager)
    → AllVisited rest
    → Chooses rest sm (first_open rest sm)
first_open-Chooses [] sm a = unfold first_open in inr (refl, tt)
first_open-Chooses (s ∷ rest) sm a = elim (Bool-cases (check_dominance_threshold s sm)) [
  | inr open' ↦
      subst (Chooses (s ∷ rest) sm) (sym (here s rest sm open')) (inl (s, refl, a.0, open'))
  | inl full ↦
      subst (Chooses (s ∷ rest) sm) (sym (passed s rest sm full))
        (more full (first_open-Chooses rest sm a.1))
]
  where
    more :
        check_dominance_threshold s sm ≡ true
        → Chooses rest sm (first_open rest sm)
        → Chooses (s ∷ rest) sm (first_open rest sm)
    more full (inl x) = inl x
    more full (inr (e, all)) = inr (e, (full, all))

-- The choice for such a miner is one of the four syndicates that is not dominant, and there is none if
-- and only if all four are.
pub assigned_open : (sm : SyndicateManager) → Chooses four sm (assigned sm)
unfolding assigned visits
assigned_open sm =
    elim (Bool-cases (check_dominance_threshold (get_lowest_capacity_syndicate sm) sm)) [
      | inl full ↦
          rw (assigned, full) (first_open-Chooses four sm (refl, (refl, (refl, (refl, tt)))))
      | inr open' ↦
          rw (assigned, open')
            (inl (get_lowest_capacity_syndicate sm, refl, (lowest_capacity sm).0, open'))
    ]
