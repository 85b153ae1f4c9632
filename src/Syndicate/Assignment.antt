-- ===== src/Syndicate/Assignment.antt =====
-- The syndicate that AUTO assigns a miner to.
use shadowyapparatus.Prelude.{
  ℕ, ◌≤◌, ◌≡◌, inl, inr, refl, sym, subst, arith, true, false, List, [], ◌∷◌, ltb,
}
use shadowyapparatus.Prelude.Tests.{Bool-cases, ltb→lt, ltb-false→le}
use shadowyapparatus.Token.{SyndicateType, seiryu, byakko, suzaku, genbu}
use shadowyapparatus.Syndicate.{
  SyndicateManager, capacity_of, lowest_of, get_lowest_capacity_syndicate, four, visits,
}

-- A number that is no more than the capacity of any syndicate in a list.
abbrev pub AtMost : ℕ → List SyndicateType → SyndicateManager → Type 0
AtMost n [] sm = Unit
AtMost n (s ∷ rest) sm = (n ≤ capacity_of s sm) × AtMost n rest sm

lower :
    (best s : SyndicateType) (rest : List SyndicateType) (sm : SyndicateManager)
    → ltb (capacity_of s sm) (capacity_of best sm) ≡ true
    → lowest_of best (s ∷ rest) sm ≡ lowest_of s rest sm
unfolding lowest_of
lower best s rest sm h = rw h

no_lower :
    (best s : SyndicateType) (rest : List SyndicateType) (sm : SyndicateManager)
    → ltb (capacity_of s sm) (capacity_of best sm) ≡ false
    → lowest_of best (s ∷ rest) sm ≡ lowest_of best rest sm
unfolding lowest_of
no_lower best s rest sm h = rw h

lowest_of-AtMost :
    (best : SyndicateType) (rest : List SyndicateType) (sm : SyndicateManager)
    → AtMost (capacity_of (lowest_of best rest sm) sm) (best ∷ rest) sm
lowest_of-AtMost best [] sm = unfold lowest_of in (omega arith, tt)
lowest_of-AtMost best (s ∷ rest) sm =
    elim (Bool-cases (ltb (capacity_of s sm) (capacity_of best sm))) [
      | inl h ↦
          let less = ltb→lt (capacity_of s sm) (capacity_of best sm) h in
          let (low, all) = lowest_of-AtMost s rest sm in
          subst (λ b. AtMost (capacity_of b sm) (best ∷ s ∷ rest) sm) (sym (lower best s rest sm h))
            (omega arith, (low, all))
      | inr h ↦
          let more = ltb-false→le (capacity_of s sm) (capacity_of best sm) h in
          let (low, all) = lowest_of-AtMost best rest sm in
          subst (λ b. AtMost (capacity_of b sm) (best ∷ s ∷ rest) sm)
            (sym (no_lower best s rest sm h)) (low, (omega arith, all))
    ]

abbrev pub AllVisited : List SyndicateType → Type 0
AllVisited [] = Unit
AllVisited (s ∷ rest) = (visits s four ≡ true) × AllVisited rest

lowest_of-four :
    (best : SyndicateType) (rest : List SyndicateType) (sm : SyndicateManager)
    → AllVisited (best ∷ rest)
    → visits (lowest_of best rest sm) four ≡ true
lowest_of-four best [] sm a = unfold lowest_of in a.0
lowest_of-four best (s ∷ rest) sm (b, (c, all)) =
    elim (Bool-cases (ltb (capacity_of s sm) (capacity_of best sm))) [
      | inl h ↦ rw (lower best s rest sm h) (lowest_of-four s rest sm (c, all))
      | inr h ↦ rw (no_lower best s rest sm h) (lowest_of-four best rest sm (b, all))
    ]

-- The syndicate that `GetLowestCapacitySyndicate` answers with is one of the four, and has no more
-- capacity than any of them.
pub lowest_capacity :
    (sm : SyndicateManager)
    → let s = get_lowest_capacity_syndicate sm in
      (visits s four ≡ true) × AtMost (capacity_of s sm) four sm
unfolding get_lowest_capacity_syndicate visits
lowest_capacity sm =
    let later = byakko ∷ suzaku ∷ genbu ∷ [] in
    (
      lowest_of-four seiryu later sm (refl, (refl, (refl, (refl, tt)))),
      lowest_of-AtMost seiryu later sm,
    )
