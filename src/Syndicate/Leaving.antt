-- ===== src/Syndicate/Leaving.antt =====
-- Leaving right after joining.
use shadowyapparatus.Prelude.{
  subst, ◌⊎◌, ℕ, ◌<◌, ◌≡◌, refl, sym, ap, ◌∙◌, arith, true, false, none, some, List, [], ◌∷◌, ◌++◌,
  Bytes, u64_mod, add64, sub64, inl, inr,
}
use shadowyapparatus.Prelude.Tests.{Option-cases}
use shadowyapparatus.Token.{
  SyndicateType, seiryu, byakko, suzaku, genbu, auto, other, SyndicateData,
}
use shadowyapparatus.Syndicate.{
  SyndicateMember, SyndicateStats, SyndicateManager, stats_of, with_stats, add_member,
  remove_member, visits, same_syndicate, found_in, take_out, joined, left, new_member, has_address,
  member_not_found,
}

stats_of-with_stats :
    (s : SyndicateType) (x y : SyndicateStats) (sm : SyndicateManager)
    → stats_of s sm ≡ some x
    → (stats_of s (with_stats s y sm) ≡ some y) × (with_stats s x (with_stats s y sm) ≡ sm)
unfolding stats_of with_stats
stats_of-with_stats seiryu x y sm h = ground arith
stats_of-with_stats byakko x y sm h = ground arith
stats_of-with_stats suzaku x y sm h = ground arith
stats_of-with_stats genbu x y sm h = ground arith
stats_of-with_stats auto x y sm h = ground arith
stats_of-with_stats other x y sm h = ground arith

stats_of-with_stats_ne :
    (s t : SyndicateType) (y : SyndicateStats) (sm : SyndicateManager)
    → (s ≡ t) ⊎ ((same_syndicate t s ≡ false) × (stats_of s (with_stats t y sm) ≡ stats_of s sm))
unfolding stats_of with_stats
stats_of-with_stats_ne s seiryu y sm =
    elim s
      as (λ k.
        (k ≡ seiryu)
        ⊎ ((same_syndicate seiryu k ≡ false)
            × (stats_of k (with_stats seiryu y sm) ≡ stats_of k sm))) [
              | seiryu ↦ inl refl
              | _ ↦ inr (refl, refl)
            ]
stats_of-with_stats_ne s byakko y sm =
    elim s
      as (λ k.
        (k ≡ byakko)
        ⊎ ((same_syndicate byakko k ≡ false)
            × (stats_of k (with_stats byakko y sm) ≡ stats_of k sm))) [
              | byakko ↦ inl refl
              | _ ↦ inr (refl, refl)
            ]
stats_of-with_stats_ne s suzaku y sm =
    elim s
      as (λ k.
        (k ≡ suzaku)
        ⊎ ((same_syndicate suzaku k ≡ false)
            × (stats_of k (with_stats suzaku y sm) ≡ stats_of k sm))) [
              | suzaku ↦ inl refl
              | _ ↦ inr (refl, refl)
            ]
stats_of-with_stats_ne s genbu y sm =
    elim s
      as (λ k.
        (k ≡ genbu)
        ⊎ ((same_syndicate genbu k ≡ false)
            × (stats_of k (with_stats genbu y sm) ≡ stats_of k sm))) [
              | genbu ↦ inl refl
              | _ ↦ inr (refl, refl)
            ]
stats_of-with_stats_ne s auto y sm =
    elim s
      as (λ k.
        (k ≡ auto)
        ⊎ ((same_syndicate auto k ≡ false) × (stats_of k (with_stats auto y sm) ≡ stats_of k sm))) [
          | auto ↦ inl refl
          | _ ↦ inr (refl, refl)
        ]
stats_of-with_stats_ne s other y sm =
    elim s
      as (λ k.
        (k ≡ other)
        ⊎ ((same_syndicate other k ≡ false)
            × (stats_of k (with_stats other y sm) ≡ stats_of k sm))) [
              | other ↦ inl refl
              | _ ↦ inr (refl, refl)
            ]

take_out_last :
    (id : Bytes) (m : SyndicateMember) (ms : List SyndicateMember)
    → m.nft_token_id ≡ id
    → take_out id ms ≡ none
    → take_out id (ms ++ m ∷ []) ≡ some (m, ms)
unfolding take_out
take_out_last id m [] e h = ground arith
take_out_last id m (x ∷ ms) e h = elim (Option-cases (take_out id ms)) [
  | inl q ↦ ground (arith, take_out_last id m ms e q)
  | inr (y, q) ↦ ground arith
]

left-joined :
    (m : SyndicateMember) (x : SyndicateStats)
    → x.total_capacity < u64_mod
    → m.adjusted_capacity < u64_mod
    → left m x.members (joined m x) ≡ x
unfolding left joined sub64 add64
left-joined m x h l = rw (cancel x.total_capacity m.adjusted_capacity h l)
  where
    cancel : (a b : ℕ) → a < u64_mod → b < u64_mod → sub64 (add64 a b) b ≡ a
    cancel a b h l = omega arith

skipped :
    (s : SyndicateType) (order : List SyndicateType) (id : Bytes) (sm : SyndicateManager)
    → found_in (stats_of s sm) id ≡ none
    → remove_member (s ∷ order) id sm ≡ remove_member order id sm
unfolding remove_member
skipped s order id sm h = rw (remove_member, h)

removed :
    (s : SyndicateType) (order : List SyndicateType) (id : Bytes) (sm : SyndicateManager)
    (x : SyndicateStats) (m : SyndicateMember) (rest : List SyndicateMember)
    → stats_of s sm ≡ some x
    → take_out id x.members ≡ some (m, rest)
    → remove_member (s ∷ order) id sm ≡ (none, with_stats s (left m rest x) sm)
unfolding remove_member
removed s order id sm x m rest h t = rw (remove_member, h, t)

not_found :
    (s : SyndicateType) (order : List SyndicateType) (id : Bytes) (sm : SyndicateManager)
    → remove_member (s ∷ order) id sm ≡ (some member_not_found, sm)
    → (found_in (stats_of s sm) id ≡ none)
      × (remove_member order id sm ≡ (some member_not_found, sm))
unfolding remove_member
not_found s order id sm h = ground arith

module _ (id : Bytes) (d : SyndicateData) (sm : SyndicateManager) (x : SyndicateStats)
    (at : stats_of d.syndicate sm ≡ some x) (small : x.total_capacity < u64_mod)
    (fits : d.reported_capacity < u64_mod) where
  abbrev entry : SyndicateMember
  entry = new_member id d sm.current_block

  abbrev after : SyndicateManager
  after = with_stats d.syndicate (joined entry x) sm

  leave_own :
      (order : List SyndicateType)
      → take_out id x.members ≡ none
      → remove_member (d.syndicate ∷ order) id after ≡ (none, sm)
  unfolding joined
  leave_own order h =
      let w = stats_of-with_stats d.syndicate x (joined entry x) sm at in
      let t : take_out id (joined entry x).members ≡ some (entry, x.members) =
        take_out_last id entry x.members refl h in
      removed d.syndicate order id after (joined entry x) entry x.members w.0 t
      ∙ ap (λ y. (none, with_stats d.syndicate y after)) (left-joined entry x small fits)
      ∙ ap (λ t. (none, t)) w.1

  nowhere : found_in (stats_of d.syndicate sm) id ≡ none → take_out id x.members ≡ none
  nowhere h =
      let h' : found_in (some x) id ≡ none = sym (ap (λ o. found_in o id) at) ∙ h in
      elim (Option-cases (take_out id x.members)) [ inl q ↦ q | inr (y, q) ↦ ground arith ]

  leave_later :
      (order : List SyndicateType)
      → remove_member order id sm ≡ (some member_not_found, sm)
      → visits d.syndicate order ≡ true
      → remove_member order id after ≡ (none, sm)
  unfolding visits
  leave_later [] h v = ground arith
  leave_later (s ∷ order) h v =
      let f = not_found s order id sm h in
      elim (stats_of-with_stats_ne s d.syndicate (joined entry x) sm) [
        | inl e ↦
            subst (λ k. remove_member (k ∷ order) id after ≡ (none, sm)) (sym e)
              (leave_own order (nowhere (subst (λ k. found_in (stats_of k sm) id ≡ none) e f.0)))
        | inr (apart, kept) ↦
            skipped s order id after (ap (λ o. found_in o id) kept ∙ f.0)
            ∙ leave_later order f.1 (ground (arith, apart))
      ]

-- A miner whose address is new to a syndicate joins it, with an NFT that no member of the
-- syndicates that the removal's loop visits has, and leaves again: both calls succeed, and the
-- manager is as before. The loop has to visit the syndicate, and the capacities are uint64s.
pub remove_member-add_member :
    (order : List SyndicateType) (id : Bytes) (d : SyndicateData) (sm : SyndicateManager)
    (x : SyndicateStats)
    → stats_of d.syndicate sm ≡ some x
    → x.total_capacity < u64_mod
    → d.reported_capacity < u64_mod
    → has_address d.miner_address x.members ≡ false
    → remove_member order id sm ≡ (some member_not_found, sm)
    → visits d.syndicate order ≡ true
    → ((add_member id d sm).0 ≡ none) × (remove_member order id (add_member id d sm).1 ≡ (none, sm))
unfolding add_member
remove_member-add_member order id d sm x at small fits fresh absent v =
    let e : add_member id d sm ≡ (none, after id d sm x at small fits) =
      rw (add_member, at, fresh) in
    (ap (λ r. r.0) e, rw e (leave_later id d sm x at small fits order absent v))
