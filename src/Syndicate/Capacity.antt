-- ===== src/Syndicate/Capacity.antt =====
-- The members of a syndicate: their addresses differ, and their capacities add up to its total.
use shadowyapparatus.Prelude.{
  ◌⊎◌, ℕ, ◌+◌, ◌%◌, ◌<◌, ◌≡◌, refl, arith, Bool, true, false, Option, none, some, List, [], ◌∷◌,
  ◌++◌, Bytes, str_eq, u64_mod, add64, sub64, inl, inr, ◌||◌, if◌then◌else◌,
}
use shadowyapparatus.Prelude.Tests.{Bool-cases, Option-cases}
use shadowyapparatus.Token.{
  SyndicateType, seiryu, byakko, suzaku, genbu, auto, other, SyndicateData,
}
use shadowyapparatus.Syndicate.{
  SyndicateMember, SyndicateStats, SyndicateManager, stats_of, with_stats, has_address, new_member,
  joined, add_member, take_out, left, remove_member,
}

-- The sum that `TotalCapacity` is to be.
unfoldable pub adjusted : List SyndicateMember → ℕ
adjusted [] = 0
adjusted (m ∷ ms) = m.adjusted_capacity + adjusted ms

unfoldable pub distinct : List SyndicateMember → Bool
distinct [] = true
distinct (m ∷ ms) = if has_address m.address ms then false else distinct ms

-- Every capacity is a uint64.
abbrev pub Fits : List SyndicateMember → Type 0
Fits [] = Unit
Fits (m ∷ ms) = (m.adjusted_capacity < u64_mod) × Fits ms

pub record IsCounted (x : SyndicateStats) : Type 0 where
  pub total : x.total_capacity ≡ adjusted x.members % u64_mod
  pub addresses : distinct x.members ≡ true
  pub small : Fits x.members

pub record IsValid (sm : SyndicateManager) : Type 0 where
  pub at_seiryu : IsCounted sm.seiryu_stats
  pub at_byakko : IsCounted sm.byakko_stats
  pub at_suzaku : IsCounted sm.suzaku_stats
  pub at_genbu : IsCounted sm.genbu_stats

pub stats_of-IsCounted :
    (s : SyndicateType) (sm : SyndicateManager) (x : SyndicateStats)
    → IsValid sm
    → stats_of s sm ≡ some x
    → IsCounted x
unfolding stats_of
stats_of-IsCounted seiryu sm x v h = ground (arith, v.at_seiryu)
stats_of-IsCounted byakko sm x v h = ground (arith, v.at_byakko)
stats_of-IsCounted suzaku sm x v h = ground (arith, v.at_suzaku)
stats_of-IsCounted genbu sm x v h = ground (arith, v.at_genbu)
stats_of-IsCounted auto sm x v h = ground arith
stats_of-IsCounted other sm x v h = ground arith

pub with_stats-IsValid :
    (s : SyndicateType) (x : SyndicateStats) (sm : SyndicateManager)
    → IsValid sm
    → IsCounted x
    → IsValid (with_stats s x sm)
unfolding with_stats
with_stats-IsValid seiryu x sm v c = record {
  at_seiryu = c;
  at_byakko = v.at_byakko;
  at_suzaku = v.at_suzaku;
  at_genbu = v.at_genbu;
}
with_stats-IsValid byakko x sm v c = record {
  at_seiryu = v.at_seiryu;
  at_byakko = c;
  at_suzaku = v.at_suzaku;
  at_genbu = v.at_genbu;
}
with_stats-IsValid suzaku x sm v c = record {
  at_seiryu = v.at_seiryu;
  at_byakko = v.at_byakko;
  at_suzaku = c;
  at_genbu = v.at_genbu;
}
with_stats-IsValid genbu x sm v c = record {
  at_seiryu = v.at_seiryu;
  at_byakko = v.at_byakko;
  at_suzaku = v.at_suzaku;
  at_genbu = c;
}
with_stats-IsValid auto x sm v c = v
with_stats-IsValid other x sm v c = v

adjusted-append :
    (m : SyndicateMember) (ms : List SyndicateMember)
    → adjusted (ms ++ m ∷ []) ≡ m.adjusted_capacity + adjusted ms
unfolding adjusted
adjusted-append m [] = refl
adjusted-append m (x ∷ ms) = omega (arith, adjusted-append m ms)

str_eq_comm : (a b : Bytes) → str_eq a b ≡ str_eq b a
str_eq_comm a b = ground arith

has_address-append :
    (a : Bytes) (m : SyndicateMember) (ms : List SyndicateMember)
    → has_address a (ms ++ m ∷ []) ≡ (has_address a ms || str_eq m.address a)
unfolding has_address
has_address-append a m [] = ground arith
has_address-append a m (x ∷ ms) = ground (arith, has_address-append a m ms)

distinct-append :
    (m : SyndicateMember) (ms : List SyndicateMember)
    → distinct ms ≡ true
    → has_address m.address ms ≡ false
    → distinct (ms ++ m ∷ []) ≡ true
unfolding distinct has_address
distinct-append m [] d h = refl
distinct-append m (x ∷ ms) d h =
    let e = has_address-append x.address m ms in
    let c = str_eq_comm x.address m.address in ground (arith, e, c, distinct-append m ms)

Fits-append :
    (m : SyndicateMember) (ms : List SyndicateMember)
    → Fits ms
    → m.adjusted_capacity < u64_mod
    → Fits (ms ++ m ∷ [])
Fits-append m [] f l = (l, tt)
Fits-append m (x ∷ ms) f l = (f.0, Fits-append m ms f.1 l)

joined-IsCounted :
    (m : SyndicateMember) (x : SyndicateStats)
    → IsCounted x
    → m.adjusted_capacity < u64_mod
    → has_address m.address x.members ≡ false
    → IsCounted (joined m x)
unfolding joined add64
joined-IsCounted m x c l h = record {
  total = omega (arith, c.total, adjusted-append m x.members);
  addresses = distinct-append m x.members c.addresses h;
  small = Fits-append m x.members c.small l;
}

take_out-adjusted :
    (id : Bytes) (ms : List SyndicateMember) (m : SyndicateMember) (rest : List SyndicateMember)
    → take_out id ms ≡ some (m, rest)
    → adjusted ms ≡ m.adjusted_capacity + adjusted rest
unfolding take_out adjusted
take_out-adjusted id [] m rest h = ground arith
take_out-adjusted id (x ∷ ms) m rest h = elim (Option-cases (take_out id ms)) [
  | inl q ↦ ground arith
  | inr ((y, ys), q) ↦ ground (arith, take_out-adjusted id ms y ys q)
]

take_out-Fits :
    (id : Bytes) (ms : List SyndicateMember) (m : SyndicateMember) (rest : List SyndicateMember)
    → take_out id ms ≡ some (m, rest)
    → Fits ms
    → (m.adjusted_capacity < u64_mod) × Fits rest
unfolding take_out
take_out-Fits id [] m rest h f = ground arith
take_out-Fits id (x ∷ ms) m rest h f = elim (Option-cases (take_out id ms)) [
  | inl q ↦ ground arith
  | inr ((y, ys), q) ↦ ground (arith, take_out-Fits id ms y ys q f.1)
]

take_out-absent :
    (a id : Bytes) (ms : List SyndicateMember) (m : SyndicateMember) (rest : List SyndicateMember)
    → take_out id ms ≡ some (m, rest)
    → has_address a ms ≡ false
    → has_address a rest ≡ false
unfolding take_out has_address
take_out-absent a id [] m rest h n = ground arith
take_out-absent a id (x ∷ ms) m rest h n = elim (Option-cases (take_out id ms)) [
  | inl q ↦ ground arith
  | inr ((y, ys), q) ↦ ground (arith, take_out-absent a id ms y ys q)
]

take_out-distinct :
    (id : Bytes) (ms : List SyndicateMember) (m : SyndicateMember) (rest : List SyndicateMember)
    → take_out id ms ≡ some (m, rest)
    → distinct ms ≡ true
    → distinct rest ≡ true
unfolding take_out distinct
take_out-distinct id [] m rest h d = ground arith
take_out-distinct id (x ∷ ms) m rest h d = elim (Option-cases (take_out id ms)) [
  | inl q ↦ ground arith
  | inr ((y, ys), q) ↦
      ground (arith, take_out-distinct id ms y ys q, take_out-absent x.address id ms y ys q)
]

left-IsCounted :
    (id : Bytes) (x : SyndicateStats) (m : SyndicateMember) (rest : List SyndicateMember)
    → IsCounted x
    → take_out id x.members ≡ some (m, rest)
    → IsCounted (left m rest x)
unfolding left sub64
left-IsCounted id x m rest c h = record {
  total = omega (
    arith,
    c.total,
    (take_out-Fits id x.members m rest h c.small).0,
    take_out-adjusted id x.members m rest h,
  );
  addresses = take_out-distinct id x.members m rest h c.addresses;
  small = (take_out-Fits id x.members m rest h c.small).1;
}

pub add_member-IsValid :
    (id : Bytes) (d : SyndicateData) (sm : SyndicateManager)
    → d.reported_capacity < u64_mod
    → IsValid sm
    → IsValid (add_member id d sm).1
unfolding add_member
add_member-IsValid id d sm l v = go (stats_of d.syndicate sm) refl
  where
    go : (o : Option SyndicateStats) → stats_of d.syndicate sm ≡ o → IsValid (add_member id d sm).1
    go none q = rw (add_member, q) v
    go (some x) q = elim (Bool-cases (has_address d.miner_address x.members)) [
      | inl t ↦ rw (add_member, q, t) v
      | inr t ↦
          rw (add_member, q, t)
            (with_stats-IsValid d.syndicate (joined (new_member id d sm.current_block) x) sm v (
              joined-IsCounted (new_member id d sm.current_block) x
                (stats_of-IsCounted d.syndicate sm x v q) l t))
    ]

pub found_cases :
    (syndicate : SyndicateType) (order : List SyndicateType) (id : Bytes) (sm : SyndicateManager)
    → (remove_member (syndicate ∷ order) id sm ≡ remove_member order id sm)
      ⊎ ((x : SyndicateStats) × (m : SyndicateMember) × (rest : List SyndicateMember) × (stats_of
              syndicate sm
            ≡ some x)
          × (take_out id x.members ≡ some (m, rest))
          × (remove_member (syndicate ∷ order) id sm
              ≡ (none, with_stats syndicate (left m rest x) sm)))
unfolding remove_member
found_cases syndicate order id sm = elim (Option-cases (stats_of syndicate sm)) [
  | inl q ↦ inl (rw (remove_member, q))
  | inr (x, q) ↦ elim (Option-cases (take_out id x.members)) [
    | inl t ↦ inl (rw (remove_member, q, t))
    | inr ((m, rest), t) ↦ inr (x, m, rest, q, t, rw (remove_member, q, t))
  ]
]

pub remove_member-IsValid :
    (order : List SyndicateType) (id : Bytes) (sm : SyndicateManager)
    → IsValid sm
    → IsValid (remove_member order id sm).1
remove_member-IsValid [] id sm v = unfold remove_member in v
remove_member-IsValid (s ∷ order) id sm v = elim (found_cases s order id sm) [
  | inl q ↦ rw q (remove_member-IsValid order id sm v)
  | inr (x, m, rest, q, t, e) ↦ rw e (
      with_stats-IsValid s (left m rest x) sm v
        (left-IsCounted id x m rest (stats_of-IsCounted s sm x v q) t))
]
