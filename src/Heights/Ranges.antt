-- ===== src/Heights/Ranges.antt =====
-- The ranges stand for the heights.
use shadowyapparatus.Prelude.{
  ℕ, zero, suc, ◌+◌, ◌-◌, ◌≤◌, ◌<◌, ◌≡◌, ◌≢◌, refl, ap, ◌∙◌, arith, true, false, List, [], ◌∷◌,
  ◌++◌, ◌==◌, Bool-cases, ◌⊎◌, inl, inr, u64_mod, add64,
}
use mathlib.Core.List.{append_assoc}
use shadowyapparatus.Heights.{ranges_from, compress_height_ranges}

-- n heights from a on.
abbrev pub run_of : ℕ → ℕ → List ℕ
run_of zero a = []
run_of (suc n) a = a ∷ run_of n (a + 1)

abbrev pub expand : List (ℕ × ℕ) → List ℕ
expand [] = []
expand ((a, b) ∷ ranges) = run_of (b + 1 - a) a ++ expand ranges

-- Every height has a successor within a uint64.
abbrev pub AreHeights : List ℕ → Type 0
AreHeights [] = Unit
AreHeights (h ∷ heights) = (h + 1 < u64_mod) × AreHeights heights

-- No range starts where the one before it could have gone on.
abbrev pub StartApart : ℕ → List (ℕ × ℕ) → Type 0
StartApart end [] = Unit
StartApart end ((a, b) ∷ ranges) = (a ≢ end + 1) × (a ≤ b) × StartApart b ranges

abbrev pub AreMaximal : List (ℕ × ℕ) → Type 0
AreMaximal [] = Unit
AreMaximal ((a, b) ∷ ranges) = (a ≤ b) × StartApart b ranges

run_of-suc : (n a : ℕ) → run_of (suc n) a ≡ run_of n a ++ (a + n) ∷ []
run_of-suc zero a = ground arith
run_of-suc (suc n) a =
    ap (λ l. a ∷ l) (run_of-suc n (a + 1) ∙ ap (λ k. run_of n (a + 1) ++ k ∷ []) (omega arith))

extend :
    (start end x : ℕ)
    → start ≤ end
    → x ≡ end + 1
    → run_of (x + 1 - start) start ≡ run_of (end + 1 - start) start ++ x ∷ []
extend start end x l e =
    let n : ℕ = end + 1 - start in
    let long : x + 1 - start ≡ suc n = omega arith in
    let last : start + n ≡ x = omega arith in
    ap (λ k. run_of k start) long ∙ run_of-suc n start ∙ ap (λ k. run_of n start ++ k ∷ []) last

single : (x : ℕ) → run_of (x + 1 - x) x ≡ x ∷ []
single x = let one : x + 1 - x ≡ 1 = omega arith in ap (λ k. run_of k x) one

next_or_not :
    (x end : ℕ)
    → end + 1 < u64_mod
    → ((x == add64 end 1) ≡ true × (x ≡ end + 1)) ⊎ ((x == add64 end 1) ≡ false × (x ≢ end + 1))
unfolding add64
next_or_not x end s = elim (Bool-cases (x == add64 end 1)) [
  | inl q ↦ inl (q, ground arith)
  | inr q ↦ inr (q, λ e. ground arith)
]

go_on :
    (a b x : ℕ) (heights : List ℕ)
    → (x == add64 b 1) ≡ true
    → ranges_from a b (x ∷ heights) ≡ ranges_from a x heights
unfolding ranges_from
go_on a b x heights q = ground arith

start_anew :
    (a b x : ℕ) (heights : List ℕ)
    → (x == add64 b 1) ≡ false
    → ranges_from a b (x ∷ heights) ≡ (a, b) ∷ ranges_from x x heights
unfolding ranges_from
start_anew a b x heights q = ground arith

expand-ranges_from :
    (start end : ℕ) (heights : List ℕ)
    → start ≤ end
    → end + 1 < u64_mod
    → AreHeights heights
    → expand (ranges_from start end heights) ≡ run_of (end + 1 - start) start ++ heights
expand-ranges_from start end [] l s h = unfold ranges_from in refl
expand-ranges_from start end (x ∷ heights) l s h = elim (next_or_not x end s) [
  | inl (q, e) ↦ rw (go_on start end x heights q) (
      expand-ranges_from start x heights (omega arith) h.0 h.1
      ∙ ap (λ r. r ++ heights) (extend start end x l e)
      ∙ append_assoc (run_of (end + 1 - start) start) (x ∷ []) heights)
  | inr (q, e) ↦ rw (start_anew start end x heights q) (
      ap (λ r. run_of (end + 1 - start) start ++ r)
        (expand-ranges_from x x heights (omega arith) h.0 h.1 ∙ ap (λ r. r ++ heights) (single x)))
]

apart_from :
    (e a b : ℕ) (heights : List ℕ)
    → a ≢ e + 1
    → a ≤ b
    → b + 1 < u64_mod
    → AreHeights heights
    → StartApart e (ranges_from a b heights)
apart_from e a b [] ne l s h = unfold ranges_from in (ne, l, tt)
apart_from e a b (x ∷ heights) ne l s h = elim (next_or_not x b s) [
  | inl (q, p) ↦ rw (go_on a b x heights q) (apart_from e a x heights ne (omega arith) h.0 h.1)
  | inr (q, p) ↦
      rw (start_anew a b x heights q) (ne, l, apart_from b x x heights p (omega arith) h.0 h.1)
]

maximal_from :
    (a b : ℕ) (heights : List ℕ)
    → a ≤ b
    → b + 1 < u64_mod
    → AreHeights heights
    → AreMaximal (ranges_from a b heights)
maximal_from a b [] l s h = unfold ranges_from in (l, tt)
maximal_from a b (x ∷ heights) l s h = elim (next_or_not x b s) [
  | inl (q, p) ↦ rw (go_on a b x heights q) (maximal_from a x heights (omega arith) h.0 h.1)
  | inr (q, p) ↦
      rw (start_anew a b x heights q) (l, apart_from b x x heights p (omega arith) h.0 h.1)
]

-- The ranges of any list of heights, none of them the last uint64, stand for these heights in their
-- order, and no range could have been joined to the one before it.
pub compress_height_ranges_lem :
    (heights : List ℕ)
    → AreHeights heights
    → (expand (compress_height_ranges heights) ≡ heights)
      × AreMaximal (compress_height_ranges heights)
unfolding compress_height_ranges
compress_height_ranges_lem [] h = (refl, tt)
compress_height_ranges_lem (x ∷ heights) h = (
  expand-ranges_from x x heights (omega arith) h.0 h.1 ∙ ap (λ r. r ++ heights) (single x),
  maximal_from x x heights (omega arith) h.0 h.1,
)
