-- ===== src/Dict/Sum.antt =====
-- Maps of amounts: the read that falls back on 0, and the sum of all values.
use shadowyapparatus.Prelude.{ℕ, ◌+◌, ◌≤◌, ◌≡◌, ◌≢◌, refl, ite, Option, none, some, [], ◌∷◌, arith}
use shadowyapparatus.Dict.{
  Key, Dict, lookup, insert, erase, IsDistinct, lookup-insert, lookup-erase, erase-eq,
}

-- The value that a read of a missing key gives instead.
abbrev pub or_zero : Option ℕ → ℕ
or_zero none = 0
or_zero (some n) = n

unfoldable pub sum : {K : Type 0} → Dict K ℕ → ℕ
sum [] = 0
sum ((_, n) ∷ m) = n + sum m

module _ {K : Type 0} ⦃e : Key K⦄ where
  -- `m[k]` for a map of numbers.
  abbrev pub amount : K → Dict K ℕ → ℕ
  amount k m = or_zero (lookup k m)

  pub amount-nil : (k : K) → amount k [] ≡ 0
  unfolding lookup
  amount-nil k = refl

  pub sum-insert : (k : K) (n : ℕ) (m : Dict K ℕ) → sum (insert k n m) + amount k m ≡ sum m + n
  unfolding sum insert lookup
  sum-insert k n [] = ground arith
  sum-insert k n ((j, w) ∷ m) = ground (arith, sum-insert k n m)

  pub sum-erase : (k : K) (m : Dict K ℕ) → IsDistinct m → sum (erase k m) + amount k m ≡ sum m
  unfolding sum erase lookup
  sum-erase k [] h = ground arith
  sum-erase k ((j, w) ∷ m) h = ground (arith, sum-erase k m h.1, erase-eq k m)

  pub amount-le-sum : (k : K) (m : Dict K ℕ) → amount k m ≤ sum m
  unfolding sum lookup
  amount-le-sum k [] = ground arith
  amount-le-sum k ((j, w) ∷ m) = ground (arith, amount-le-sum k m)

  -- Two keys hold no more between them than the whole.
  pub amount-add-amount-le-sum : (j k : K) (m : Dict K ℕ) → j ≢ k → amount j m + amount k m ≤ sum m
  unfolding sum lookup
  amount-add-amount-le-sum j k [] h = ground arith
  amount-add-amount-le-sum j k ((i, w) ∷ m) h =
      ground (arith, amount-add-amount-le-sum j k m h, amount-le-sum j m, amount-le-sum k m)

  pub amount-insert :
      (j k : K) (n : ℕ) (m : Dict K ℕ) → amount j (insert k n m) ≡ ite (e.same k j) n (amount j m)
  amount-insert j k n m = ground (arith, lookup-insert j k n m)

  pub amount-erase :
      (j k : K) (m : Dict K ℕ) → amount j (erase k m) ≡ ite (e.same k j) 0 (amount j m)
  amount-erase j k m = ground (arith, lookup-erase j k m)
