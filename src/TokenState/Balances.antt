-- ===== src/TokenState/Balances.antt =====
-- What a transfer and a melt do to the balances of one token, address by address and in total.
use shadowyapparatus.Prelude.{
  ℕ, ◌+◌, ◌-◌, ◌≤◌, ◌<◌, ◌≡◌, ite, arith, Bytes, bytes_discrete, u64_mod, add64, sub64,
}
use shadowyapparatus.Prelude.Word.{add64-eq, sub64-eq}
use shadowyapparatus.Dict.{Dict, insert, bytes_key, IsDistinct, insert-IsDistinct, erase-IsDistinct}
use shadowyapparatus.Dict.Sum.{
  amount, sum, sum-insert, sum-erase, amount-insert, amount-erase, amount-le-sum,
  amount-add-amount-le-sum,
}
use shadowyapparatus.TokenState.Operations.{drop_zero, moved, moved_back, burned}

amount-drop_zero : (j a : Bytes) (m : Dict Bytes ℕ) → amount j (drop_zero a m) ≡ amount j m
amount-drop_zero j a m = ground (arith, amount-erase j a m)

drop_zero-IsDistinct : (a : Bytes) (m : Dict Bytes ℕ) → IsDistinct m → IsDistinct (drop_zero a m)
drop_zero-IsDistinct a m h = ground (arith, erase-IsDistinct a m h)

sum-drop_zero : (a : Bytes) (m : Dict Bytes ℕ) → IsDistinct m → sum (drop_zero a m) ≡ sum m
sum-drop_zero a m h = ground (arith, sum-erase a m h)

-- The abstract transfer, on any assignment of amounts to addresses.
unfoldable pub transferred : Bytes → Bytes → ℕ → (Bytes → ℕ) → Bytes → ℕ
transferred from to n f a =
    ite (bytes_discrete from to) (f a)
      (ite (bytes_discrete from a) (f a - n) (ite (bytes_discrete to a) (f a + n) (f a)))

module _ (from to : Bytes) (n : ℕ) (m : Dict Bytes ℕ) (enough : n ≤ amount from m)
    (small : sum m < u64_mod) where
  pub amount-moved :
      (a : Bytes)
      → amount a (moved from to n (amount from m) m) ≡ transferred from to n (λ x. amount x m) a
  unfolding moved transferred
  amount-moved a =
      let have = amount from m in
      let debited = insert from (sub64 have n) m in
      let credit = add64 (amount to debited) n in
      ground (
        arith,
        amount-drop_zero a from (insert to credit debited),
        amount-insert a to credit debited,
        amount-insert a from (sub64 have n) m,
        amount-insert to from (sub64 have n) m,
        sub64-eq have n,
        add64-eq (amount to debited) n,
        amount-le-sum from m,
        amount-add-amount-le-sum from to m,
      )

  pub moved-IsDistinct : IsDistinct m → IsDistinct (moved from to n (amount from m) m)
  unfolding moved
  moved-IsDistinct d =
      drop_zero-IsDistinct from _ (insert-IsDistinct to _ _ (insert-IsDistinct from _ m d))

  pub sum-moved : IsDistinct m → sum (moved from to n (amount from m) m) ≡ sum m
  unfolding moved
  sum-moved d =
      let have = amount from m in
      let debited = insert from (sub64 have n) m in
      let credit = add64 (amount to debited) n in
      ground (
        arith,
        sum-drop_zero from (insert to credit debited)
            (insert-IsDistinct to credit debited (insert-IsDistinct from (sub64 have n) m d)),
        sum-insert to credit debited,
        sum-insert from (sub64 have n) m,
        amount-insert to from (sub64 have n) m,
        sub64-eq have n,
        add64-eq (amount to debited) n,
        amount-le-sum from m,
        amount-add-amount-le-sum from to m,
      )

  -- The rollback of a transfer gives every address what it had, where the two addresses differ;
  -- where they are one, it takes the amount away.
  pub amount-moved_back :
      (a : Bytes)
      → amount a (moved_back from to n (amount from m) (moved from to n (amount from m) m))
        ≡ ite
            (bytes_discrete from to)
            (ite (bytes_discrete from a) (amount a m - n) (amount a m))
            (amount a m)
  unfolding moved_back transferred
  amount-moved_back a =
      let have = amount from m in
      let m' = moved from to n have m in
      let credited = insert from have m' in
      let back = sub64 (amount to credited) n in
      ground (
        arith,
        amount-moved a,
        amount-moved to,
        amount-drop_zero a to (insert to back credited),
        amount-insert a to back credited,
        amount-insert a from have m',
        amount-insert to from have m',
        sub64-eq (amount to credited) n,
        amount-le-sum from m,
        amount-add-amount-le-sum from to m,
      )

  pub moved_back-IsDistinct :
      IsDistinct m
      → IsDistinct (moved_back from to n (amount from m) (moved from to n (amount from m) m))
  unfolding moved_back
  moved_back-IsDistinct d =
      drop_zero-IsDistinct to _
        (insert-IsDistinct to _ _ (insert-IsDistinct from _ _ (moved-IsDistinct d)))

  pub sum-moved_back :
      IsDistinct m
      → sum (moved_back from to n (amount from m) (moved from to n (amount from m) m))
          + ite (bytes_discrete from to) n 0
        ≡ sum m
  unfolding moved_back transferred
  sum-moved_back d =
      let have = amount from m in
      let m' = moved from to n have m in
      let credited = insert from have m' in
      let back = sub64 (amount to credited) n in
      ground (
        arith,
        sum-moved d,
        amount-moved from,
        amount-moved to,
        sum-drop_zero to (insert to back credited) (
            insert-IsDistinct to back credited
              (insert-IsDistinct from have m' (moved-IsDistinct d))),
        sum-insert to back credited,
        sum-insert from have m',
        amount-insert to from have m',
        sub64-eq (amount to credited) n,
        amount-le-sum from m,
        amount-add-amount-le-sum from to m,
      )

module _ (from : Bytes) (n : ℕ) (m : Dict Bytes ℕ) (enough : n ≤ amount from m)
    (small : sum m < u64_mod) where
  pub amount-burned :
      (a : Bytes)
      → amount a (burned from n (amount from m) m)
        ≡ ite (bytes_discrete from a) (amount from m - n) (amount a m)
  unfolding burned
  amount-burned a =
      let have = amount from m in
      ground (
        arith,
        amount-drop_zero a from (insert from (sub64 have n) m),
        amount-insert a from (sub64 have n) m,
        sub64-eq have n,
        amount-le-sum from m,
      )

  pub burned-IsDistinct : IsDistinct m → IsDistinct (burned from n (amount from m) m)
  unfolding burned
  burned-IsDistinct d = drop_zero-IsDistinct from _ (insert-IsDistinct from _ m d)

  pub sum-burned : IsDistinct m → sum (burned from n (amount from m) m) + n ≡ sum m
  unfolding burned
  sum-burned d =
      let have = amount from m in
      ground (
        arith,
        sum-drop_zero from (insert from (sub64 have n) m)
            (insert-IsDistinct from (sub64 have n) m d),
        sum-insert from (sub64 have n) m,
        sub64-eq have n,
        amount-le-sum from m,
      )
