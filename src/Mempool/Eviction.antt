-- ===== src/Mempool/Eviction.antt =====
-- What a removal and an eviction of cmd/mempool.go keep.
use shadowyapparatus.Prelude.{
  ℕ, zero, suc, ◌≡◌, inl, inr, refl, ap, ◌∙◌, arith, Bool, true, false, Option, none, some, List,
  Bytes, length, add64, Bool-cases, Option-cases,
}
use shadowyapparatus.Dict.{lookup, bytes_key, lookup-erase}
use shadowyapparatus.Transaction.{Transaction}
use shadowyapparatus.Mempool.{
  MempoolTransaction, Mempool, Libraries, Answer, done, refused, panicked, remove_from_indices,
  update_stats,
}
use shadowyapparatus.Mempool.Operations.{
  without, after_unindexing, remove_transaction_internal, take_lowest, go_on, evict_one, evict_loop,
  evict_transactions, evicted_enough, with_room, lt_i64,
}
use shadowyapparatus.Mempool.Sizes.{
  IsSound, Agree, Agree-IsSound, without-IsSound, unindexed-Agree, stats-Agree,
}

-- What a removal of entries keeps.
pub record Shrinks (x y : Mempool) : Type 0 where
  pub sound : IsSound x → IsSound y
  pub absent : (h : Bytes) → lookup h x.transactions ≡ none → lookup h y.transactions ≡ none
  pub queue : y.priority_queue ≡ x.priority_queue

Shrinks-refl : (x : Mempool) → Shrinks x x
Shrinks-refl x = record { sound = λ s. s; absent = λ h n. n; queue = refl }

Shrinks-trans : (x y z : Mempool) → Shrinks x y → Shrinks y z → Shrinks x z
Shrinks-trans x y z a b = record {
  sound = λ s. b.sound (a.sound s);
  absent = λ h n. b.absent h (a.absent h n);
  queue = b.queue ∙ a.queue;
}

Agree-Shrinks : (x y : Mempool) → Agree x y → Shrinks x y
Agree-Shrinks x y a = record {
  sound = Agree-IsSound x y a;
  absent = λ h n. ap (lookup h) a.transactions ∙ n;
  queue = a.queue;
}

without-Shrinks :
    (t : MempoolTransaction) (h : Bytes) (mp : Mempool)
    → lookup h mp.transactions ≡ some t
    → Shrinks mp (without t h mp)
without-Shrinks t h mp q = record {
  sound = λ s. without-IsSound t h mp s q;
  absent = λ k n. ground (arith, lookup-erase k h mp.transactions);
  queue = refl;
}

unindexed-Shrinks :
    (t : MempoolTransaction) (tx : Transaction) (h : Bytes) (mp : Mempool)
    → lookup h mp.transactions ≡ some t
    → Shrinks mp (remove_from_indices t tx (without t h mp)).1
unindexed-Shrinks t tx h mp q =
    Shrinks-trans mp (without t h mp) (remove_from_indices t tx (without t h mp)).1
      (without-Shrinks t h mp q)
      (Agree-Shrinks (without t h mp) (remove_from_indices t tx (without t h mp)).1
        (unindexed-Agree t tx (without t h mp)))

after_unindexing-Shrinks :
    (x : Mempool) (r : Bool × Mempool) → Shrinks x r.1 → Shrinks x (after_unindexing r).1
after_unindexing-Shrinks x (true, mp) k =
    Shrinks-trans x mp (update_stats mp) k (Agree-Shrinks mp (update_stats mp) (stats-Agree mp))
after_unindexing-Shrinks x (false, mp) k = k

module _ (l : Libraries) where
  pub removal-Shrinks :
      (h : Bytes) (mp : Mempool) → Shrinks mp (remove_transaction_internal l h mp).1
  unfolding remove_transaction_internal
  removal-Shrinks h mp = elim (Option-cases (lookup h mp.transactions)) [
    | inl q ↦ rw (remove_transaction_internal, q) (Shrinks-refl mp)
    | inr (t, q) ↦ elim (Option-cases (l.parse t.transaction.transaction)) [
      | inl p ↦ rw (remove_transaction_internal, q, p) (Shrinks-refl mp)
      | inr (tx, p) ↦
          rw (remove_transaction_internal, q, p)
            (after_unindexing-Shrinks mp (remove_from_indices t tx (without t h mp))
              (unindexed-Shrinks t tx h mp q))
    ]
  ]

  go_on-Shrinks :
      (next : Mempool → Answer × ℕ × Mempool) (space : ℕ) (x : Mempool) (r : Answer × Mempool)
      → Shrinks x r.1
      → ((y : Mempool) → Shrinks y (next y).2)
      → Shrinks x (go_on l next space r).2
  go_on-Shrinks next space x (done, mp) k f = Shrinks-trans x mp (next mp).2 k (f mp)
  go_on-Shrinks next space x (refused e, mp) k f = Shrinks-trans x mp (next mp).2 k (f mp)
  go_on-Shrinks next space x (panicked, mp) k f = k

  evict_one-Shrinks :
      (next : ℕ → Mempool → Answer × ℕ × Mempool) (space : ℕ) (t : MempoolTransaction)
      (mp : Mempool)
      → ((n : ℕ) (y : Mempool) → Shrinks y (next n y).2)
      → Shrinks mp (evict_one l next space t mp).2
  evict_one-Shrinks next space t mp f = go (lookup t.tx_hash mp.transactions) refl
    where
      go :
          (o : Option MempoolTransaction)
          → lookup t.tx_hash mp.transactions ≡ o
          → Shrinks mp (evict_one l next space t mp).2
      go none q = rw (evict_one, q) (f space mp)
      go (some x) q =
          rw (evict_one, q)
            (go_on-Shrinks (next (add64 space t.size)) (add64 space t.size) mp
              (remove_transaction_internal l t.tx_hash mp) (removal-Shrinks t.tx_hash mp)
              (f (add64 space t.size)))

  evict_loop-Shrinks :
      (fuel needed space : ℕ) (queue : List MempoolTransaction) (mp : Mempool)
      → Shrinks mp (evict_loop l fuel needed space queue mp).2
  unfolding evict_loop
  evict_loop-Shrinks zero needed space queue mp = Shrinks-refl mp
  evict_loop-Shrinks (suc fuel) needed space queue mp = elim (Bool-cases (lt_i64 space needed)) [
    | inr h ↦ rw (evict_loop, h) (Shrinks-refl mp)
    | inl h ↦ elim (Option-cases (take_lowest queue)) [
      | inl q ↦ rw (evict_loop, h, q) (Shrinks-refl mp)
      | inr ((t, rest), q) ↦
          let next : ℕ → Mempool → Answer × ℕ × Mempool =
            λ n y. evict_loop l fuel needed n rest y in
          rw (evict_loop, h, q)
            (evict_one-Shrinks next space t mp (λ n y. evict_loop-Shrinks fuel needed n rest y))
    ]
  ]

  evict-Shrinks : (needed : ℕ) (mp : Mempool) → Shrinks mp (evict_transactions l needed mp).1
  unfolding evict_transactions
  evict-Shrinks needed mp =
      enough (evict_loop l (length mp.priority_queue) needed 0 mp.priority_queue mp)
        (evict_loop-Shrinks (length mp.priority_queue) needed 0 mp.priority_queue mp)
    where
      enough :
          (r : Answer × ℕ × Mempool) → Shrinks mp r.2 → Shrinks mp (evicted_enough l needed r).1
      enough (done, space, y) k = ground (arith, k)
      enough (refused e, space, y) k = k
      enough (panicked, space, y) k = k

  pub room-Shrinks : (size : ℕ) (mp : Mempool) → Shrinks mp (with_room l size mp).1
  room-Shrinks size mp =
      elim (Bool-cases (lt_i64 mp.config.max_mempool_size (add64 mp.total_size size))) [
        | inl h ↦ rw (with_room, h) (evict-Shrinks size mp)
        | inr h ↦ rw (with_room, h) (Shrinks-refl mp)
      ]
