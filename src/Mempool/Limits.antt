-- ===== src/Mempool/Limits.antt =====
-- What a successful call of `AddTransaction` leaves, and what becomes of the queue of cmd/mempool.go.
use shadowyapparatus.Prelude.{
  ℕ, zero, suc, ◌≤◌, ◌<◌, ◌≡◌, inl, inr, refl, sym, ap, subst, ◌∙◌, arith, Bool, true, false, some,
  List, [], ◌∷◌, Bytes, length, leb, Bool-cases, Option-cases,
}
use shadowyapparatus.Dict.{Dict, lookup, insert, bytes_key, lookup-insert_self}
use shadowyapparatus.Transaction.{Transaction, SignedTransaction}
use shadowyapparatus.Mempool.{
  TransactionSource, MempoolTransaction, Mempool, Libraries, Answer, done, refused, panicked,
  remove_from_indices, update_stats, add_to_indices,
}
use shadowyapparatus.Mempool.Operations.{
  Arrival, without, store_entry, new_entry, admit, with_room, add_transaction, removed_next,
  cleanup_loop, cleanup_expired_transactions, cleanup_expired_swap_orders, counted,
}
use shadowyapparatus.Mempool.Sizes.{unindexed-Agree}
use shadowyapparatus.Mempool.Eviction.{room-Shrinks, removal-Shrinks}
use shadowyapparatus.Mempool.Invariant.{
  Step, add, remove, clean_up, clean_up_swaps, Reach, here, next,
}

length-insert :
    (h : Bytes) (t : MempoolTransaction) (m : Dict Bytes MempoolTransaction)
    → length (insert h t m) ≤ suc (length m)
unfolding insert
length-insert h t [] = omega arith
length-insert h t ((k, x) ∷ m) = ground (arith, length-insert h t m)

-- `heap.Push` puts one entry into the array.
abbrev pub AddsOne : Libraries → Type 0
AddsOne l =
    (t : MempoolTransaction) (q : List MempoolTransaction)
    → length (l.heap_push t q) ≡ suc (length q)

module _ (l : Libraries) (law : AddsOne l) where
  stored-queue :
      (t : MempoolTransaction) (tx : Transaction) (mp : Mempool)
      → length (store_entry l t tx mp).priority_queue ≡ suc (length mp.priority_queue)
  unfolding store_entry add_to_indices update_stats
  stored-queue t tx mp = law t mp.priority_queue

  admit-queue :
      (a : Arrival) (source : TransactionSource) (signed : SignedTransaction) (tx : Transaction)
      (r : Answer × Mempool)
      → length r.1.priority_queue ≤ length (admit l a source signed tx r).1.priority_queue
  admit-queue a source signed tx (refused e, mp) = omega arith
  admit-queue a source signed tx (panicked, mp) = omega arith
  admit-queue a source signed tx (done, mp) =
      elim (Bool-cases (leb mp.config.max_transactions (length mp.transactions))) [
        | inl h ↦ rw (admit, h) (omega arith)
        | inr h ↦
            rw (admit, h)
              (omega (arith, stored-queue (new_entry l a source signed tx mp.config) tx mp))
      ]

  add-queue :
      (a : Arrival) (source : TransactionSource) (signed : SignedTransaction) (mp : Mempool)
      → length mp.priority_queue ≤ length (add_transaction l a source signed mp).1.priority_queue
  unfolding add_transaction
  add-queue a source signed mp = elim (Option-cases (lookup signed.tx_hash mp.transactions)) [
    | inr (t, q) ↦ rw (add_transaction, q) (omega arith)
    | inl q ↦ elim (Option-cases (l.parse signed.transaction)) [
      | inl p ↦ rw (add_transaction, q, p) (omega arith)
      | inr (tx, p) ↦
          let size = l.json_size signed in
          let same = ap length (room-Shrinks l size mp).queue in
          rw (add_transaction, q, p)
            (omega (arith, same, admit-queue a source signed tx (with_room l size mp)))
    ]
  ]

  cleanup-queue :
      (expired : MempoolTransaction → Transaction → Bool) (m : Dict Bytes MempoolTransaction)
      (n : ℕ) (mp : Mempool)
      → (cleanup_loop l expired m n mp).2.priority_queue ≡ mp.priority_queue
  unfolding cleanup_loop
  cleanup-queue expired [] n mp = refl
  cleanup-queue expired ((h, t) ∷ m) n mp =
      elim (Option-cases (l.parse t.transaction.transaction)) [
        | inl q ↦ rw (cleanup_loop, q) (cleanup-queue expired m n mp)
        | inr (tx, q) ↦ elim (Bool-cases (expired t tx)) [
          | inr e ↦ rw (cleanup_loop, q, e) (cleanup-queue expired m n mp)
          | inl e ↦
              rw (cleanup_loop, q, e)
                (removed (λ y. cleanup-queue expired m (suc n) y)
                  (remove_from_indices t tx (without t h mp))
                  (unindexed-Agree t tx (without t h mp)).queue)
        ]
      ]
    where
      removed :
          ((y : Mempool) → (cleanup_loop l expired m (suc n) y).2.priority_queue ≡ y.priority_queue)
          → (r : Bool × Mempool) → r.1.priority_queue ≡ mp.priority_queue
          → (removed_next l (cleanup_loop l expired m) n r).2.priority_queue ≡ mp.priority_queue
      removed again (true, y) e = again y ∙ e
      removed again (false, y) e = e

  counted-queue : (r : Answer × ℕ × Mempool) → (counted l r).2.priority_queue ≡ r.2.priority_queue
  unfolding update_stats
  counted-queue (done, zero, mp) = refl
  counted-queue (done, suc n, mp) = ground arith
  counted-queue (refused e, n, mp) = refl
  counted-queue (panicked, n, mp) = refl

  expired-queue :
      (now : ℕ) (mp : Mempool)
      → (cleanup_expired_transactions l now mp).2.priority_queue ≡ mp.priority_queue
  unfolding cleanup_expired_transactions
  expired-queue now mp = counted-queue _ ∙ cleanup-queue _ mp.transactions 0 mp

  swaps-queue :
      (now : ℕ) (mp : Mempool)
      → (cleanup_expired_swap_orders l now mp).2.priority_queue ≡ mp.priority_queue
  unfolding cleanup_expired_swap_orders
  swaps-queue now mp = counted-queue _ ∙ cleanup-queue _ mp.transactions 0 mp

  Step-queue : {x y : Mempool} → Step l x y → length x.priority_queue ≤ length y.priority_queue
  Step-queue (add a source signed mp small) = add-queue a source signed mp
  Step-queue (remove h mp) = omega (arith, ap length (removal-Shrinks l h mp).queue)
  Step-queue (clean_up now mp) = omega (arith, ap length (expired-queue now mp))
  Step-queue (clean_up_swaps now mp) = omega (arith, ap length (swaps-queue now mp))

  Reach-queue : {x y : Mempool} → Reach l x y → length x.priority_queue ≤ length y.priority_queue
  Reach-queue here = omega arith
  Reach-queue (next r st) = omega (arith, Reach-queue r, Step-queue st)

-- No call ever takes an entry off the priority queue: through additions, removals, evictions and
-- cleanups it never gets shorter, whatever becomes of the transactions.
pub queue_never_shrinks :
    (l : Libraries) (x y : Mempool)
    → AddsOne l
    → Reach l x y
    → length x.priority_queue ≤ length y.priority_queue
queue_never_shrinks l x y law r = Reach-queue l law r

-- What `AddTransaction` has done where it reports no error.
abbrev pub IsAdmitted : Libraries → SignedTransaction → Mempool → Mempool → Type 0
IsAdmitted l signed mp mp' =
    ((t : MempoolTransaction) × (lookup signed.tx_hash mp'.transactions ≡ some t)
      × (t.transaction ≡ signed)
      × (mp'.priority_queue ≡ l.heap_push t mp.priority_queue))
    × (length mp'.transactions ≤ mp'.config.max_transactions)
    × (mp'.stats.transaction_count ≡ length mp'.transactions)

below : (a b : ℕ) → leb a b ≡ false → b < a
below a b h = ground arith

store-IsAdmitted :
    (l : Libraries) (signed : SignedTransaction) (t : MempoolTransaction) (tx : Transaction)
    (mp : Mempool)
    → t.tx_hash ≡ signed.tx_hash
    → t.transaction ≡ signed
    → length mp.transactions < mp.config.max_transactions
    → IsAdmitted l signed mp (store_entry l t tx mp)
unfolding store_entry add_to_indices update_stats
store-IsAdmitted l signed t tx mp named same room = (
  (t, rw (← named) (lookup-insert_self t.tx_hash t mp.transactions), same, refl),
  omega (arith, length-insert t.tx_hash t mp.transactions),
  refl,
)

admit-IsAdmitted :
    (l : Libraries) (a : Arrival) (source : TransactionSource) (signed : SignedTransaction)
    (tx : Transaction) (r : Answer × Mempool)
    → (admit l a source signed tx r).0 ≡ done
    → IsAdmitted l signed r.1 (admit l a source signed tx r).1
admit-IsAdmitted l a source signed tx (refused e, mp) q = absurd (ground arith)
admit-IsAdmitted l a source signed tx (panicked, mp) q = absurd (ground arith)
admit-IsAdmitted l a source signed tx (done, mp) q =
    elim (Bool-cases (leb mp.config.max_transactions (length mp.transactions))) [
      | inl h ↦ absurd (ground arith)
      | inr h ↦
          rw (admit, h)
            (store-IsAdmitted l signed (new_entry l a source signed tx mp.config) tx mp
              (unfold new_entry in refl) (unfold new_entry in refl)
              (below mp.config.max_transactions (length mp.transactions) h))
    ]

-- Where `AddTransaction` reports no error, the transaction is in the pool under its hash and has been
-- pushed to the queue, the pool has no more transactions than are allowed, and the statistics state
-- their number.
pub transaction-IsAdmitted :
    (l : Libraries) (a : Arrival) (source : TransactionSource) (signed : SignedTransaction)
    (mp : Mempool)
    → (add_transaction l a source signed mp).0 ≡ done
    → IsAdmitted l signed mp (add_transaction l a source signed mp).1
unfolding add_transaction
transaction-IsAdmitted l a source signed mp d =
    elim (Option-cases (lookup signed.tx_hash mp.transactions)) [
      | inr (t, q) ↦ absurd (ground arith)
      | inl q ↦ elim (Option-cases (l.parse signed.transaction)) [
        | inl p ↦ absurd (ground arith)
        | inr (tx, p) ↦
            let r = with_room l (l.json_size signed) mp in
            let e : add_transaction l a source signed mp ≡ admit l a source signed tx r =
              rw (add_transaction, q, p) in
            let x = admit-IsAdmitted l a source signed tx r (ap (λ y. y.0) (sym e) ∙ d) in
            subst (λ y. IsAdmitted l signed mp y.1) (sym e)
              (queued r (room-Shrinks l (l.json_size signed) mp).queue
                (admit l a source signed tx r).1 x)
      ]
    ]
  where
    queued :
        (r : Answer × Mempool)
        → r.1.priority_queue ≡ mp.priority_queue
        → (y : Mempool) → IsAdmitted l signed r.1 y
        → IsAdmitted l signed mp y
    queued r e y ((t, there, same, pushed), count, stats) =
        ((t, there, same, pushed ∙ ap (l.heap_push t) e), count, stats)
