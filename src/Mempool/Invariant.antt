-- ===== src/Mempool/Invariant.antt =====
-- The invariant of the pool of cmd/mempool.go, through every call.
use shadowyapparatus.Prelude.{
  ℕ, zero, suc, ◌%◌, ◌<◌, ◌≡◌, ◌≢◌, inl, inr, refl, sym, ap, ◌∙◌, arith, Bool, true, false, none,
  some, [], ◌∷◌, Bytes, length, leb, u64_mod, add64, Bool-cases, Option-cases,
}
use shadowyapparatus.Dict.{Dict, lookup, bytes_key, IsDistinct, insert-IsDistinct, lookup-erase}
use shadowyapparatus.Transaction.{Transaction, SignedTransaction}
use shadowyapparatus.Mempool.{
  TransactionSource, MempoolTransaction, MempoolConfig, Mempool, Libraries, Answer, done, refused,
  panicked, remove_from_indices, update_stats, add_to_indices, new_mempool,
}
use shadowyapparatus.Mempool.Operations.{
  Arrival, without, remove_transaction_internal, store_entry, new_entry, admit, with_room,
  add_transaction, removed_next, cleanup_loop, cleanup_expired_transactions,
  cleanup_expired_swap_orders, counted,
}
use shadowyapparatus.Mempool.Sizes.{
  sizes, AllNamed, IsSound, Agree, sizes-insert, AllNamed-insert, Agree-IsSound, without-IsSound,
  unindexed-Agree, stats-Agree,
}
use shadowyapparatus.Mempool.Eviction.{room-Shrinks, removal-Shrinks}

tail_lookup :
    (h k : Bytes) (t x : MempoolTransaction) (m : Dict Bytes MempoolTransaction)
    → lookup h m ≡ none
    → lookup k m ≡ some x
    → (lookup k ((h, t) ∷ m) ≡ some x) × (h ≢ k)
unfolding lookup
tail_lookup h k t x m n q = (ground arith, λ e. absurd (cc (e, n, q)))

module _ (l : Libraries) where
  stored-IsSound :
      (t : MempoolTransaction) (tx : Transaction) (mp : Mempool)
      → lookup t.tx_hash mp.transactions ≡ none
      → t.size < u64_mod
      → IsSound mp
      → IsSound (store_entry l t tx mp)
  unfolding store_entry add_to_indices update_stats add64
  stored-IsSound t tx mp n small s = record {
    total = omega (arith, s.total, sizes-insert t.tx_hash t mp.transactions n);
    distinct = insert-IsDistinct t.tx_hash t mp.transactions s.distinct;
    named = AllNamed-insert t mp.transactions small s.named;
  }

  admit-IsSound :
      (a : Arrival) (source : TransactionSource) (signed : SignedTransaction) (tx : Transaction)
      (r : Answer × Mempool)
      → l.json_size signed < u64_mod
      → lookup signed.tx_hash r.1.transactions ≡ none
      → IsSound r.1
      → IsSound (admit l a source signed tx r).1
  admit-IsSound a source signed tx (refused e, mp) small n s = s
  admit-IsSound a source signed tx (panicked, mp) small n s = s
  admit-IsSound a source signed tx (done, mp) small n s =
      elim (Bool-cases (leb mp.config.max_transactions (length mp.transactions))) [
        | inl h ↦ rw (admit, h) s
        | inr h ↦
            rw (admit, h)
              (unfold new_entry in
                stored-IsSound (new_entry l a source signed tx mp.config) tx mp n small s)
      ]

  add-IsSound :
      (a : Arrival) (source : TransactionSource) (signed : SignedTransaction) (mp : Mempool)
      → l.json_size signed < u64_mod
      → IsSound mp
      → IsSound (add_transaction l a source signed mp).1
  unfolding add_transaction
  add-IsSound a source signed mp small s =
      elim (Option-cases (lookup signed.tx_hash mp.transactions)) [
        | inr (t, q) ↦ rw (add_transaction, q) s
        | inl q ↦ elim (Option-cases (l.parse signed.transaction)) [
          | inl p ↦ rw (add_transaction, q, p) s
          | inr (tx, p) ↦
              let size = l.json_size signed in
              let k = room-Shrinks l size mp in
              rw (add_transaction, q, p)
                (admit-IsSound a source signed tx (with_room l size mp) small
                  (k.absent signed.tx_hash q) (k.sound s))
        ]
      ]

  -- The loop of a cleanup, over entries that are still in the pool.
  cleanup-IsSound :
      (expired : MempoolTransaction → Transaction → Bool) (m : Dict Bytes MempoolTransaction)
      (n : ℕ) (mp : Mempool)
      → IsDistinct m
      → ((h : Bytes) (t : MempoolTransaction)
          → lookup h m ≡ some t
          → lookup h mp.transactions ≡ some t)
      → IsSound mp
      → IsSound (cleanup_loop l expired m n mp).2
  unfolding cleanup_loop
  cleanup-IsSound expired [] n mp d i s = s
  cleanup-IsSound expired ((h, t) ∷ m) n mp d i s =
      elim (Option-cases (l.parse t.transaction.transaction)) [
        | inl q ↦ rw (cleanup_loop, q) (cleanup-IsSound expired m n mp d.1 rest s)
        | inr (tx, q) ↦ elim (Bool-cases (expired t tx)) [
          | inr e ↦ rw (cleanup_loop, q, e) (cleanup-IsSound expired m n mp d.1 rest s)
          | inl e ↦
              rw (cleanup_loop, q, e)
                (removed (λ y i' s'. cleanup-IsSound expired m (suc n) y d.1 i' s') tx
                  (remove_from_indices t tx (without t h mp)) refl)
        ]
      ]
    where
      rest :
          (k : Bytes) (x : MempoolTransaction)
          → lookup k m ≡ some x
          → lookup k mp.transactions ≡ some x
      rest k x q = i k x (tail_lookup h k t x m d.0 q).0

      here : lookup h mp.transactions ≡ some t
      here = i h t (unfold lookup in ground arith)

      kept :
          (y : Mempool)
          → Agree (without t h mp) y
          → (k : Bytes) (x : MempoolTransaction) → lookup k m ≡ some x
          → lookup k y.transactions ≡ some x
      kept y agree k x q =
          ap (lookup k) agree.transactions
          ∙ ground
              (arith, lookup-erase k h mp.transactions, rest k x q, (tail_lookup h k t x m d.0 q).1)

      removed :
          ((y : Mempool)
            → ((k : Bytes) (x : MempoolTransaction)
                → lookup k m ≡ some x
                → lookup k y.transactions ≡ some x)
            → IsSound y
            → IsSound (cleanup_loop l expired m (suc n) y).2)
          → (tx : Transaction) → (r : Bool × Mempool)
          → remove_from_indices t tx (without t h mp) ≡ r
          → IsSound (removed_next l (cleanup_loop l expired m) n r).2
      removed again tx (ok, y) e =
          let k = unindexed-Agree t tx (without t h mp) in
          let agree : Agree (without t h mp) y = record {
            transactions = ap (λ r. r.1.transactions) (sym e) ∙ k.transactions;
            total_size = ap (λ r. r.1.total_size) (sym e) ∙ k.total_size;
            queue = ap (λ r. r.1.priority_queue) (sym e) ∙ k.queue;
          } in
          let sound = Agree-IsSound (without t h mp) y agree (without-IsSound t h mp s here) in
          elim ok as (λ b. IsSound (removed_next l (cleanup_loop l expired m) n (b, y)).2) [
            | false ↦ sound
            | true ↦ again y (kept y agree) sound
          ]

  counted-IsSound : (r : Answer × ℕ × Mempool) → IsSound r.2 → IsSound (counted l r).2
  counted-IsSound (done, zero, mp) s = s
  counted-IsSound (done, suc n, mp) s = Agree-IsSound mp (update_stats mp) (stats-Agree mp) s
  counted-IsSound (refused e, n, mp) s = s
  counted-IsSound (panicked, n, mp) s = s

-- A call, whatever its outcome, a panic included. The size of a transaction is an int.
pub data Step (l : Libraries) : Mempool → Mempool → Type 0 where
  add :
      (a : Arrival) (source : TransactionSource) (signed : SignedTransaction) (mp : Mempool)
      → l.json_size signed < u64_mod
      → Step l mp (add_transaction l a source signed mp).1
  remove : (h : Bytes) (mp : Mempool) → Step l mp (remove_transaction_internal l h mp).1
  clean_up : (now : ℕ) (mp : Mempool) → Step l mp (cleanup_expired_transactions l now mp).2
  clean_up_swaps : (now : ℕ) (mp : Mempool) → Step l mp (cleanup_expired_swap_orders l now mp).2

pub data Reach (l : Libraries) (mp : Mempool) : Mempool → Type 0 where
  here : Reach l mp mp
  next : {x y : Mempool} → Reach l mp x → Step l x y → Reach l mp y

Step-IsSound : {l : Libraries} {x y : Mempool} → Step l x y → IsSound x → IsSound y
Step-IsSound {l} (add a source signed mp small) s = add-IsSound l a source signed mp small s
Step-IsSound {l} (remove h mp) s = (removal-Shrinks l h mp).sound s
Step-IsSound {l} (clean_up now mp) s =
    unfold cleanup_expired_transactions in
    counted-IsSound l _ (cleanup-IsSound l _ mp.transactions 0 mp s.distinct (λ h t q. q) s)
Step-IsSound {l} (clean_up_swaps now mp) s =
    unfold cleanup_expired_swap_orders in
    counted-IsSound l _ (cleanup-IsSound l _ mp.transactions 0 mp s.distinct (λ h t q. q) s)

Reach-IsSound : {l : Libraries} {x y : Mempool} → Reach l x y → IsSound x → IsSound y
Reach-IsSound here s = s
Reach-IsSound (next r st) s = Step-IsSound st (Reach-IsSound r s)

-- However transactions are added, removed, evicted and cleaned up, from a new pool on: the total size
-- is the sum of the sizes of the pool's transactions, as an int64, and each stands once, under its
-- own hash.
pub pool_sizes :
    (l : Libraries) (config : MempoolConfig) (mp : Mempool)
    → Reach l (new_mempool config) mp
    → (mp.total_size ≡ sizes mp.transactions % u64_mod)
      × IsDistinct mp.transactions
      × AllNamed mp.transactions
unfolding new_mempool sizes
pool_sizes l config mp r =
    let s = Reach-IsSound r (record { total = refl; distinct = tt; named = tt }) in
    (s.total, s.distinct, s.named)
