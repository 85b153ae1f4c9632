-- ===== src/Mempool/Operations.antt =====
-- The methods of cmd/mempool.go that change the pool, and its queries.
use shadowyapparatus.Prelude.{
  ℕ, zero, suc, ◌+◌, Bool, true, false, not, ◌&&◌, Option, none, some, List, [], ◌∷◌, Bytes, ltb,
  leb, ◌==◌, if◌then◌else◌, add64, sub64, length,
}
use shadowyapparatus.Dict.{Dict, lookup, insert, erase, bytes_key}
use shadowyapparatus.Token.{le_i64, TokenOpType, TokenOperation}
use shadowyapparatus.Transaction.{Transaction, SignedTransaction}
use shadowyapparatus.Mempool.{
  TransactionSource, MempoolTransaction, MempoolConfig, Mempool, Libraries, Answer, done, refused,
  panicked, already_exists, unparsable, cannot_evict, too_many, not_found, calculate_fee,
  update_stats, add_to_indices, remove_from_indices,
}

-- What `AddTransaction` meets: the clock, whether the validators reject the transaction, and the
-- priority that comes of fee, size, source and the time that has passed.
pub record Arrival : Type 0 where
  pub now : ℕ
  pub rejected : Bool
  pub priority_of : MempoolTransaction → ℕ

-- Storage and size without an entry.
abbrev pub without : MempoolTransaction → Bytes → Mempool → Mempool
without t h mp = record mp {
  transactions = erase h mp.transactions;
  total_size = sub64 mp.total_size t.size;
}

abbrev pub after_unindexing : Bool × Mempool → Answer × Mempool
after_unindexing (true, mp) = (done, update_stats mp)
after_unindexing (false, mp) = (panicked, mp)

-- The lowest priority of a list, and the first entry that has it, with the others.
unfoldable pub lowest_priority : ℕ → List MempoolTransaction → ℕ
lowest_priority low [] = low
lowest_priority low (t ∷ ts) = lowest_priority (if ltb t.priority low then t.priority else low) ts

unfoldable pub take_first :
    ℕ → List MempoolTransaction → Option (MempoolTransaction × List MempoolTransaction)
take_first low [] = none
take_first low (t ∷ ts) =
    if t.priority == low
    then some (t, ts)
    else (elim (take_first low ts) [ none ↦ none | some (x, rest) ↦ some (x, t ∷ rest) ])

unfoldable pub take_lowest :
    List MempoolTransaction → Option (MempoolTransaction × List MempoolTransaction)
unfolding lowest_priority take_first
take_lowest [] = none
take_lowest (t ∷ ts) = take_first (lowest_priority t.priority ts) (t ∷ ts)

-- `a < b` for int64 values.
abbrev pub lt_i64 : ℕ → ℕ → Bool
lt_i64 a b = not (le_i64 b a)

module _ (l : Libraries) where
  unfoldable pub remove_transaction_internal : Bytes → Mempool → Answer × Mempool
  unfolding remove_from_indices update_stats
  remove_transaction_internal h mp = elim (lookup h mp.transactions) [
    | none ↦ (refused not_found, mp)
    | some t ↦ elim (l.parse t.transaction.transaction) [
      | none ↦ (refused unparsable, mp)
      | some tx ↦ after_unindexing (remove_from_indices t tx (without t h mp))
    ]
  ]

  -- The answer of a removal in the loop is passed over, unless it panics.
  abbrev pub go_on : (Mempool → Answer × ℕ × Mempool) → ℕ → Answer × Mempool → Answer × ℕ × Mempool
  go_on next space (panicked, mp) = (panicked, space, mp)
  go_on next space (done, mp) = next mp
  go_on next space (refused e, mp) = next mp

  -- One round of the loop of `evictTransactions` for an entry of the queue.
  abbrev pub evict_one :
      (ℕ → Mempool → Answer × ℕ × Mempool) → ℕ → MempoolTransaction → Mempool → Answer × ℕ × Mempool
  evict_one next space t mp = elim (lookup t.tx_hash mp.transactions) [
    | none ↦ next space mp
    | some _ ↦
        go_on (next (add64 space t.size)) (add64 space t.size)
          (remove_transaction_internal t.tx_hash mp)
  ]

  -- The loop, on fuel: a round takes an entry off the copy of the queue, so that its length is
  -- enough. The answer, the space that was made, and the pool.
  unfoldable pub evict_loop : ℕ → ℕ → ℕ → List MempoolTransaction → Mempool → Answer × ℕ × Mempool
  unfolding take_lowest remove_transaction_internal
  evict_loop zero needed space queue mp = (done, space, mp)
  evict_loop (suc fuel) needed space queue mp =
      if lt_i64 space needed
      then (elim (take_lowest queue) [
        | none ↦ (done, space, mp)
        | some (t, rest) ↦
            evict_one (λ space' mp'. evict_loop fuel needed space' rest mp') space t mp
      ])
      else (done, space, mp)

  abbrev pub evicted_enough : ℕ → Answer × ℕ × Mempool → Answer × Mempool
  evicted_enough needed (done, space, mp) =
      if lt_i64 space needed then (refused cannot_evict, mp) else (done, mp)
  evicted_enough needed (refused e, space, mp) = (refused e, mp)
  evicted_enough needed (panicked, space, mp) = (panicked, mp)

  unfoldable pub evict_transactions : ℕ → Mempool → Answer × Mempool
  unfolding evict_loop
  evict_transactions needed mp =
      evicted_enough needed (evict_loop (length mp.priority_queue) needed 0 mp.priority_queue mp)

  unfoldable pub new_entry :
      Arrival
      → TransactionSource
      → SignedTransaction
      → Transaction
      → MempoolConfig
      → MempoolTransaction
  unfolding calculate_fee
  new_entry a source signed tx config =
      let entry : MempoolTransaction = record {
        transaction = signed;
        tx_hash = signed.tx_hash;
        source = source;
        received_at = a.now;
        size = l.json_size signed;
        fee = calculate_fee config tx;
        priority = 0;
        is_validated = config.enable_validation;
        is_rejected = config.enable_validation && a.rejected;
      } in
      record entry { priority = a.priority_of entry }

  unfoldable pub store_entry : MempoolTransaction → Transaction → Mempool → Mempool
  unfolding add_to_indices update_stats
  store_entry t tx mp =
      let mp' = add_to_indices t tx (record mp {
        transactions = insert t.tx_hash t mp.transactions;
        total_size = add64 mp.total_size t.size;
      }) in
      update_stats (record mp' { priority_queue = l.heap_push t mp'.priority_queue })

  -- The part of `AddTransaction` below the limit on the size.
  abbrev pub admit :
      Arrival
      → TransactionSource
      → SignedTransaction
      → Transaction
      → Answer × Mempool
      → Answer × Mempool
  admit a source signed tx (refused e, mp) = (refused e, mp)
  admit a source signed tx (panicked, mp) = (panicked, mp)
  admit a source signed tx (done, mp) =
      if leb mp.config.max_transactions (length mp.transactions)
      then (refused too_many, mp)
      else (done, store_entry (new_entry a source signed tx mp.config) tx mp)

  abbrev pub with_room : ℕ → Mempool → Answer × Mempool
  with_room size mp =
      if lt_i64 mp.config.max_mempool_size (add64 mp.total_size size)
      then evict_transactions size mp
      else (done, mp)

  unfoldable pub add_transaction :
      Arrival → TransactionSource → SignedTransaction → Mempool → Answer × Mempool
  unfolding evict_transactions new_entry store_entry
  add_transaction a source signed mp = elim (lookup signed.tx_hash mp.transactions) [
    | some _ ↦ (refused already_exists, mp)
    | none ↦ elim (l.parse signed.transaction) [
      | none ↦ (refused unparsable, mp)
      | some tx ↦ admit a source signed tx (with_room (l.json_size signed) mp)
    ]
  ]

  abbrev pub removed_next :
      (ℕ → Mempool → Answer × ℕ × Mempool) → ℕ → Bool × Mempool → Answer × ℕ × Mempool
  removed_next next n (true, mp) = next (suc n) mp
  removed_next next n (false, mp) = (panicked, n, mp)

  -- The loop of a cleanup over the pool's entries as they were at its start.
  unfoldable pub cleanup_loop :
      (MempoolTransaction → Transaction → Bool)
      → Dict Bytes MempoolTransaction
      → ℕ
      → Mempool
      → Answer × ℕ × Mempool
  unfolding remove_from_indices
  cleanup_loop expired [] n mp = (done, n, mp)
  cleanup_loop expired ((h, t) ∷ m) n mp = elim (l.parse t.transaction.transaction) [
    | none ↦ cleanup_loop expired m n mp
    | some tx ↦
        if expired t tx
        then removed_next (cleanup_loop expired m) n (remove_from_indices t tx (without t h mp))
        else cleanup_loop expired m n mp
  ]

  abbrev pub counted : Answer × ℕ × Mempool → Answer × ℕ × Mempool
  counted (done, zero, mp) = (done, 0, mp)
  counted (done, suc n, mp) = (done, suc n, update_stats mp)
  counted (refused e, n, mp) = (refused e, n, mp)
  counted (panicked, n, mp) = (panicked, n, mp)

  unfoldable pub cleanup_expired_transactions : ℕ → Mempool → Answer × ℕ × Mempool
  unfolding cleanup_loop update_stats
  cleanup_expired_transactions now mp = counted (
      cleanup_loop (λ t tx. ltb (t.received_at + mp.config.tx_expiry_time) now) mp.transactions 0
        mp)

  abbrev is_expired_swap : ℕ → TokenOpType → TokenOperation → Bool
  is_expired_swap now TokenOpType.pool_swap op = elim op.metadata [
    | none ↦ false
    | some m ↦ elim m.pool_swap [
      | none ↦ false
      | some swap ↦ not (swap.not_after == 0) && ltb swap.not_after now
    ]
  ]
  is_expired_swap now _ op = false

  unfoldable pub has_expired_swap : ℕ → List TokenOperation → Bool
  has_expired_swap now [] = false
  has_expired_swap now (op ∷ ops) =
      if is_expired_swap now op.op_type op then true else has_expired_swap now ops

  unfoldable pub cleanup_expired_swap_orders : ℕ → Mempool → Answer × ℕ × Mempool
  unfolding cleanup_loop update_stats has_expired_swap
  cleanup_expired_swap_orders now mp =
      counted (cleanup_loop (λ t tx. has_expired_swap now tx.token_ops) mp.transactions 0 mp)

  abbrev still_there :
      MempoolTransaction → Mempool → List MempoolTransaction → List MempoolTransaction
  still_there t mp ts = elim (lookup t.tx_hash mp.transactions) [ none ↦ ts | some _ ↦ t ∷ ts ]

  -- The loop takes up to `count` entries off a copy of the queue, also those that are gone.
  unfoldable pub highest_from : ℕ → List MempoolTransaction → Mempool → List MempoolTransaction
  highest_from zero queue mp = []
  highest_from (suc count) queue mp = elim (l.heap_pop queue) [
    | none ↦ []
    | some (t, rest) ↦ still_there t mp (highest_from count rest mp)
  ]

  unfoldable pub get_highest_priority_transactions : ℕ → Mempool → List MempoolTransaction
  unfolding highest_from
  get_highest_priority_transactions count mp = highest_from count mp.priority_queue mp
