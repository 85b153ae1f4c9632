-- ===== src/Mempool/Sizes.antt =====
-- The size that cmd/mempool.go keeps of its transactions, whatever comes and goes.
use shadowyapparatus.Prelude.{
  ℕ, ◌+◌, ◌%◌, ◌<◌, ◌≡◌, refl, sym, subst, arith, none, some, [], ◌∷◌, Bytes, u64_mod, sub64,
}
use shadowyapparatus.Dict.{
  Dict, lookup, insert, erase, bytes_key, IsDistinct, erase-IsDistinct, erase-eq,
}
use shadowyapparatus.Transaction.{Transaction}
use shadowyapparatus.Mempool.{MempoolTransaction, Mempool, remove_from_indices, update_stats}
use shadowyapparatus.Mempool.Operations.{without}

unfoldable pub sizes : Dict Bytes MempoolTransaction → ℕ
sizes [] = 0
sizes ((h, t) ∷ m) = t.size + sizes m

-- Every entry stands under its own hash, and its size is an int.
abbrev pub AllNamed : Dict Bytes MempoolTransaction → Type 0
AllNamed [] = Unit
AllNamed ((h, t) ∷ m) = ((t.tx_hash ≡ h) × (t.size < u64_mod)) × AllNamed m

pub record IsSound (mp : Mempool) : Type 0 where
  pub total : mp.total_size ≡ sizes mp.transactions % u64_mod
  pub distinct : IsDistinct mp.transactions
  pub named : AllNamed mp.transactions

pub sizes-insert :
    (h : Bytes) (t : MempoolTransaction) (m : Dict Bytes MempoolTransaction)
    → lookup h m ≡ none
    → sizes (insert h t m) ≡ t.size + sizes m
unfolding sizes insert lookup
sizes-insert h t [] n = omega arith
sizes-insert h t ((k, x) ∷ m) n = ground (arith, sizes-insert h t m)

pub sizes-erase :
    (h : Bytes) (t : MempoolTransaction) (m : Dict Bytes MempoolTransaction)
    → IsDistinct m
    → lookup h m ≡ some t
    → t.size + sizes (erase h m) ≡ sizes m
unfolding sizes erase lookup
sizes-erase h t [] d n = ground arith
sizes-erase h t ((k, x) ∷ m) d n = ground (arith, sizes-erase h t m, erase-eq h m)

pub named-lookup :
    (h : Bytes) (t : MempoolTransaction) (m : Dict Bytes MempoolTransaction)
    → AllNamed m
    → lookup h m ≡ some t
    → (t.tx_hash ≡ h) × (t.size < u64_mod)
unfolding lookup
named-lookup h t [] a q = ground arith
named-lookup h t ((k, x) ∷ m) a q = ground (arith, named-lookup h t m a.1)

pub AllNamed-erase :
    (h : Bytes) (m : Dict Bytes MempoolTransaction) → AllNamed m → AllNamed (erase h m)
unfolding erase
AllNamed-erase h [] a = tt
AllNamed-erase h ((k, x) ∷ m) a = ground (arith, AllNamed-erase h m a.1)

pub AllNamed-insert :
    (t : MempoolTransaction) (m : Dict Bytes MempoolTransaction)
    → t.size < u64_mod
    → AllNamed m
    → AllNamed (insert t.tx_hash t m)
unfolding insert
AllNamed-insert t [] s a = ((refl, s), tt)
AllNamed-insert t ((k, x) ∷ m) s a = ground (arith, AllNamed-insert t m s a.1)

-- The parts of a pool that the sizes depend on.
pub record Agree (x y : Mempool) : Type 0 where
  pub transactions : y.transactions ≡ x.transactions
  pub total_size : y.total_size ≡ x.total_size
  pub queue : y.priority_queue ≡ x.priority_queue

pub Agree-IsSound : (x y : Mempool) → Agree x y → IsSound x → IsSound y
Agree-IsSound x y a s = record {
  total = ground (arith, a.transactions, a.total_size, s.total);
  distinct = subst IsDistinct (sym a.transactions) s.distinct;
  named = subst AllNamed (sym a.transactions) s.named;
}

pub without-IsSound :
    (t : MempoolTransaction) (h : Bytes) (mp : Mempool)
    → IsSound mp
    → lookup h mp.transactions ≡ some t
    → IsSound (without t h mp)
unfolding sub64
without-IsSound t h mp s q = record {
  total = omega (
    arith,
    s.total,
    sizes-erase h t mp.transactions s.distinct q,
    (named-lookup h t mp.transactions s.named q).1,
  );
  distinct = erase-IsDistinct h mp.transactions s.distinct;
  named = AllNamed-erase h mp.transactions s.named;
}

pub unindexed-Agree :
    (t : MempoolTransaction) (tx : Transaction) (mp : Mempool)
    → Agree mp (remove_from_indices t tx mp).1
unfolding remove_from_indices
unindexed-Agree t tx mp = record {
  transactions = ground arith;
  total_size = ground arith;
  queue = ground arith;
}

pub stats-Agree : (mp : Mempool) → Agree mp (update_stats mp)
unfolding update_stats
stats-Agree mp = record {
  transactions = ground arith;
  total_size = ground arith;
  queue = ground arith;
}
