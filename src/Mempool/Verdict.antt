-- ===== src/Mempool/Verdict.antt =====
-- What the verdict of the validators does to `AddTransaction` of cmd/mempool.go.
use shadowyapparatus.Prelude.{◌≡◌, refl, ◌∙◌, arith, true, false, Option-cases, inl, inr}
use shadowyapparatus.Dict.{lookup, bytes_key}
use shadowyapparatus.Transaction.{Transaction, SignedTransaction}
use shadowyapparatus.Mempool.{
  TransactionSource, Mempool, Libraries, Answer, done, refused, panicked,
}
use shadowyapparatus.Mempool.Operations.{Arrival, add_transaction, admit, with_room}
use shadowyapparatus.Mempool.Limits.{IsAdmitted, transaction-IsAdmitted}

admit-answer :
    (l : Libraries) (a b : Arrival) (source : TransactionSource) (signed : SignedTransaction)
    (tx : Transaction) (r : Answer × Mempool)
    → (admit l a source signed tx r).0 ≡ (admit l b source signed tx r).0
admit-answer l a b source signed tx (refused e, mp) = refl
admit-answer l a b source signed tx (panicked, mp) = refl
admit-answer l a b source signed tx (done, mp) = ground arith

add_transaction-answer :
    (l : Libraries) (a b : Arrival) (source : TransactionSource) (signed : SignedTransaction)
    (mp : Mempool)
    → (add_transaction l a source signed mp).0 ≡ (add_transaction l b source signed mp).0
unfolding add_transaction
add_transaction-answer l a b source signed mp =
    elim (Option-cases (lookup signed.tx_hash mp.transactions)) [
      | inr (t, q) ↦ rw (add_transaction, q) refl
      | inl q ↦ elim (Option-cases (l.parse signed.transaction)) [
        | inl p ↦ rw (add_transaction, q, p) refl
        | inr (tx, p) ↦
            rw (add_transaction, q, p)
              (admit-answer l a b source signed tx (with_room l (l.json_size signed) mp))
      ]
    ]

-- A transaction that the validators reject is added without an error wherever the same one is that they
-- accept: it is then in the pool under its hash, and has been pushed to the queue from which blocks are
-- filled.
pub rejected-IsAdmitted :
    (l : Libraries) (a : Arrival) (source : TransactionSource) (signed : SignedTransaction)
    (mp : Mempool)
    → (add_transaction l (record a { rejected = false }) source signed mp).0 ≡ done
    → let r = add_transaction l (record a { rejected = true }) source signed mp in
      (r.0 ≡ done) × IsAdmitted l signed mp r.1
rejected-IsAdmitted l a source signed mp h =
    let e =
      add_transaction-answer l (record a { rejected = true }) (record a { rejected = false }) source
        signed mp
      ∙ h in
    (e, transaction-IsAdmitted l (record a { rejected = true }) source signed mp e)
