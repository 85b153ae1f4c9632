-- ===== src/Blockchain/Merkle.antt =====
-- What the Merkle root of cmd/blockchain.go commits to.
use shadowyapparatus.Prelude.{
  ℕ, zero, suc, ◌+◌, ◌*◌, ◌%◌, ◌≤◌, ◌<◌, ◌≡◌, refl, sym, ap, ◌∙◌, arith, some, List, [], ◌∷◌, ◌++◌,
  Bytes, length, map, length-append,
}
use shadowyapparatus.Transaction.{SignedTransaction}
use shadowyapparatus.Blockchain.{Block, Outside}
use shadowyapparatus.Blockchain.Hash.{
  hash, combine, next_level, merkle_loop, merkle_of, calculate_merkle_root, serialize_header,
}

module _ (o : Outside) where
  next_level-length : (xs : List Bytes) → 2 * length (next_level o xs) ≤ suc (length xs)
  unfolding next_level
  next_level-length [] = omega arith
  next_level-length (x ∷ []) = omega arith
  next_level-length (x ∷ y ∷ rest) = omega (arith, next_level-length rest)

  next_level-cons : (x : Bytes) (xs : List Bytes) → 0 < length (next_level o (x ∷ xs))
  unfolding next_level
  next_level-cons x [] = omega arith
  next_level-cons x (y ∷ rest) = omega arith

  merkle_loop-total :
      (fuel : ℕ) (xs : List Bytes)
      → 0 < length xs
      → length xs ≤ suc fuel
      → (r : Bytes) × (merkle_loop o fuel xs ≡ some r)
  unfolding merkle_loop
  merkle_loop-total fuel [] p h = absurd (omega arith)
  merkle_loop-total fuel (x ∷ []) p h = (x, refl)
  merkle_loop-total zero (x ∷ y ∷ rest) p h = absurd (omega arith)
  merkle_loop-total (suc fuel) (x ∷ y ∷ rest) p h =
      merkle_loop-total fuel (next_level o (x ∷ y ∷ rest)) (next_level-cons x (y ∷ rest))
        (omega (arith, next_level-length (x ∷ y ∷ rest)))

  -- More fuel changes nothing.
  merkle_loop-more :
      (k fuel : ℕ) (xs : List Bytes)
      → length xs ≤ suc fuel
      → merkle_loop o (k + fuel) xs ≡ merkle_loop o fuel xs
  unfolding merkle_loop
  merkle_loop-more k fuel [] h = refl
  merkle_loop-more k fuel (x ∷ []) h = refl
  merkle_loop-more k zero (x ∷ y ∷ rest) h = absurd (omega arith)
  merkle_loop-more k (suc fuel) (x ∷ y ∷ rest) h = rw (plus k fuel) (
      merkle_loop-more k fuel (next_level o (x ∷ y ∷ rest))
        (omega (arith, next_level-length (x ∷ y ∷ rest))))
    where
      plus : (a b : ℕ) → a + suc b ≡ suc (a + b)
      plus a b = omega arith

  -- The Merkle root of every list of transactions is found: the loop ends.
  pub merkle_root_total :
      (txs : List SignedTransaction) → (r : Bytes) × (calculate_merkle_root o txs ≡ some r)
  unfolding calculate_merkle_root merkle_of
  merkle_root_total txs = go (map (λ t. t.tx_hash) txs)
    where
      go : (xs : List Bytes) → (r : Bytes) × (merkle_of o xs ≡ some r)
      go [] = (_, refl)
      go (x ∷ xs) = merkle_loop-total (length (x ∷ xs)) (x ∷ xs) (omega arith) (omega arith)

  -- The last of an odd number of hashes may as well be there twice.
  next_level-twice :
      (ys : List Bytes) (x : Bytes)
      → length ys % 2 ≡ 0
      → next_level o (ys ++ x ∷ x ∷ []) ≡ next_level o (ys ++ x ∷ [])
  unfolding next_level
  next_level-twice [] x h = refl
  next_level-twice (y ∷ []) x h = absurd (omega arith)
  next_level-twice (y ∷ z ∷ ys) x h =
      ap (λ l. combine o y z ∷ l) (next_level-twice ys x (omega arith))

  merkle_of-twice :
      (y z : Bytes) (ys : List Bytes) (x : Bytes)
      → length ys % 2 ≡ 0
      → merkle_of o (y ∷ z ∷ ys ++ x ∷ x ∷ []) ≡ merkle_of o (y ∷ z ∷ ys ++ x ∷ [])
  unfolding merkle_of merkle_loop
  merkle_of-twice y z ys x h =
      let level = combine o y z ∷ next_level o (ys ++ x ∷ []) in
      let rounds = suc (length (ys ++ x ∷ [])) in
      let one_more : suc (length (ys ++ x ∷ x ∷ [])) ≡ 1 + rounds =
        omega (arith, length-append ys (x ∷ x ∷ []), length-append ys (x ∷ [])) in
      ap (λ l. merkle_loop o (suc (length (ys ++ x ∷ x ∷ []))) (combine o y z ∷ l))
        (next_level-twice ys x h)
      ∙ ap (λ n. merkle_loop o n level) one_more
      ∙ merkle_loop-more 1 rounds level
          (omega (arith, next_level-length (ys ++ x ∷ []), length-append ys (x ∷ [])))

map-append :
    (xs ys : List SignedTransaction)
    → map (λ t. t.tx_hash) (xs ++ ys) ≡ map (λ t. t.tx_hash) xs ++ map (λ t. t.tx_hash) ys
map-append [] ys = refl
map-append (x ∷ xs) ys = ap (λ l. x.tx_hash ∷ l) (map-append xs ys)

length-map : (xs : List SignedTransaction) → length (map (λ t. t.tx_hash) xs) ≡ length xs
length-map [] = refl
length-map (x ∷ xs) = ap suc (length-map xs)

-- A block with other transactions and another farmer.
abbrev pub with_body : List SignedTransaction → Bytes → Block → Block
with_body txs farmer b = record {
  header = record b.header { farmer_address = farmer };
  body = record { transactions = txs; tx_count = length txs };
}

-- A block with an odd number of transactions, three at least, has a twin with the last of them
-- twice, and with any farmer: the two have the same hash and the same Merkle root.
pub twin_block :
    (o : Outside) (b : Block) (s t u : SignedTransaction) (txs : List SignedTransaction)
    (farmer : Bytes)
    → length txs % 2 ≡ 0
    → b.body.transactions ≡ s ∷ t ∷ txs ++ u ∷ []
    → let twin = with_body (s ∷ t ∷ txs ++ u ∷ u ∷ []) farmer b in
      (hash o twin ≡ hash o b)
      × (calculate_merkle_root o twin.body.transactions
          ≡ calculate_merkle_root o b.body.transactions)
unfolding hash serialize_header calculate_merkle_root
twin_block o b s t u txs farmer even at =
    let hashes = map (λ t. t.tx_hash) txs in
    let even' : length hashes % 2 ≡ 0 = ap (λ n. n % 2) (length-map txs) ∙ even in
    (
      refl,
      ap (λ l. merkle_of o (s.tx_hash ∷ t.tx_hash ∷ l)) (map-append txs (u ∷ u ∷ []))
          ∙ merkle_of-twice o s.tx_hash t.tx_hash hashes u.tx_hash even'
          ∙ sym (ap (λ l. merkle_of o (s.tx_hash ∷ t.tx_hash ∷ l)) (map-append txs (u ∷ [])))
          ∙ sym (ap (λ l. merkle_of o (map (λ t. t.tx_hash) l)) at),
    )
