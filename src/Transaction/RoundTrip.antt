-- ===== src/Transaction/RoundTrip.antt =====
-- A transaction that is signed by cmd/transaction.go is verified by it, and what both do to its inputs.
use shadowyapparatus.Prelude.{
  ℕ, suc, true, false, ◌≡◌, refl, sym, ap, ◌∙◌, arith, none, some, List, [], ◌∷◌, Bytes,
  bytes_discrete, length, str_eq, take-append,
}
use shadowyapparatus.Address.{Hashes}
use shadowyapparatus.Address.Hex.{hex_encode, hex_decode, hex_decode-encode}
use shadowyapparatus.Transaction.{TransactionInput, Transaction, SignedTransaction}
use shadowyapparatus.Crypto.{
  Mldsa, IsMldsa, key_pair, sign, verify_signature, public_key_hex, fit, zeros, all_zeros,
  public_key_size,
}
use shadowyapparatus.Mempool.Validators.{is_valid, check_inputs}
use shadowyapparatus.Transaction.Signing.{
  done, Json, unscripted, without_scripts, transaction_hash, sign_transaction,
  verify_signed_transaction, signed_with, encoded,
}

str_eq_self : (a : Bytes) → str_eq a a ≡ true
unfolding bytes_discrete
str_eq_self a = ground arith

check_inputs-without_scripts :
    (h : Hashes) (now version : ℕ) (is : List TransactionInput)
    → check_inputs h now version (without_scripts is) ≡ check_inputs h now version is
unfolding check_inputs
check_inputs-without_scripts h now version [] = refl
check_inputs-without_scripts h now version (i ∷ is) =
    rw (check_inputs-without_scripts h now version is)

length-without_scripts : (is : List TransactionInput) → length (without_scripts is) ≡ length is
length-without_scripts [] = refl
length-without_scripts (i ∷ is) = ap suc (length-without_scripts is)

-- Validity does not look at the scripts.
is_valid-unscripted :
    (h : Hashes) (now : ℕ) (tx : Transaction) → is_valid h now (unscripted tx) ≡ is_valid h now tx
unfolding is_valid unscripted
is_valid-unscripted h now tx =
    rw (check_inputs-without_scripts h now tx.version tx.inputs, length-without_scripts tx.inputs)

fit-eq : (n : ℕ) (bs : Bytes) → length bs ≡ n → fit n bs ≡ bs
fit-eq n bs e = rw (sym e) (take-append bs (zeros (length bs)))

module _ (s : Mldsa) (law : IsMldsa s) where
  signs :
      (h : Hashes) (shake128 : ℕ → Bytes → Bytes) (seed pk sk payload sig : Bytes)
      → all_zeros seed ≡ false
      → s.new_key_from_seed seed ≡ some (pk, sk)
      → s.sign_to sk payload ≡ some sig
      → sign s (key_pair h shake128 s seed pk sk) payload ≡ some sig
  unfolding sign key_pair
  signs h shake128 seed pk sk payload sig z k g = ground arith

  verifies :
      (seed pk sk payload sig : Bytes)
      → s.new_key_from_seed seed ≡ some (pk, sk)
      → s.sign_to sk payload ≡ some sig
      → verify_signature s pk payload sig ≡ true
  unfolding verify_signature
  verifies seed pk sk payload sig k g =
      let p = law.public_key seed pk sk k in
      let q = law.signature sk payload sig g in
      let v = law.verified seed pk sk payload sig k g in ground (arith, p.1, p.2, q.1, v)

  module _ (h : Hashes) (json : Json) where
    signer_key_read :
        (shake128 : ℕ → Bytes → Bytes) (seed pk sk : Bytes)
        → s.new_key_from_seed seed ≡ some (pk, sk)
        → hex_decode (public_key_hex (key_pair h shake128 s seed pk sk)) ≡ some pk
    unfolding public_key_hex key_pair
    signer_key_read shake128 seed pk sk k =
        let sound = law.public_key seed pk sk k in
        ap (λ t. hex_decode (hex_encode t)) (fit-eq public_key_size pk sound.1)
        ∙ hex_decode-encode pk sound.0

    verified_steps :
        (now : ℕ) (signed : SignedTransaction) (tx : Transaction) (pk sig : Bytes)
        → hex_decode signed.signature ≡ some sig
        → hex_decode signed.signer_key ≡ some pk
        → verify_signature s pk signed.transaction sig ≡ true
        → json.parse signed.transaction ≡ some tx
        → encoded h (json.marshal (unscripted tx)) ≡ some signed.tx_hash
        → is_valid h now tx ≡ none
        → verify_signed_transaction h json s now signed ≡ done (unscripted tx)
    unfolding verify_signed_transaction transaction_hash
    verified_steps now signed tx pk sig a b v p e ok =
        let u = is_valid-unscripted h now tx ∙ ok in
        let q = str_eq_self signed.tx_hash in ground (arith, u, q)

    -- A transaction that is valid now, and that JSON gives back as it was: signed with the key pair of
    -- a seed, which is not zero and for which the package makes a signature, it is verified with
    -- success. Signing has removed the scripts of its inputs, and the verified transaction has none.
    pub signed_then_verified :
        (shake128 : ℕ → Bytes → Bytes) (seed pk sk payload hashed sig : Bytes) (now : ℕ)
        (tx : Transaction)
        → all_zeros seed ≡ false
        → s.new_key_from_seed seed ≡ some (pk, sk)
        → s.sign_to sk payload ≡ some sig
        → json.marshal tx ≡ some payload
        → json.parse payload ≡ some tx
        → json.marshal (unscripted tx) ≡ some hashed
        → is_valid h now tx ≡ none
        → (signed : SignedTransaction) × (sign_transaction h json s tx
              (key_pair h shake128 s seed pk sk)
            ≡ (done signed, unscripted tx))
          × (verify_signed_transaction h json s now signed ≡ done (unscripted tx))
    unfolding sign_transaction transaction_hash
    signed_then_verified shake128 seed pk sk payload hashed sig now tx z k g m p c v =
        let kp = key_pair h shake128 s seed pk sk in
        let signed = signed_with h json s kp payload sig (hex_encode (h.shake 32 hashed)) in
        let made = signs h shake128 seed pk sk payload sig z k g in
        (
          signed,
          ground (arith, made),
          verified_steps now signed tx pk sig
              (hex_decode-encode sig (law.signature sk payload sig g).0)
              (signer_key_read shake128 seed pk sk k) (verifies seed pk sk payload sig k g) p
              (ap (encoded h) c) v,
        )
