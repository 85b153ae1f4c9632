-- ===== src/Transaction/Signing.antt =====
-- Signing in cmd/transaction.go: the hash of a transaction, `SignTransaction`,
-- `VerifySignedTransaction`, and the key of a wallet. The JSON of a transaction, in both directions, is
-- a parameter.
use shadowyapparatus.Prelude.{
  ℕ, not, ◌==◌, Option, none, some, List, [], ◌∷◌, Bytes, bytes, length, is_empty, str_eq,
  if◌then◌else◌, add64,
}
use shadowyapparatus.Address.{Hashes}
use shadowyapparatus.Address.Hex.{hex_encode, hex_decode}
use shadowyapparatus.Transaction.{
  TransactionInput, TransactionOutput, Transaction, SignedTransaction,
}
use shadowyapparatus.Crypto.{
  Mldsa, KeyPair, sign, verify_signature, public_key_hex, new_key_pair_from_seed,
  new_key_pair_from_private_key, all_zeros, seed_size, private_key_size,
}
use shadowyapparatus.Mempool.Validators.{Rejection, is_valid}

pub data SigningError : Type 0 where
  not_marshalled not_signed not_hashed : SigningError
  bad_signature bad_signer_key not_verified not_parsed hash_mismatch : SigningError
  not_valid : Rejection → SigningError
  bad_wallet : SigningError

pub data Signing (A : Type 0) : Type 0 where
  done : A → Signing A
  failed : SigningError → Signing A

-- The JSON of transactions; a text or a transaction that it cannot take gives none.
pub record Json : Type 0 where
  pub marshal : Transaction → Option Bytes
  pub parse : Bytes → Option Transaction

abbrev pub without_script : TransactionInput → TransactionInput
without_script i = record i { script_sig = [] }

abbrev pub without_scripts : List TransactionInput → List TransactionInput
without_scripts [] = []
without_scripts (i ∷ is) = without_script i ∷ without_scripts is

-- The transaction with no script of any input.
unfoldable pub unscripted : Transaction → Transaction
unscripted tx = record tx { inputs = without_scripts tx.inputs }

unfoldable pub total_from : ℕ → List TransactionOutput → ℕ
total_from total [] = total
total_from total (out ∷ outs) = total_from (add64 total out.value) outs

unfoldable pub total_output_value : Transaction → ℕ
unfolding total_from
total_output_value tx = total_from 0 tx.outputs

abbrev pub encoded : Hashes → Option Bytes → Option Bytes
encoded h none = none
encoded h (some payload) = some (hex_encode (h.shake 32 payload))

module _ (h : Hashes) (json : Json) where
  -- `Hash`. The copy that it clears shares its inputs with the transaction, so these are unscripted too.
  unfoldable pub transaction_hash : Transaction → Option Bytes × Transaction
  unfolding unscripted hex_encode
  transaction_hash tx = (encoded h (json.marshal (unscripted tx)), unscripted tx)

module _ (h : Hashes) (json : Json) (s : Mldsa) where
  -- What both signers put together.
  abbrev pub signed_with : KeyPair → (payload signature tx_hash : Bytes) → SignedTransaction
  signed_with kp payload signature tx_hash = record {
    transaction = payload;
    signature = hex_encode signature;
    tx_hash = tx_hash;
    signer_key = public_key_hex kp;
    algorithm = bytes "ML-DSA-87";
    header = record { algorithm = bytes "ML-DSA-87"; header_type = bytes "shadowy-tx" };
  }

  abbrev pub with_hash :
      KeyPair
      → (payload signature : Bytes) → Option Bytes × Transaction
      → Signing SignedTransaction × Transaction
  with_hash kp payload signature (none, tx) = (failed not_hashed, tx)
  with_hash kp payload signature (some tx_hash, tx) =
      (done (signed_with kp payload signature tx_hash), tx)

  -- The signed transaction, and the transaction as the call leaves it.
  unfoldable pub sign_transaction : Transaction → KeyPair → Signing SignedTransaction × Transaction
  unfolding sign transaction_hash public_key_hex hex_encode
  sign_transaction tx kp = elim (json.marshal tx) [
    | none ↦ (failed not_marshalled, tx)
    | some payload ↦ elim (sign s kp payload) [
      | none ↦ (failed not_signed, tx)
      | some signature ↦ with_hash kp payload signature (transaction_hash h json tx)
    ]
  ]

  -- The checks after the signature.
  abbrev pub check_hash : ℕ → Bytes → Option Bytes × Transaction → Signing Transaction
  check_hash now tx_hash (none, tx) = failed not_hashed
  check_hash now tx_hash (some calculated, tx) =
      if not (str_eq calculated tx_hash)
      then failed hash_mismatch
      else elim (is_valid h now tx) [ none ↦ done tx | some r ↦ failed (not_valid r) ]

  unfoldable pub verify_signed_transaction : ℕ → SignedTransaction → Signing Transaction
  unfolding verify_signature transaction_hash hex_decode is_valid
  verify_signed_transaction now signed = elim (hex_decode signed.signature) [
    | none ↦ failed bad_signature
    | some signature ↦ elim (hex_decode signed.signer_key) [
      | none ↦ failed bad_signer_key
      | some pk ↦
          if not (verify_signature s pk signed.transaction signature)
          then failed not_verified
          else elim (json.parse signed.transaction) [
            | none ↦ failed not_parsed
            | some tx ↦ check_hash now signed.tx_hash (transaction_hash h json tx)
          ]
    ]
  ]

-- A `WalletFile` of cmd/wallet.go.
pub record WalletFile : Type 0 where
  pub name : Bytes
  pub address : Bytes
  pub private_key : Bytes
  pub public_key : Bytes
  pub identifier : Bytes
  pub created_at : ℕ
  pub version : ℕ

module _ (h : Hashes) (shake128 : ℕ → Bytes → Bytes) (s : Mldsa) where
  -- The key that a legacy private key gives has to be the wallet's.
  abbrev pub matching : Bytes → Option KeyPair → Option KeyPair
  matching public_key none = none
  matching public_key (some kp) = if str_eq (public_key_hex kp) public_key then some kp else none

  abbrev pub key_of : WalletFile → Bytes → Option KeyPair
  key_of wallet private_key =
      if length private_key == seed_size
      then if all_zeros private_key then none else new_key_pair_from_seed h shake128 s private_key
      else if length private_key == private_key_size
      then matching wallet.public_key (new_key_pair_from_private_key h shake128 s private_key)
      else none

  -- None: an error.
  unfoldable pub parse_wallet_key : Option WalletFile → Option KeyPair
  unfolding hex_decode new_key_pair_from_seed new_key_pair_from_private_key public_key_hex
  parse_wallet_key none = none
  parse_wallet_key (some wallet) =
      if is_empty wallet.private_key
      then none
      else if is_empty wallet.public_key
      then none
      else if is_empty wallet.address
      then none
      else elim (hex_decode wallet.private_key) [ none ↦ none | some key ↦ key_of wallet key ]

  abbrev pub sign_hashed :
      Json
      → Option KeyPair
      → Bytes
      → Option Bytes × Transaction
      → Signing SignedTransaction × Transaction
  sign_hashed json kp payload (none, tx) = (failed not_hashed, tx)
  sign_hashed json none payload (some tx_hash, tx) = (failed bad_wallet, tx)
  sign_hashed json (some kp) payload (some tx_hash, tx) = elim (sign s kp payload) [
    | none ↦ (failed not_signed, tx)
    | some signature ↦ (done (signed_with h json s kp payload signature tx_hash), tx)
  ]

  unfoldable pub sign_transaction_with_wallet :
      Json → Transaction → Option WalletFile → Signing SignedTransaction × Transaction
  unfolding parse_wallet_key transaction_hash sign
  sign_transaction_with_wallet json tx wallet = elim (json.marshal tx) [
    | none ↦ (failed not_marshalled, tx)
    | some payload ↦ sign_hashed json (parse_wallet_key wallet) payload (transaction_hash h json tx)
  ]
