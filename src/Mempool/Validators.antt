-- ===== src/Mempool/Validators.antt =====
-- cmd/mempool_validators.go, and `IsValid` of cmd/transaction.go, which the first of them calls.
-- `json.Unmarshal` of a transaction is a parameter, and so is the length of its JSON. An int is its bit
-- pattern.
use shadowyapparatus.Prelude.{
  ℕ, ◌+◌, ◌*◌, ◌^◌, Bool, true, false, not, ◌&&◌, ◌||◌, Option, none, some, List, [], ◌∷◌, ◌++◌,
  Bytes, bytes, is_empty, str_eq, ltb, ◌==◌, if◌then◌else◌, add64, length,
}
use shadowyapparatus.Token.{le_i64}
use shadowyapparatus.Address.{Hashes, is_valid_address}
use shadowyapparatus.Address.Hex.{hex_value}
use shadowyapparatus.Crypto.{signature_size}
use shadowyapparatus.Validation.{validate_token_operations}
use shadowyapparatus.Transaction.Builders.{decimal}
use shadowyapparatus.Validation.Checks.{Refusal}
use shadowyapparatus.Mempool.{MempoolConfig}
use shadowyapparatus.Transaction.{
  TransactionInput, TransactionOutput, Transaction, SignedTransaction,
}

pub data Rejection : Type 0 where
  bad_version no_inputs nothing_to_do not_yet_valid : Rejection
  zero_output bad_output_address no_previous_hash bad_previous_hash : Rejection
  bad_operations : Refusal → Rejection
  no_hash bad_algorithm no_signature no_signer unparsable : Rejection
  signature_length signature_hex future_timestamp old_timestamp : Rejection
  low_output low_total too_large many_inputs many_outputs : Rejection
  double_input address_length address_prefix zero_nonce large_nonce : Rejection

abbrev pub otherwise : Option Rejection → Option Rejection → Option Rejection
otherwise none next = next
otherwise (some r) next = some r

abbrev pub reject_if : Bool → Rejection → Option Rejection
reject_if bad r = if bad then some r else none

abbrev wrapped : Option Refusal → Option Rejection
wrapped none = none
wrapped (some r) = some (bad_operations r)

module _ (h : Hashes) (now : ℕ) where
  unfoldable pub check_outputs : List TransactionOutput → Option Rejection
  unfolding is_valid_address
  check_outputs [] = none
  check_outputs (out ∷ outs) = otherwise (reject_if (out.value == 0) zero_output) (
      otherwise (reject_if (not (is_valid_address h out.address)) bad_output_address)
        (check_outputs outs))

  -- `version > 1`, for an int.
  abbrev after_one : ℕ → Bool
  after_one version = not (le_i64 version 1)

  unfoldable pub check_inputs : ℕ → List TransactionInput → Option Rejection
  check_inputs version [] = none
  check_inputs version (i ∷ is) =
      otherwise (reject_if (is_empty i.previous_tx_hash && after_one version) no_previous_hash) (
        otherwise
          (reject_if (not (length i.previous_tx_hash == 64) && not (is_empty i.previous_tx_hash))
            bad_previous_hash)
          (check_inputs version is))

  -- IsValid
  unfoldable pub is_valid : Transaction → Option Rejection
  unfolding check_outputs check_inputs validate_token_operations
  is_valid tx = otherwise (reject_if (le_i64 tx.version 0) bad_version) (
      otherwise (reject_if (length tx.inputs == 0 && after_one tx.version) no_inputs) (
        otherwise (reject_if (length tx.outputs == 0 && length tx.token_ops == 0) nothing_to_do) (
          otherwise (reject_if (ltb now tx.not_until) not_yet_valid) (
            otherwise (check_outputs tx.outputs) (
              otherwise (check_inputs tx.version tx.inputs)
                (wrapped (validate_token_operations h now tx.token_ops)))))))

abbrev pub parsed_as : Option Transaction → (Transaction → Option Rejection) → Option Rejection
parsed_as none check = some unparsable
parsed_as (some tx) check = check tx

unfoldable pub is_hex_text : Bytes → Bool
unfolding hex_value
is_hex_text [] = true
is_hex_text (c ∷ rest) = elim (hex_value c) [ none ↦ false | some _ ↦ is_hex_text rest ]

-- SignatureValidator: the form alone.
unfoldable pub signature_validator : SignedTransaction → Option Rejection
unfolding is_hex_text
signature_validator signed = otherwise (reject_if (is_empty signed.signature) no_signature) (
    otherwise (reject_if (not (length signed.signature == signature_size * 2)) signature_length)
      (reject_if (not (is_hex_text signed.signature)) signature_hex))

abbrev pub second : ℕ
second = 10 ^ 9

unfoldable pub check_times : ℕ → Transaction → Option Rejection
check_times now tx = otherwise (reject_if (ltb now tx.not_until) not_yet_valid) (
    otherwise (reject_if (ltb (now + 600 * second) tx.timestamp) future_timestamp)
      (reject_if (ltb (tx.timestamp + 86400 * second) now) old_timestamp))

-- The loop of the FeeValidator, with the total so far.
unfoldable pub check_values : ℕ → ℕ → ℕ → List TransactionOutput → Option Rejection
check_values min_fee implicit total [] = reject_if (ltb total implicit) low_total
check_values min_fee implicit total (out ∷ outs) =
    otherwise (reject_if (out.value == 0) zero_output) (
      otherwise (reject_if (ltb out.value min_fee) low_output)
        (check_values min_fee implicit (add64 total out.value) outs))

unfoldable pub check_fee : ℕ → Transaction → Option Rejection
unfolding check_values
check_fee min_fee tx = check_values min_fee (add64 min_fee (length tx.outputs)) 0 tx.outputs

unfoldable pub check_size : Transaction → Option Rejection
check_size tx =
    otherwise (reject_if (ltb 1000 (length tx.inputs)) many_inputs)
      (reject_if (ltb 1000 (length tx.outputs)) many_outputs)

-- `fmt.Sprintf("%s:%d", input.PreviousTxHash, input.OutputIndex)`
unfoldable pub input_key : TransactionInput → Bytes
unfolding decimal
input_key i = i.previous_tx_hash ++ (b':' ∷ decimal i.output_index)

unfoldable pub is_seen : Bytes → List Bytes → Bool
is_seen key [] = false
is_seen key (k ∷ ks) = str_eq key k || is_seen key ks

-- The loop of the DoubleSpendValidator, with the keys that it has seen.
unfoldable pub check_doubles : List Bytes → List TransactionInput → Option Rejection
unfolding is_seen input_key
check_doubles seen [] = none
check_doubles seen (i ∷ is) =
    if is_seen (input_key i) seen then some double_input else check_doubles (input_key i ∷ seen) is

unfoldable pub check_nonce : Transaction → Option Rejection
check_nonce tx =
    otherwise (reject_if (tx.nonce == 0) zero_nonce)
      (reject_if (ltb 0x7fffffffffffffff tx.nonce) large_nonce)

abbrev starts_with_s : Bytes → Bool
starts_with_s [] = false
starts_with_s (c ∷ rest) = c == b'S'

unfoldable pub check_formats : List TransactionOutput → Option Rejection
check_formats [] = none
check_formats (out ∷ outs) =
    otherwise (reject_if (not (length out.address == 51)) address_length)
      (otherwise (reject_if (not (starts_with_s out.address)) address_prefix) (check_formats outs))

unfoldable pub check_addresses : Hashes → List TransactionOutput → Option Rejection
unfolding is_valid_address
check_addresses h [] = none
check_addresses h (out ∷ outs) =
    otherwise (reject_if (not (is_valid_address h out.address)) bad_output_address)
      (check_addresses h outs)

module _ (parse : Bytes → Option Transaction) (json_size : SignedTransaction → ℕ) (h : Hashes)
    (now : ℕ) where
  unfoldable pub basic_validator : SignedTransaction → Option Rejection
  unfolding is_valid
  basic_validator signed = otherwise (reject_if (is_empty signed.tx_hash) no_hash) (
      otherwise (reject_if (not (str_eq signed.algorithm (bytes "ML-DSA-87"))) bad_algorithm) (
        otherwise (reject_if (is_empty signed.signature) no_signature) (
          otherwise (reject_if (is_empty signed.signer_key) no_signer)
            (parsed_as (parse signed.transaction) (is_valid h now)))))

  unfoldable pub temporal_validator : SignedTransaction → Option Rejection
  unfolding check_times
  temporal_validator signed = parsed_as (parse signed.transaction) (check_times now)

  unfoldable pub fee_validator : ℕ → SignedTransaction → Option Rejection
  unfolding check_fee
  fee_validator min_fee signed = parsed_as (parse signed.transaction) (check_fee min_fee)

  unfoldable pub size_validator : ℕ → SignedTransaction → Option Rejection
  unfolding check_size
  size_validator max signed =
      otherwise (reject_if (not (le_i64 (json_size signed) max)) too_large)
        (parsed_as (parse signed.transaction) check_size)

  unfoldable pub double_spend_validator : SignedTransaction → Option Rejection
  unfolding check_doubles
  double_spend_validator signed =
      parsed_as (parse signed.transaction) (λ tx. check_doubles [] tx.inputs)

  unfoldable pub address_validator : SignedTransaction → Option Rejection
  unfolding check_addresses check_formats
  address_validator signed =
      parsed_as (parse signed.transaction)
        (λ tx. otherwise (check_addresses h tx.outputs) (check_formats tx.outputs))

  unfoldable pub nonce_validator : SignedTransaction → Option Rejection
  unfolding check_nonce
  nonce_validator signed = parsed_as (parse signed.transaction) check_nonce

-- The validators that NewMempool installs.
unfoldable pub installed :
    (Bytes → Option Transaction)
    → (SignedTransaction → ℕ)
    → Hashes
    → ℕ
    → MempoolConfig
    → List (SignedTransaction → Option Rejection)
unfolding basic_validator signature_validator temporal_validator fee_validator
installed parse json_size h now config =
    if config.enable_validation
    then basic_validator parse json_size h now
      ∷ signature_validator
      ∷ temporal_validator parse json_size h now
      ∷ fee_validator parse json_size h now config.min_fee
      ∷ []
    else []

-- The validators one after another, as the mempool runs them.
unfoldable pub validate_transaction :
    List (SignedTransaction → Option Rejection) → SignedTransaction → Option Rejection
validate_transaction [] signed = none
validate_transaction (v ∷ vs) signed = otherwise (v signed) (validate_transaction vs signed)
