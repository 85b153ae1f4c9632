-- ===== src/Transaction.antt =====
-- The transactions of cmd/transaction.go. A `time.Time` is the number of nanoseconds since Go's zero
-- time; a `json.RawMessage` is its bytes.
pub mod Builders
pub mod Built
pub mod Signing
pub mod RoundTrip
use shadowyapparatus.Prelude.{ℕ, List, Bytes}
use shadowyapparatus.Token.{TokenOperation}

pub record TransactionInput : Type 0 where
  pub previous_tx_hash : Bytes
  pub output_index : ℕ
  pub script_sig : Bytes
  pub sequence : ℕ

pub record TransactionOutput : Type 0 where
  pub value : ℕ
  pub script_pub_key : Bytes
  pub address : Bytes

pub record Transaction : Type 0 where
  pub version : ℕ
  pub inputs : List TransactionInput
  pub outputs : List TransactionOutput
  pub token_ops : List TokenOperation
  pub not_until : ℕ
  pub timestamp : ℕ
  pub nonce : ℕ

pub record JoseHeader : Type 0 where
  pub algorithm : Bytes
  pub header_type : Bytes

pub record SignedTransaction : Type 0 where
  pub transaction : Bytes
  pub signature : Bytes
  pub tx_hash : Bytes
  pub signer_key : Bytes
  pub algorithm : Bytes
  pub header : JoseHeader
