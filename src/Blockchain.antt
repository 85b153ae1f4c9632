-- ===== src/Blockchain.antt =====
-- cmd/blockchain.go: the blocks, by hash and by height, the tip, and the token state that they are
-- executed on. Every method holds the mutex throughout, so a call is one step.
pub mod Hash
pub mod Checks
pub mod Adding
pub mod Removal
pub mod Reorganization
pub mod Loading
pub mod Reading
pub mod Merkle
pub mod Links
pub mod Stored
pub mod Ancestor
pub mod Resets
use shadowyapparatus.Prelude.{ℕ, suc, Bool, Option, none, some, List, Bytes}
use shadowyapparatus.Dict.{Dict, erase, insert, bytes_key}
use shadowyapparatus.Address.{Hashes}
use shadowyapparatus.Syndicate.{SyndicateManager}
use shadowyapparatus.Token.{TokenMetadata}
use shadowyapparatus.Transaction.{Transaction, SignedTransaction}
use shadowyapparatus.Executor.Operations.{TokenExecutor}

pub record BlockHeader : Type 0 where
  pub version : ℕ
  pub previous_block_hash : Bytes
  pub merkle_root : Bytes
  pub timestamp : ℕ
  pub height : ℕ
  pub nonce : ℕ
  pub challenge_seed : Bytes
  pub proof_hash : Bytes
  pub farmer_address : Bytes

pub record BlockBody : Type 0 where
  pub transactions : List SignedTransaction
  pub tx_count : ℕ

pub record Block : Type 0 where
  pub header : BlockHeader
  pub body : BlockBody

-- The functions of other packages: SHA-256, the hashes behind an address, and `json.Unmarshal` of a
-- transaction, with `none` for an error.
pub record Outside : Type 0 where
  pub sha256 : Bytes → Bytes
  pub hashes : Hashes
  pub parse : Bytes → Option Transaction

-- The block files by the hash in their names, and how the calls of the file system to come end.
pub record Storage : Type 0 where
  pub files : Dict Bytes Block
  pub outcomes : ℕ → Bool

-- The token state is the executor's. So is the syndicate manager, as long as `own_syndicates` is
-- `none`.
pub record Blockchain : Type 0 where
  pub blocks : Dict Bytes Block
  pub blocks_by_height : Dict ℕ Block
  pub tip_hash : Bytes
  pub tip_height : ℕ
  pub token_executor : TokenExecutor
  pub own_syndicates : Option SyndicateManager
  pub stuck_sync_attempts : ℕ
  pub storage : Storage

-- How the next call of the file system ends, and the outcomes after it.
abbrev pub outcome : Storage → Bool
outcome d = d.outcomes 0

abbrev pub later : Storage → Storage
later d = record d { outcomes = λ n. d.outcomes (suc n) }
