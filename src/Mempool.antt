-- ===== src/Mempool.antt =====
-- cmd/mempool.go: the transactions that wait for a block, with their indices and the priority queue.
-- Every method holds the mutex throughout, so a call is one step; only the broadcast at the end of
-- `AddTransaction`, which changes nothing here, is outside of it.
-- An int64 is its bit pattern. A `float64` priority is a number that stands in the same order. An
-- entry of the maps and the queue is a copy: an entry is not changed once it is stored.
pub mod Operations
pub mod Sizes
pub mod Eviction
pub mod Invariant
pub mod Limits
pub mod Validators
pub mod Inputs
pub mod Verdict
use shadowyapparatus.Prelude.{
  ℕ, suc, ◌-◌, ◌/◌, Bool, true, false, Option, none, some, List, [], ◌∷◌, ◌++◌, Bytes, bytes, take,
  ltb, ◌==◌, if◌then◌else◌, add64, sub64, length, str_eq,
}
use shadowyapparatus.Dict.{Dict, lookup, insert, erase, bytes_key}
use shadowyapparatus.Transaction.{
  TransactionInput, TransactionOutput, Transaction, SignedTransaction,
}

-- `unknown` is any number that is none of the constants.
pub data TransactionSource : Type 0 where
  source_local source_network source_api unknown : TransactionSource

pub record MempoolTransaction : Type 0 where
  pub transaction : SignedTransaction
  pub tx_hash : Bytes
  pub source : TransactionSource
  pub received_at : ℕ
  pub size : ℕ
  pub fee : ℕ
  pub priority : ℕ
  pub is_validated : Bool
  pub is_rejected : Bool

pub record MempoolConfig : Type 0 where
  pub max_mempool_size : ℕ
  pub max_transactions : ℕ
  pub tx_expiry_time : ℕ
  pub min_fee : ℕ
  pub enable_validation : Bool

pub record MempoolStats : Type 0 where
  pub transaction_count : ℕ
  pub stats_size : ℕ
  pub average_fee : ℕ
  pub valid_transactions : ℕ
  pub invalid_transactions : ℕ
  pub pending_validation : ℕ

-- The index by source has one list for each.
pub record Mempool : Type 0 where
  pub config : MempoolConfig
  pub transactions : Dict Bytes MempoolTransaction
  pub priority_queue : List MempoolTransaction
  pub tx_by_sender : Dict Bytes (List MempoolTransaction)
  pub tx_by_receiver : Dict Bytes (List MempoolTransaction)
  pub tx_by_source : TransactionSource → List MempoolTransaction
  pub total_size : ℕ
  pub stats : MempoolStats

-- The functions of other packages: `json.Unmarshal` of a transaction, the length of `json.Marshal` of
-- a signed one, and `heap.Push` and `heap.Pop` on the queue's array.
pub record Libraries : Type 0 where
  pub parse : Bytes → Option Transaction
  pub json_size : SignedTransaction → ℕ
  pub heap_push : MempoolTransaction → List MempoolTransaction → List MempoolTransaction
  pub heap_pop : List MempoolTransaction → Option (MempoolTransaction × List MempoolTransaction)

pub data MempoolError : Type 0 where
  already_exists unparsable cannot_evict too_many not_found : MempoolError

-- A call ends with an answer or panics.
pub data Answer : Type 0 where
  done : Answer
  refused : MempoolError → Answer
  panicked : Answer

abbrev pub empty_stats : MempoolStats
empty_stats = record {
  transaction_count = 0;
  stats_size = 0;
  average_fee = 0;
  valid_transactions = 0;
  invalid_transactions = 0;
  pending_validation = 0;
}

unfoldable pub new_mempool : MempoolConfig → Mempool
new_mempool config = record {
  config = config;
  transactions = [];
  priority_queue = [];
  tx_by_sender = [];
  tx_by_receiver = [];
  tx_by_source = λ s. [];
  total_size = 0;
  stats = empty_stats;
}

unfoldable pub calculate_fee : MempoolConfig → Transaction → ℕ
calculate_fee config tx = add64 config.min_fee (length tx.outputs)

-- The counts of `updateStats`: valid ones, rejected ones, and the sum of the fees.
unfoldable pub tally : Dict Bytes MempoolTransaction → ℕ × ℕ × ℕ
tally [] = (0, 0, 0)
tally ((h, t) ∷ m) =
    let (valid, invalid, fees) = tally m in
    if t.is_validated
    then if t.is_rejected
      then (valid, suc invalid, add64 t.fee fees)
      else (suc valid, invalid, add64 t.fee fees)
    else (valid, invalid, add64 t.fee fees)

-- The times and the breakdown by source are left out.
unfoldable pub update_stats : Mempool → Mempool
unfolding tally
update_stats mp =
    let (valid, invalid, fees) = tally mp.transactions in
    record mp {
      stats = record {
        transaction_count = length mp.transactions;
        stats_size = mp.total_size;
        average_fee = if length mp.transactions == 0 then 0 else fees / length mp.transactions;
        valid_transactions = valid;
        invalid_transactions = invalid;
        pending_validation = length mp.transactions - valid - invalid;
      };
    }

abbrev pub or_empty : Option (List MempoolTransaction) → List MempoolTransaction
or_empty none = []
or_empty (some ts) = ts

unfoldable pub sender_key : TransactionInput → Bytes
sender_key i =
    if ltb (length i.previous_tx_hash) 8
    then bytes "sender_from_input_unknown"
    else bytes "sender_from_input_" ++ take 8 i.previous_tx_hash

abbrev pub appended :
    Bytes
    → MempoolTransaction
    → Dict Bytes (List MempoolTransaction)
    → Dict Bytes (List MempoolTransaction)
appended k t m = insert k (or_empty (lookup k m) ++ t ∷ []) m

unfoldable pub index_senders :
    List TransactionInput
    → MempoolTransaction
    → Dict Bytes (List MempoolTransaction)
    → Dict Bytes (List MempoolTransaction)
unfolding sender_key
index_senders [] t m = m
index_senders (i ∷ is) t m = index_senders is t (appended (sender_key i) t m)

unfoldable pub index_receivers :
    List TransactionOutput
    → MempoolTransaction
    → Dict Bytes (List MempoolTransaction)
    → Dict Bytes (List MempoolTransaction)
index_receivers [] t m = m
index_receivers (out ∷ outs) t m = index_receivers outs t (appended out.address t m)

abbrev pub same_source : TransactionSource → TransactionSource → Bool
same_source source_local source_local = true
same_source source_network source_network = true
same_source source_api source_api = true
same_source unknown unknown = true
same_source _ _ = false

unfoldable pub add_to_indices : MempoolTransaction → Transaction → Mempool → Mempool
unfolding index_senders index_receivers
add_to_indices t tx mp = record mp {
  tx_by_sender = index_senders tx.inputs t mp.tx_by_sender;
  tx_by_receiver = index_receivers tx.outputs t mp.tx_by_receiver;
  tx_by_source =
      λ s. if same_source s t.source then mp.tx_by_source s ++ t ∷ [] else mp.tx_by_source s;
}

-- The first entry with the same hash goes.
unfoldable pub remove_from_slice : Bytes → List MempoolTransaction → List MempoolTransaction
remove_from_slice h [] = []
remove_from_slice h (t ∷ ts) = elim (str_eq t.tx_hash h) [
  | true ↦ ts
  | false ↦ t ∷ remove_from_slice h ts
]

abbrev pub shortened :
    Bytes → Bytes → Dict Bytes (List MempoolTransaction) → Dict Bytes (List MempoolTransaction)
shortened k h m = elim (lookup k m) [ none ↦ m | some ts ↦ insert k (remove_from_slice h ts) m ]

-- A slice of a previous hash of less than 8 bytes panics: `none`, with what is done so far.
unfoldable pub unindex_senders :
    List TransactionInput
    → Bytes
    → Dict Bytes (List MempoolTransaction)
    → Bool × Dict Bytes (List MempoolTransaction)
unfolding remove_from_slice
unindex_senders [] h m = (true, m)
unindex_senders (i ∷ is) h m =
    if ltb (length i.previous_tx_hash) 8
    then (false, m)
    else unindex_senders is h
        (shortened (bytes "sender_from_input_" ++ take 8 i.previous_tx_hash) h m)

unfoldable pub unindex_receivers :
    List TransactionOutput
    → Bytes
    → Dict Bytes (List MempoolTransaction)
    → Dict Bytes (List MempoolTransaction)
unfolding remove_from_slice
unindex_receivers [] h m = m
unindex_receivers (out ∷ outs) h m = unindex_receivers outs h (shortened out.address h m)

-- Whether it ends without a panic.
unfoldable pub remove_from_indices : MempoolTransaction → Transaction → Mempool → Bool × Mempool
unfolding unindex_senders unindex_receivers
remove_from_indices t tx mp =
    let (ok, senders) = unindex_senders tx.inputs t.tx_hash mp.tx_by_sender in
    if ok
    then (
      true,
      record mp {
        tx_by_sender = senders;
        tx_by_receiver = unindex_receivers tx.outputs t.tx_hash mp.tx_by_receiver;
        tx_by_source = λ s.
            if same_source s t.source
            then remove_from_slice t.tx_hash (mp.tx_by_source s)
            else mp.tx_by_source s;
      },
    )
    else (false, record mp { tx_by_sender = senders })
