-- ===== src/Tests/Pooling.antt =====
-- A pool of transactions.
use shadowyapparatus.Prelude.{
  ◌%◌, ◌≡◌, refl, arith, none, some, [], ◌↔◌, true, ◌∷◌, bytes, false, u64_mod, bytes_discrete, ℕ,
  ℕ_discrete, add64,
}
use shadowyapparatus.Dict.{IsDistinct, bytes_key, lookup, insert, erase}
use shadowyapparatus.Transaction.{TransactionInput, Transaction, SignedTransaction}
use shadowyapparatus.Tests.Data.{hashes}
use shadowyapparatus.Mempool.{
  source_api, MempoolConfig, Mempool, Libraries, done, panicked, new_mempool, update_stats, tally,
  add_to_indices, index_senders, index_receivers, remove_from_indices, unindex_senders,
}
use shadowyapparatus.Mempool.Operations.{
  Arrival, add_transaction, new_entry, store_entry, remove_transaction_internal,
}
use shadowyapparatus.Mempool.Sizes.{sizes, AllNamed}
use shadowyapparatus.Mempool.Invariant.{Reach, here, next, add, remove, pool_sizes}
use shadowyapparatus.Mempool.Validators.{double_spend_validator}
use shadowyapparatus.Mempool.Verdict.{rejected-IsAdmitted}
use shadowyapparatus.Mempool.Limits.{IsAdmitted}
use shadowyapparatus.Mempool.Inputs.{AllDiffer, double_spend_validator_iff}

abbrev config : MempoolConfig
config = record {
  max_mempool_size = 100;
  max_transactions = 2;
  tx_expiry_time = 10;
  min_fee = 1;
  enable_validation = false;
}

-- One input, whose previous hash has less than eight bytes.
abbrev parsed : Transaction
parsed = record {
  version = 1;
  inputs =
      record { previous_tx_hash = bytes "short"; output_index = 0; script_sig = []; sequence = 0 }
      ∷ [];
  outputs = [];
  token_ops = [];
  not_until = 0;
  timestamp = 0;
  nonce = 0;
}

-- A heap that keeps its entries as they come.
abbrev libraries : Libraries
libraries = record {
  parse = λ m. some parsed;
  json_size = λ t. 40;
  heap_push = λ t q. t ∷ q;
  heap_pop = λ q. none;
}

abbrev arrival : Arrival
arrival = record { now = 0; rejected = false; priority_of = λ t. 1 }

abbrev signed : SignedTransaction
signed = record {
  transaction = [];
  signature = [];
  tx_hash = bytes "t";
  signer_key = [];
  algorithm = [];
  header = record { algorithm = []; header_type = [] };
}

abbrev with_one : Mempool
with_one = (add_transaction libraries arrival source_api signed (new_mempool config)).1

one_is_added : (add_transaction libraries arrival source_api signed (new_mempool config)).0 ≡ done
unfolding add_transaction new_mempool lookup add64
one_is_added = refl

-- It cannot be removed: the removal panics, after the entry has gone.
removal_panics : (remove_transaction_internal libraries (bytes "t") with_one).0 ≡ panicked
unfolding remove_transaction_internal add_transaction new_mempool lookup insert erase store_entry
    new_entry add_to_indices index_senders index_receivers update_stats tally remove_from_indices
    unindex_senders add64 bytes_discrete ℕ_discrete
removal_panics = refl

abbrev after_removal : Mempool
after_removal = (remove_transaction_internal libraries (bytes "t") with_one).1

one_added : Reach libraries (new_mempool config) with_one
one_added = next here (add arrival source_api signed (new_mempool config) (omega arith))

pool_sizes_example :
    (after_removal.total_size ≡ sizes after_removal.transactions % u64_mod)
    × IsDistinct after_removal.transactions
    × AllNamed after_removal.transactions
pool_sizes_example =
    pool_sizes libraries config after_removal (next one_added (remove (bytes "t") with_one))

-- Three inputs, of which the first and the last are the same.
abbrev input_of : ℕ → TransactionInput
input_of n = record {
  previous_tx_hash = bytes "h";
  output_index = n;
  script_sig = [];
  sequence = n;
}

abbrev doubled : Transaction
doubled = record parsed { inputs = input_of 0 ∷ input_of 1 ∷ input_of 0 ∷ [] }

double_spend_validator_iff_example :
    (double_spend_validator (λ b. some doubled) (λ s. 40) hashes 0 signed ≡ none)
    ↔ AllDiffer doubled.inputs
double_spend_validator_iff_example =
    double_spend_validator_iff (λ b. some doubled) (λ s. 40) hashes 0 signed doubled refl

abbrev checking : Mempool
checking = new_mempool (record config { enable_validation = true })

accepted_is_added :
    (add_transaction libraries (record arrival { rejected = false }) source_api signed checking).0
    ≡ done
unfolding add_transaction new_mempool lookup add64
accepted_is_added = refl

rejected-IsAdmitted_example :
    let r =
      add_transaction libraries (record arrival { rejected = true }) source_api signed checking in
    (r.0 ≡ done) × IsAdmitted libraries signed checking r.1
rejected-IsAdmitted_example =
    rejected-IsAdmitted libraries arrival source_api signed checking accepted_is_added
