-- ===== src/Tests/Chain.antt =====
-- A chain of a genesis block and what is added to it.
use shadowyapparatus.Prelude.{
  ℕ, ◌≡◌, refl, arith, none, some, List, [], ◌∷◌, Bytes, bytes, true, bytes_discrete, ℕ_discrete,
  take, drop, inl,
}
use shadowyapparatus.Dict.{lookup, insert}
use shadowyapparatus.TokenState.{Write}
use shadowyapparatus.TokenState.Reset.{new_token_state, load_state}
use shadowyapparatus.TokenState.Queries.{get_all_token_balances, holdings}
use shadowyapparatus.Syndicate.{update_block_win, new_syndicate_manager}
use shadowyapparatus.Transaction.{SignedTransaction}
use shadowyapparatus.Executor.Operations.{TokenExecutor}
use shadowyapparatus.Blockchain.{Block, Outside, Blockchain}
use shadowyapparatus.Blockchain.Hash.{
  hash, serialize_header, little_endian, hash_field, decoded_prefix, zeros, calculate_merkle_root,
  merkle_of, zero_hash,
}
use shadowyapparatus.Blockchain.Checks.{validate_block, check_parent, check_transactions}
use shadowyapparatus.Blockchain.Adding.{
  added, panicked, BlockSurroundings, add_block, execute_transactions, record_win, store_block,
  put_block, with_tip, save_block, determine_syndicate_winner,
}
use shadowyapparatus.Blockchain.Reorganization.{by_height, find_common_ancestor, reorganize_chain}
use shadowyapparatus.Blockchain.Loading.{nuclear_reset, walk, validate_and_trim_chain, waits}
use shadowyapparatus.Blockchain.Merkle.{with_body, twin_block, merkle_root_total}
use shadowyapparatus.Blockchain.Links.{IsChain, add_block-IsChain}
use shadowyapparatus.Blockchain.Stored.{IsStored, added_block_found}
use shadowyapparatus.Blockchain.Ancestor.{
  IsTopmost, highest_common_ancestor, reorganization_keeps_tokens,
}
use shadowyapparatus.Blockchain.Resets.{broken_chain_waits}
use shadowyapparatus.Tests.Data.{alice, disk}
use shadowyapparatus.Tests.Execution.{calm}

-- A stand-in for the hash: the height and the nonce, as they stand in the header.
abbrev outside : Outside
outside = record {
  sha256 = λ m. take 16 (drop 76 m);
  hashes = record { keccak = λ m. []; shake = λ n m. [] };
  parse = λ m. none;
}

abbrev block_at : ℕ → Bytes → List SignedTransaction → Block
block_at height parent txs = record {
  header = record {
    version = 1;
    previous_block_hash = parent;
    merkle_root = zero_hash;
    timestamp = 0;
    height = height;
    nonce = 5;
    challenge_seed = [];
    proof_hash = [];
    farmer_address = alice;
  };
  body = record { transactions = txs; tx_count = 0 };
}

abbrev genesis : Block
genesis = block_at 0 [] []

abbrev executor : TokenExecutor
executor = record {
  token_state = record {
    tokens = [];
    balances = [];
    locked_shadow = [];
    disk = disk Write.written;
  };
  syndicate_manager = none;
}

abbrev chain_of : Block → Blockchain
chain_of g = record {
  blocks = (hash outside g, g) ∷ [];
  blocks_by_height = (0, g) ∷ [];
  tip_hash = hash outside g;
  tip_height = 0;
  token_executor = executor;
  own_syndicates = none;
  stuck_sync_attempts = 0;
  storage = record { files = []; outcomes = λ n. true };
}

abbrev first_block : Block
first_block = block_at 1 (hash outside genesis) []

abbrev around_block : BlockSurroundings
around_block = record { validated_at = 0; unix_at = 0; won_at = 0; around = λ i. calm }

first_is_added : (add_block outside around_block first_block (chain_of genesis)).0 ≡ added
unfolding add_block validate_block check_parent calculate_merkle_root merkle_of check_transactions
    execute_transactions record_win store_block put_block with_tip save_block hash serialize_header
    little_endian hash_field decoded_prefix zeros lookup insert bytes_discrete ℕ_discrete
first_is_added = refl

abbrev after_first : Blockchain
after_first = (add_block outside around_block first_block (chain_of genesis)).1

add_block-IsChain_example : IsChain after_first
unfolding lookup bytes_discrete ℕ_discrete hash serialize_header little_endian hash_field
    decoded_prefix zeros
add_block-IsChain_example =
    add_block-IsChain outside around_block first_block (chain_of genesis)
      (record { parents = (inl refl, tt); tip = (genesis, refl, refl) }) (inl refl)

added_block_found_example :
    IsStored (hash outside first_block) first_block (chain_of genesis) after_first
added_block_found_example =
    added_block_found outside around_block first_block (chain_of genesis) first_is_added

abbrev signed : Bytes → SignedTransaction
signed id = record {
  transaction = [];
  signature = [];
  tx_hash = id;
  signer_key = [];
  algorithm = [];
  header = record { algorithm = []; header_type = [] };
}

abbrev three : List SignedTransaction
three = signed (bytes "a") ∷ signed (bytes "b") ∷ signed (bytes "c") ∷ []

abbrev last_twice : List SignedTransaction
last_twice = signed (bytes "a") ∷ signed (bytes "b") ∷ signed (bytes "c") ∷ signed (bytes "c") ∷ []

twin_block_example :
    let b = block_at 1 [] three in
    let twin = with_body last_twice [] b in
    (hash outside twin ≡ hash outside b)
    × (calculate_merkle_root outside twin.body.transactions
        ≡ calculate_merkle_root outside b.body.transactions)
twin_block_example =
    twin_block outside (block_at 1 [] three) (signed (bytes "a")) (signed (bytes "b"))
      (signed (bytes "c")) [] [] refl refl

merkle_root_total_example : (r : Bytes) × (calculate_merkle_root outside three ≡ some r)
merkle_root_total_example = merkle_root_total outside three

highest_common_ancestor_example :
    IsTopmost outside 0 0
      (chain_of genesis).blocks_by_height
      (by_height (genesis ∷ first_block ∷ []) [])
      (find_common_ancestor outside (genesis ∷ first_block ∷ []) (chain_of genesis))
highest_common_ancestor_example =
    highest_common_ancestor outside 0 (genesis ∷ first_block ∷ []) (chain_of genesis) (omega arith)

reorganization_keeps_tokens_example :
    (reorganize_chain outside
      (λ i. 0)
      (genesis ∷ first_block ∷ [])
      (chain_of genesis)).1.token_executor
    ≡ executor
reorganization_keeps_tokens_example =
    reorganization_keeps_tokens outside (λ i. 0) (genesis ∷ first_block ∷ []) (chain_of genesis)

-- The tip is said to be at height 1, where no block is.
abbrev broken : Blockchain
broken = record (chain_of genesis) { tip_height = 1 }

broken_chain_waits_example :
    validate_and_trim_chain outside (λ height i. calm) true true broken ≡ waits
unfolding lookup ℕ_discrete walk
broken_chain_waits_example =
    broken_chain_waits outside (λ height i. calm) true broken genesis 0 refl refl (omega arith)

-- The genesis block is not refused then: it is put_block, and the call panics.
genesis_panics :
    (add_block outside around_block genesis (nuclear_reset (chain_of genesis)).1).0 ≡ panicked
unfolding nuclear_reset add_block validate_block check_parent calculate_merkle_root merkle_of
    check_transactions execute_transactions record_win store_block put_block with_tip save_block
    hash serialize_header little_endian hash_field decoded_prefix zeros lookup insert bytes_discrete
    ℕ_discrete new_token_state load_state determine_syndicate_winner get_all_token_balances holdings
    update_block_win new_syndicate_manager
genesis_panics = refl
