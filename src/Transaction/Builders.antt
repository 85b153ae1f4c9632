-- ===== src/Transaction/Builders.antt =====
-- The builders of cmd/transaction.go: the methods that give a transaction its inputs, outputs and
-- token operations. The time of a transaction is from 1970 on.
use shadowyapparatus.Prelude.{
  ℕ, zero, suc, ◌+◌, ◌*◌, ◌/◌, ◌%◌, ◌-◌, ◌^◌, ltb, true, false, none, some, [], ◌∷◌, ◌++◌, Bytes,
  bytes, add64, mul64,
}
use shadowyapparatus.Token.{SyndicateType, PoolSwapData, TokenMetadata, TokenOpType, TokenOperation}
use shadowyapparatus.Address.{Hashes}
use shadowyapparatus.Address.Hex.{hex_encode}
use shadowyapparatus.Validation.Swaps.{unix}
use shadowyapparatus.Transaction.{Transaction}

-- The digits of a number, on fuel that exceeds it.
unfoldable pub decimal_digits : ℕ → ℕ → Bytes → Bytes
decimal_digits zero n acc = acc
decimal_digits (suc fuel) n acc = elim (ltb n 10) [
  | true ↦ (b'0' + n) ∷ acc
  | false ↦ decimal_digits fuel (n / 10) ((b'0' + n % 10) ∷ acc)
]

-- `%d`, of a number that is not negative
unfoldable pub decimal : ℕ → Bytes
unfolding decimal_digits
decimal n = decimal_digits (suc n) n []

-- `UnixNano`, as far as it fits into an int64
abbrev unix_nano : ℕ → ℕ
unix_nano t = t - 62135596800 * 10 ^ 9

-- The readings of the clock are taken as one.
unfoldable pub new_transaction : ℕ → Transaction
new_transaction now = record {
  version = 1;
  inputs = [];
  outputs = [];
  token_ops = [];
  not_until = now;
  timestamp = now;
  nonce = unix_nano now;
}

unfoldable pub add_input : Bytes → ℕ → Transaction → Transaction
add_input prev_tx_hash output_index tx = record tx {
  inputs =
      tx.inputs
      ++ record {
        previous_tx_hash = prev_tx_hash;
        output_index = output_index;
        script_sig = [];
        sequence = 0xFFFFFFFF;
      }
        ∷ [];
}

unfoldable pub add_output : Bytes → ℕ → Transaction → Transaction
add_output address value tx = record tx {
  outputs =
      tx.outputs
      ++ record {
        value = value;
        script_pub_key =
            bytes "OP_DUP OP_HASH160 " ++ (address ++ bytes " OP_EQUALVERIFY OP_CHECKSIG");
        address = address;
      }
        ∷ [];
}

unfoldable pub add_token_operation : TokenOperation → Transaction → Transaction
add_token_operation op tx = record tx { token_ops = tx.token_ops ++ op ∷ [] }

-- Metadata with no payload; the fields that a builder leaves out are zero.
abbrev pub plain_metadata :
    (name ticker : Bytes) → (supply decimals lock : ℕ) → (creator : Bytes) → ℕ → TokenMetadata
plain_metadata name ticker supply decimals lock creator time = record {
  name = name;
  ticker = ticker;
  total_supply = supply;
  decimals = decimals;
  lock_amount = lock;
  creator = creator;
  creation_time = time;
  uri = [];
  trade_offer = none;
  syndicate = none;
  liquidity_pool = none;
  pool_swap = none;
}

-- `String` of a SyndicateType
unfoldable pub syndicate_name : SyndicateType → Bytes
syndicate_name SyndicateType.seiryu = bytes "Seiryu"
syndicate_name SyndicateType.byakko = bytes "Byakko"
syndicate_name SyndicateType.suzaku = bytes "Suzaku"
syndicate_name SyndicateType.genbu = bytes "Genbu"
syndicate_name SyndicateType.auto = bytes "Auto"
syndicate_name SyndicateType.other = bytes "Unknown"

module _ (h : Hashes) where
  unfoldable pub generate_token_id : (name ticker creator : Bytes) → ℕ → Bytes
  unfolding decimal hex_encode
  generate_token_id name ticker creator timestamp = hex_encode (
      h.shake 32
        (name ++ (b':' ∷ (ticker ++ (b':' ∷ (creator ++ (b':' ∷ decimal (unix timestamp))))))))

  unfoldable pub add_token_create :
      (name ticker : Bytes)
      → (total_supply decimals lock_amount : ℕ) → (creator uri : Bytes) → Transaction
      → Transaction
  unfolding generate_token_id add_token_operation
  add_token_create name ticker total_supply decimals lock_amount creator uri tx =
      add_token_operation
        (record {
          op_type = TokenOpType.token_create;
          token_id = generate_token_id name ticker creator tx.timestamp;
          op_amount = total_supply;
          from = [];
          to = creator;
          metadata =
              some
                (record (plain_metadata name ticker total_supply decimals lock_amount creator
                  (unix tx.timestamp)) { uri = uri });
        })
        tx

  unfoldable pub add_token_transfer : Bytes → ℕ → (from to : Bytes) → Transaction → Transaction
  unfolding add_token_operation
  add_token_transfer token_id amount from to tx =
      add_token_operation
        (record {
          op_type = TokenOpType.token_transfer;
          token_id = token_id;
          op_amount = amount;
          from = from;
          to = to;
          metadata = none;
        })
        tx

  unfoldable pub add_pool_swap : PoolSwapData → ℕ → Transaction → Transaction
  unfolding add_token_operation
  add_pool_swap swap input_amount tx =
      add_token_operation
        (record {
          op_type = TokenOpType.pool_swap;
          token_id = swap.input_token_id;
          op_amount = input_amount;
          from = swap.swapper_address;
          to = swap.pool_l_address;
          metadata =
              some (record (plain_metadata [] [] 0 0 0 [] swap.creation_time) {
                pool_swap = some swap;
              });
        })
        tx

  unfoldable pub add_token_melt : Bytes → ℕ → Bytes → Transaction → Transaction
  unfolding add_token_operation
  add_token_melt token_id amount from tx =
      add_token_operation
        (record {
          op_type = TokenOpType.token_melt;
          token_id = token_id;
          op_amount = amount;
          from = from;
          to = [];
          metadata = none;
        })
        tx

  -- `expiration_hours` is an int, that is, its bit pattern.
  unfoldable pub add_trade_offer :
      Bytes
      → (locked_amount asking_price : ℕ) → (asking_token_id seller : Bytes) → ℕ
      → Transaction
      → Transaction
  unfolding generate_token_id add_token_operation add64 mul64
  add_trade_offer locked_token_id locked_amount asking_price asking_token_id seller hours tx =
      add_token_operation
        (record {
          op_type = TokenOpType.trade_offer;
          token_id = generate_token_id (bytes "Trade Offer") (bytes "TRADE") seller tx.timestamp;
          op_amount = 1;
          from = seller;
          to = seller;
          metadata =
              some
                (record (plain_metadata (bytes "Trade Offer") (bytes "TRADE") 1 0 10000000 seller
                  (unix tx.timestamp)) {
                    trade_offer = some (record {
                      locked_token_id = locked_token_id;
                      locked_amount = locked_amount;
                      asking_price = asking_price;
                      asking_token_id = asking_token_id;
                      seller = seller;
                      expiration_time = add64 (unix tx.timestamp) (mul64 hours 3600);
                      creation_time = unix tx.timestamp;
                    });
                  });
        })
        tx

  unfoldable pub add_trade_execute : (offer buyer : Bytes) → Transaction → Transaction
  unfolding add_token_operation
  add_trade_execute offer buyer tx =
      add_token_operation
        (record {
          op_type = TokenOpType.trade_execute;
          token_id = offer;
          op_amount = 1;
          from = buyer;
          to = [];
          metadata = none;
        })
        tx

  unfoldable pub add_syndicate_join :
      SyndicateType → Bytes → (capacity days : ℕ) → Transaction → Transaction
  unfolding generate_token_id add_token_operation add64 mul64 syndicate_name
  add_syndicate_join syndicate miner capacity days tx =
      let guardian = syndicate_name syndicate in
      add_token_operation
        (record {
          op_type = TokenOpType.syndicate_join;
          token_id =
              generate_token_id (bytes "Syndicate " ++ guardian) (bytes "SYN_" ++ guardian) miner
                tx.timestamp;
          op_amount = 1;
          from = miner;
          to = miner;
          metadata =
              some
                (record (plain_metadata (bytes "Syndicate " ++ (guardian ++ bytes " Membership"))
                  (bytes "SYN_" ++ guardian) 1 0 10000000 miner (unix tx.timestamp)) {
                    syndicate = some (record {
                      syndicate = syndicate;
                      miner_address = miner;
                      reported_capacity = capacity;
                      join_time = unix tx.timestamp;
                      expiration_time = add64 (unix tx.timestamp) (mul64 (mul64 days 24) 3600);
                      renewal_count = 0;
                    });
                  });
        })
        tx

  unfoldable pub add_pool_create :
      (token_a token_b : Bytes)
      → (initial_ratio_a initial_ratio_b fee_rate : ℕ) → (creator name ticker : Bytes) → Transaction
      → Transaction
  unfolding generate_token_id add_token_operation
  add_pool_create token_a token_b ratio_a ratio_b fee_rate creator name ticker tx =
      add_token_operation
        (record {
          op_type = TokenOpType.pool_create;
          token_id = generate_token_id name ticker creator tx.timestamp;
          op_amount = 1;
          from = creator;
          to = creator;
          metadata =
              some (record (plain_metadata name ticker 1 0 500000000 creator (unix tx.timestamp)) {
                liquidity_pool = some (record {
                  token_a = token_a;
                  token_b = token_b;
                  initial_ratio_a = ratio_a;
                  initial_ratio_b = ratio_b;
                  fee_rate = fee_rate;
                  l_address = [];
                  share_token_id =
                      generate_token_id (name ++ bytes " Shares") (ticker ++ bytes "_SHARE") creator
                        tx.timestamp;
                  creator = creator;
                  creation_time = unix tx.timestamp;
                });
              });
        })
        tx
