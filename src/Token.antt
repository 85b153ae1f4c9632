-- ===== src/Token.antt =====
-- The data of cmd/transaction.go that concerns tokens: the metadata of a token with the payloads of
-- the special tokens, and the operations that a transaction carries.
-- An int64 is its bit pattern, a number below 2 ^ 64. A `time.Time` is the number of nanoseconds
-- since Go's zero time. A pointer that may be nil is an `Option`.
use shadowyapparatus.Prelude.{ℕ, ◌+◌, ◌%◌, ◌^◌, Bool, Option, Bytes, ltb, not, u64_mod}

pub record TradeOfferData : Type 0 where
  pub locked_token_id : Bytes
  pub locked_amount : ℕ
  pub asking_price : ℕ
  pub asking_token_id : Bytes
  pub seller : Bytes
  pub expiration_time : ℕ
  pub creation_time : ℕ

-- `other` is any number that is none of the constants.
pub data SyndicateType : Type 0 where
  seiryu byakko suzaku genbu auto other : SyndicateType

pub record SyndicateData : Type 0 where
  pub syndicate : SyndicateType
  pub miner_address : Bytes
  pub reported_capacity : ℕ
  pub join_time : ℕ
  pub expiration_time : ℕ
  pub renewal_count : ℕ

pub record LiquidityPoolData : Type 0 where
  pub token_a : Bytes
  pub token_b : Bytes
  pub initial_ratio_a : ℕ
  pub initial_ratio_b : ℕ
  pub fee_rate : ℕ
  pub l_address : Bytes
  pub share_token_id : Bytes
  pub creator : Bytes
  pub creation_time : ℕ

pub record PoolSwapData : Type 0 where
  pub pool_l_address : Bytes
  pub input_token_id : Bytes
  pub output_token_id : Bytes
  pub max_slippage : ℕ
  pub not_after : ℕ
  pub all_or_nothing : Bool
  pub min_received : ℕ
  pub swapper_address : Bytes
  pub creation_time : ℕ

pub record TokenMetadata : Type 0 where
  pub name : Bytes
  pub ticker : Bytes
  pub total_supply : ℕ
  pub decimals : ℕ
  pub lock_amount : ℕ
  pub creator : Bytes
  pub creation_time : ℕ
  pub uri : Bytes
  pub trade_offer : Option TradeOfferData
  pub syndicate : Option SyndicateData
  pub liquidity_pool : Option LiquidityPoolData
  pub pool_swap : Option PoolSwapData

pub data TokenOpType : Type 0 where
  token_create token_transfer token_melt trade_offer trade_execute : TokenOpType
  syndicate_join pool_create pool_swap unknown : TokenOpType

pub record TokenOperation : Type 0 where
  pub op_type : TokenOpType
  pub token_id : Bytes
  pub op_amount : ℕ
  pub from : Bytes
  pub to : Bytes
  pub metadata : Option TokenMetadata

-- `a <= b` for int64 values.
abbrev pub le_i64 : ℕ → ℕ → Bool
le_i64 a b = not (ltb ((b + 2 ^ 63) % u64_mod) ((a + 2 ^ 63) % u64_mod))
