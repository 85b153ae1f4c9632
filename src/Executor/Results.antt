-- ===== src/Executor/Results.antt =====
-- `TokenOpResult` of cmd/token_executor.go. Its error text is never set.
use shadowyapparatus.Prelude.{ℕ, Bool, true, Bytes}
use shadowyapparatus.Token.{TokenOpType, TokenOperation}

pub record TokenOpResult : Type 0 where
  pub index : ℕ
  pub op_type : TokenOpType
  pub token_id : Bytes
  pub op_amount : ℕ
  pub from : Bytes
  pub to : Bytes
  pub shadow_locked : ℕ
  pub shadow_released : ℕ
  pub success : Bool

-- The result of an operation that succeeded. The type is that of the operation, as in every case of
-- the switch.
abbrev pub op_result : ℕ → TokenOperation → Bytes → Bytes → ℕ → ℕ → TokenOpResult
op_result index op from to locked released = record {
  index = index;
  op_type = op.op_type;
  token_id = op.token_id;
  op_amount = op.op_amount;
  from = from;
  to = to;
  shadow_locked = locked;
  shadow_released = released;
  success = true;
}
