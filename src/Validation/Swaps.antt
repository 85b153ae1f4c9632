-- ===== src/Validation/Swaps.antt =====
-- `validatePoolSwap` of cmd/transaction.go. `now` is the clock, in nanoseconds since Go's zero time;
-- the four readings of the clock are taken as one.
use shadowyapparatus.Prelude.{
  ℕ, ◌+◌, ◌-◌, ◌*◌, ◌/◌, ltb, ◌==◌, ◌&&◌, not, Option, none, some, [], ◌∷◌, Bytes, bytes, length,
  is_empty, str_eq,
}
use shadowyapparatus.Token.{PoolSwapData, TokenOperation, le_i64}
use shadowyapparatus.Address.{Hashes, is_valid_address, is_valid_l_address}
use shadowyapparatus.Validation.Checks.{
  Refusal, zero_amount, no_metadata, no_pool_swap, empty_pool, bad_pool, empty_input, empty_output,
  same_tokens, input_format, output_format, empty_swapper, bad_swapper, input_mismatch,
  from_mismatch, to_mismatch, high_slippage, expired, late_expiration, both_limits,
  no_creation_time, future_creation, first_of,
}

-- `t.Unix()`, for a time from 1970 on.
abbrev pub unix : ℕ → ℕ
unix t = t / 1000000000 - 62135596800

-- 7 * 24 * time.Hour
abbrev pub seven_days : ℕ
seven_days = 7 * 24 * 3600 * 1000000000

abbrev pub shadow : Bytes
shadow = bytes "SHADOW"

module _ (h : Hashes) (now : ℕ) where
  unfoldable pub check_swap : PoolSwapData → TokenOperation → Option Refusal
  check_swap swap op = first_of (
      (is_empty swap.pool_l_address, empty_pool)
      ∷ (not (is_valid_l_address swap.pool_l_address), bad_pool)
      ∷ (is_empty swap.input_token_id, empty_input)
      ∷ (is_empty swap.output_token_id, empty_output)
      ∷ (str_eq swap.input_token_id swap.output_token_id, same_tokens)
      ∷ (
        not (str_eq swap.input_token_id shadow) && not (length swap.input_token_id == 64),
        input_format,
      )
      ∷ (
        not (str_eq swap.output_token_id shadow) && not (length swap.output_token_id == 64),
        output_format,
      )
      ∷ (is_empty swap.swapper_address, empty_swapper)
      ∷ (not (is_valid_address h swap.swapper_address), bad_swapper)
      ∷ (not (str_eq op.token_id swap.input_token_id), input_mismatch)
      ∷ (not (str_eq op.from swap.swapper_address), from_mismatch)
      ∷ (not (str_eq op.to swap.pool_l_address), to_mismatch)
      ∷ (op.op_amount == 0, zero_amount)
      ∷ (ltb 10000 swap.max_slippage, high_slippage)
      ∷ (not (swap.not_after == 0) && ltb swap.not_after now, expired)
      ∷ (not (swap.not_after == 0) && ltb (now + seven_days) swap.not_after, late_expiration)
      ∷ (swap.all_or_nothing && ltb 0 swap.min_received, both_limits)
      ∷ (swap.creation_time == 0, no_creation_time)
      ∷ (not (le_i64 swap.creation_time (unix now)), future_creation)
      ∷ [])

  unfoldable pub validate_pool_swap : TokenOperation → Option Refusal
  unfolding check_swap
  validate_pool_swap op = elim op.metadata [
    | none ↦ some no_metadata
    | some m ↦ elim m.pool_swap [ none ↦ some no_pool_swap | some swap ↦ check_swap swap op ]
  ]
