-- ===== src/Executor/Swap.antt =====
-- What the execution of a swap does to the balances.
use shadowyapparatus.Prelude.{
  ℕ, ◌≡◌, ◌≢◌, refl, sym, ◌∙◌, arith, Bytes, true, false, str_eq, if◌then◌else◌,
}
use shadowyapparatus.Dict.{bytes_key}
use shadowyapparatus.Token.{LiquidityPoolData, PoolSwapData}
use shadowyapparatus.TokenState.{TokenState, Outcome, ok, err, panicked}
use shadowyapparatus.TokenState.Operations.{transfer_token}
use shadowyapparatus.TokenState.Validity.{IsValid, circulating}
use shadowyapparatus.TokenState.Transfer.{transfer_token-IsValid}
use shadowyapparatus.TokenState.Conservation.{transfer_conserves}
use shadowyapparatus.Validation.Swaps.{shadow}
use shadowyapparatus.Executor.Monad.{
  Result, done, failed, crashed, Exec, call, ◌>>=◌, then_on, lifted, pure,
}
use shadowyapparatus.Executor.Pools.{
  swap_in_pool, quote, settle, move_token, swap_output, check_slippage, check_minimum,
}

-- What a part of the executor keeps: validity and every token's circulating amount.
record Keeps (s s' : TokenState) : Type 0 where
  valid : IsValid s → IsValid s'
  conserved : IsValid s → (j : Bytes) → circulating j s' ≡ circulating j s

stays : {s s' : TokenState} → s' ≡ s → Keeps s s'
stays e = record { valid = λ v. rw e v; conserved = λ v j. rw e }

then-Keeps : {r s t : TokenState} → Keeps r s → Keeps s t → Keeps r t
then-Keeps k l = record {
  valid = λ v. l.valid (k.valid v);
  conserved = λ v j. l.conserved (k.valid v) j ∙ k.conserved v j;
}

bind-Keeps :
    {A B : Type 0} (m : Exec A) (f : A → Exec B)
    → ((s : TokenState) → Keeps s (m s).1)
    → ((a : A) (s : TokenState) → Keeps s (f a s).1)
    → (s : TokenState) → Keeps s ((m >>= f) s).1
bind-Keeps {A} m f hm hf s = go (m s) (hm s)
  where
    go : (r : Result A × TokenState) → Keeps s r.1 → Keeps s (then_on f r).1
    go (done a, s') k = then-Keeps k (hf a s')
    go (failed e, s') k = k
    go (crashed, s') k = k

call-Keeps :
    {A : Type 0} (m : TokenState → Outcome A × TokenState) (s : TokenState)
    → Keeps s (m s).1
    → Keeps s (call m s).1
call-Keeps {A} m s k = go (m s) k
  where
    go : (r : Outcome A × TokenState) → Keeps s r.1 → Keeps s (lifted r).1
    go (ok a, s') k = k
    go (err e, s') k = k
    go (panicked, s') k = k

move-Keeps :
    (id from to : Bytes) (n : ℕ)
    → from ≢ to
    → (s : TokenState) → Keeps s (move_token id from to n s).1
unfolding move_token
move-Keeps id from to n ne s =
    elim (str_eq id shadow)
      as (λ b. Keeps s ((if b then pure tt else call (transfer_token id from to n)) s).1) [
        | true ↦ stays refl
        | false ↦ call-Keeps (transfer_token id from to n) s (record {
          valid = transfer_token-IsValid id from to n s;
          conserved = λ v. transfer_conserves id from to n s v ne;
        })
      ]

pub quote_state :
    (swap : PoolSwapData) (pool : LiquidityPoolData) (n : ℕ) (s : TokenState)
    → (quote swap pool n s).1 ≡ s
unfolding quote swap_output check_slippage check_minimum
quote_state swap pool n s = ground arith

settle-Keeps :
    (swap : PoolSwapData) (n out : ℕ)
    → swap.swapper_address ≢ swap.pool_l_address
    → (s : TokenState) → Keeps s (settle swap n out s).1
unfolding settle
settle-Keeps swap n out ne =
    bind-Keeps (move_token swap.input_token_id swap.swapper_address swap.pool_l_address n)
      (λ _. move_token swap.output_token_id swap.pool_l_address swap.swapper_address out)
      (move-Keeps swap.input_token_id swap.swapper_address swap.pool_l_address n ne)
      (λ _.
        move-Keeps swap.output_token_id swap.pool_l_address swap.swapper_address out
          (λ e. ne (sym e)))

-- Whatever its outcome, the execution of a swap in a pool keeps the state valid and changes no token's
-- circulating amount, if the swapper is not the pool.
pub swap_conserves :
    (swap : PoolSwapData) (pool : LiquidityPoolData) (input : ℕ) (s : TokenState)
    → IsValid s
    → swap.swapper_address ≢ swap.pool_l_address
    → let s' = (swap_in_pool swap pool input s).1 in
      IsValid s' × ((j : Bytes) → circulating j s' ≡ circulating j s)
unfolding swap_in_pool
swap_conserves swap pool input s v ne = (k.valid v, k.conserved v)
  where
    k : Keeps s (swap_in_pool swap pool input s).1
    k =
        bind-Keeps (quote swap pool input) (λ out. settle swap input out >>= λ _. pure out)
          (λ t. stays (quote_state swap pool input t))
          (λ out.
            bind-Keeps (settle swap input out) (λ _. pure out) (settle-Keeps swap input out ne)
              (λ _ t. stays refl))
          s
