-- ===== src/Executor/Product.antt =====
-- A swap against its formula: what a completed swap did to the pool's balances.
use shadowyapparatus.Prelude.{
  ℕ, ◌+◌, ◌-◌, ◌*◌, ◌≤◌, ◌<◌, ◌≡◌, ◌≢◌, sym, ◌∙◌, arith, Bytes, true, u64_mod, ap,
}
use shadowyapparatus.Dict.{bytes_key}
use shadowyapparatus.Dict.Sum.{amount-nil}
use shadowyapparatus.Token.{LiquidityPoolData, PoolSwapData}
use shadowyapparatus.TokenState.{TokenState, balance}
use shadowyapparatus.TokenState.Queries.{get_token_balance}
use shadowyapparatus.TokenState.Balances.{transferred}
use shadowyapparatus.TokenState.Validity.{IsValid}
use shadowyapparatus.Validation.Swaps.{shadow}
use shadowyapparatus.Executor.Monad.{done, ◌>>=◌, pure}
use shadowyapparatus.Executor.Pools.{
  swap_in_pool, quote, settle, move_token, swap_output, check_slippage, check_minimum, can_swap,
  swap_reserves, get_pool_reserves, reserve, output_of,
}
use shadowyapparatus.Executor.Swap.{quote_state}
use shadowyapparatus.Executor.Steps.{Moves, bind_done, move_done}
use shadowyapparatus.Executor.Price.{constant_product}

-- In a valid state the reserve of a token is the pool's balance, also of an unknown token.
reserve_lem :
    (id : Bytes) (initial : ℕ) (l : Bytes) (s : TokenState)
    → IsValid s
    → id ≢ shadow
    → reserve id initial l s ≡ balance id l s
unfolding reserve get_token_balance balance
reserve_lem id initial l s v ne = ground (arith, v id, amount-nil l)

quote_lem :
    (swap : PoolSwapData) (pool : LiquidityPoolData) (n out : ℕ) (s : TokenState)
    → (quote swap pool n s).0 ≡ done out
    → let r = swap_reserves swap pool s in
      (can_swap swap pool ≡ true) × (out ≡ output_of r.0 r.1 n pool.fee_rate) × (0 < out)
unfolding quote swap_output check_slippage check_minimum
quote_lem swap pool n out s e = ground arith

swap_reserves_lem :
    (swap : PoolSwapData) (pool : LiquidityPoolData) (s : TokenState)
    → IsValid s
    → swap.input_token_id ≢ shadow
    → swap.output_token_id ≢ shadow
    → can_swap swap pool ≡ true
    → swap_reserves swap pool s ≡ (
      balance swap.input_token_id swap.pool_l_address s,
      balance swap.output_token_id swap.pool_l_address s,
    )
unfolding swap_reserves get_pool_reserves can_swap
swap_reserves_lem swap pool s v p q c =
    let l = swap.pool_l_address in
    ground (
      arith,
      reserve_lem swap.input_token_id pool.initial_ratio_a l s v p,
      reserve_lem swap.input_token_id pool.initial_ratio_b l s v p,
      reserve_lem swap.output_token_id pool.initial_ratio_a l s v q,
      reserve_lem swap.output_token_id pool.initial_ratio_b l s v q,
    )

-- The course of a completed swap.
record Course (swap : PoolSwapData) (pool : LiquidityPoolData) (n out : ℕ) (s t : TokenState)
    : Type 0 where
  between : TokenState
  had : n ≤ balance swap.input_token_id swap.swapper_address s
  paid : Moves swap.input_token_id swap.swapper_address swap.pool_l_address n s between
  received : Moves swap.output_token_id swap.pool_l_address swap.swapper_address out between t
  price :
      out
      ≡ output_of
          (balance swap.input_token_id swap.pool_l_address s)
          (balance swap.output_token_id swap.pool_l_address s)
          n
          pool.fee_rate

module _ (swap : PoolSwapData) (pool : LiquidityPoolData) (n out : ℕ) (s t : TokenState)
    (v : IsValid s) (ne : swap.swapper_address ≢ swap.pool_l_address)
    (p : swap.input_token_id ≢ shadow) (q : swap.output_token_id ≢ shadow) where
  settled :
      settle swap n out s ≡ (done tt, t)
      → (r : TokenState) × (n ≤ balance swap.input_token_id swap.swapper_address s)
        × Moves swap.input_token_id swap.swapper_address swap.pool_l_address n s r
        × Moves swap.output_token_id swap.pool_l_address swap.swapper_address out r t
  unfolding settle
  settled e =
      let pay = move_token swap.input_token_id swap.swapper_address swap.pool_l_address n in
      let get = move_token swap.output_token_id swap.pool_l_address swap.swapper_address out in
      let (u, r, first, second) = bind_done pay (λ _. get) s t tt e in
      let (w, had, paid) =
        move_done swap.input_token_id swap.swapper_address swap.pool_l_address n s r v ne p first in
      let (_, _, received) =
        move_done swap.output_token_id swap.pool_l_address swap.swapper_address out r t w
          (λ d. ne (sym d)) q second in
      (r, had, paid, received)

  swap-Course : swap_in_pool swap pool n s ≡ (done out, t) → Course swap pool n out s t
  unfolding swap_in_pool
  swap-Course e =
      let (a, r, quoted, rest) =
        bind_done (quote swap pool n) (λ a. settle swap n a >>= λ _. pure a) s t out e in
      let (u, k, moved, last) = bind_done (settle swap n a) (λ _. pure a) r t out rest in
      let same_out : a ≡ out = ground (arith, last) in
      let same_state : k ≡ t = ground (arith, last) in
      let start : r ≡ s = sym (ap (λ w. w.1) quoted) ∙ quote_state swap pool n s in
      let facts = quote_lem swap pool n out s (ap (λ w. w.0) quoted ∙ ap done same_out) in
      let (between, had, paid, received) = settled (
        ap (λ w. settle swap n w s) (sym same_out)
        ∙ ap (settle swap n a) (sym start)
        ∙ moved
        ∙ ap (λ w. (done u, w)) same_state) in
      record {
        between = between;
        had = had;
        paid = paid;
        received = received;
        price = ground (arith, facts.1, swap_reserves_lem swap pool s v p q facts.0);
      }

-- In a valid state, a completed swap of a positive input, two different tokens other than SHADOW, where
-- the swapper is not the pool, the two products of the formula are below 2 ^ 64 and the fee is at most
-- 10000 basis points: the swapper had the input and has it no more, the pool has it; the pool had the
-- output and has it no more, the swapper has it; and the product of the pool's two balances has not
-- fallen.
pub swap_product :
    (swap : PoolSwapData) (pool : LiquidityPoolData) (n out : ℕ) (s t : TokenState)
    → IsValid s
    → swap.swapper_address ≢ swap.pool_l_address
    → swap.input_token_id ≢ shadow
    → swap.output_token_id ≢ shadow
    → swap.input_token_id ≢ swap.output_token_id
    → swap_in_pool swap pool n s ≡ (done out, t)
    → 0 < n
    → pool.fee_rate ≤ 10000
    → balance swap.output_token_id swap.pool_l_address s * n * 10000 < u64_mod
    → (balance swap.input_token_id swap.pool_l_address s + n) * 10000 < u64_mod
    → let x = balance swap.input_token_id swap.pool_l_address s in
      let y = balance swap.output_token_id swap.pool_l_address s in
      let x' = balance swap.input_token_id swap.pool_l_address t in
      let y' = balance swap.output_token_id swap.pool_l_address t in
      (x' ≡ x + n)
      × (y' + out ≡ y)
      × (balance swap.input_token_id swap.swapper_address t + n
          ≡ balance swap.input_token_id swap.swapper_address s)
      × (balance swap.output_token_id swap.swapper_address t
          ≡ balance swap.output_token_id swap.swapper_address s + out)
      × (x * y ≤ x' * y')
swap_product swap pool n out s t v ne p q r e hn hf hy hx =
    let c = swap-Course swap pool n out s t v ne p q e in
    let i = swap.input_token_id in
    let o = swap.output_token_id in
    let l = swap.pool_l_address in
    let a = swap.swapper_address in
    let bound = constant_product (balance i l s) (balance o l s) n pool.fee_rate hn hf hy hx in
    let in' : balance i l t ≡ balance i l s + n =
      unfold transferred in ground (arith, c.received i l, c.paid i l) in
    let out' : balance o l t ≡ balance o l s - out =
      unfold transferred in ground (arith, c.received o l, c.paid o l) in
    let got : balance o a t ≡ balance o a s + out =
      unfold transferred in ground (arith, c.received o a, c.paid o a) in
    let gone : balance i a t + n ≡ balance i a s =
      unfold transferred in ground (arith, c.received i a, c.paid i a, c.had) in
    let fits : out ≤ balance o l s = rw c.price bound.0 in
    (in', omega (arith, out', fits), gone, got, rw (in', out') (rw c.price bound.1))
