-- ===== src/Executor/Steps.antt =====
-- What a completed step of the executor tells of the state that it left.
use shadowyapparatus.Prelude.{
  ℕ, ◌≤◌, ◌≡◌, ◌≢◌, inl, inr, refl, subst, ite, arith, Bytes, bytes_discrete,
}
use shadowyapparatus.TokenState.{TokenState, Outcome, ok, err, panicked, balance}
use shadowyapparatus.TokenState.Operations.{transfer_token}
use shadowyapparatus.TokenState.Queries.{get_token_balance}
use shadowyapparatus.TokenState.Balances.{transferred}
use shadowyapparatus.TokenState.Validity.{IsValid}
use shadowyapparatus.TokenState.Transfer.{transfer_token_lem, transfer_token-IsValid}
use shadowyapparatus.TokenState.Success.{transfer_succeeds_iff}
use shadowyapparatus.Validation.Swaps.{shadow}
use shadowyapparatus.Executor.Monad.{
  Result, done, failed, crashed, Exec, Failure, call, ◌>>=◌, then_on, lifted,
}
use shadowyapparatus.Executor.Pools.{move_token}
use shadowyapparatus.Executor.Trades.{checked_transfer}

-- The parts of a completed sequence.
pub bind_done :
    {A B : Type 0} (m : Exec A) (f : A → Exec B) (s t : TokenState) (b : B)
    → (m >>= f) s ≡ (done b, t)
    → (a : A) × (r : TokenState) × (m s ≡ (done a, r)) × (f a r ≡ (done b, t))
bind_done {A} {B} m f s t b e = go (m s) refl e
  where
    go :
        (r : Result A × TokenState)
        → m s ≡ r
        → then_on f r ≡ (done b, t)
        → (a : A) × (r' : TokenState) × (m s ≡ (done a, r')) × (f a r' ≡ (done b, t))
    go (done a, r') p q = (a, r', p, q)
    go (failed x, r') p q = absurd (cc)
    go (crashed, r') p q = absurd (cc)

pub lifted_done :
    (r : Outcome (Unit {0}) × TokenState) (t : TokenState)
    → lifted r ≡ (done tt, t)
    → (r.0 ≡ ok tt) × (r.1 ≡ t)
lifted_done (ok u, s) t e = (ground arith, cc)
lifted_done (err x, s) t e = absurd (cc)
lifted_done (panicked, s) t e = absurd (cc)

-- The balances of every token after a transfer.
abbrev pub Moves : Bytes → Bytes → Bytes → ℕ → TokenState → TokenState → Type 0
Moves id from to n s t =
    (j a : Bytes)
    → balance j a t
      ≡ ite (bytes_discrete id j) (transferred from to n (λ x. balance id x s) a) (balance j a s)

call_done :
    (id from to : Bytes) (n : ℕ) (s t : TokenState)
    → IsValid s
    → from ≢ to
    → call (transfer_token id from to n) s ≡ (done tt, t)
    → IsValid t × (n ≤ balance id from s) × Moves id from to n s t
call_done id from to n s t v ne e =
    let (o, p) = lifted_done (transfer_token id from to n s) t e in
    (
      subst IsValid p (transfer_token-IsValid id from to n s v),
      ((transfer_succeeds_iff id from to n s v).0 o).2,
      elim (transfer_token_lem id from to n s v ne) [
        | inl (_, moves) ↦ subst (λ k. Moves id from to n s k) p moves
        | inr (x, fails, _) ↦ absurd (cc (o, fails))
      ],
    )

-- A completed transfer of a token that is not SHADOW.
pub move_done :
    (id from to : Bytes) (n : ℕ) (s t : TokenState)
    → IsValid s
    → from ≢ to
    → id ≢ shadow
    → move_token id from to n s ≡ (done tt, t)
    → IsValid t × (n ≤ balance id from s) × Moves id from to n s t
unfolding move_token
move_done id from to n s t v ne token e = call_done id from to n s t v ne (ground arith)

-- A completed transfer after a check of the balance.
pub checked_done :
    (id from to : Bytes) (n : ℕ) (short : Failure) (s t : TokenState)
    → IsValid s
    → from ≢ to
    → checked_transfer id from to n short s ≡ (done tt, t)
    → IsValid t × (n ≤ balance id from s) × Moves id from to n s t
unfolding checked_transfer get_token_balance
checked_done id from to n short s t v ne e = call_done id from to n s t v ne (ground arith)
