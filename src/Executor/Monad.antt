-- ===== src/Executor/Monad.antt =====
-- What a call of the executor in cmd/token_executor.go can come to: a result, an error, or a panic;
-- and how the calls follow each other on the token state.
use shadowyapparatus.Prelude.{Bool, if◌then◌else◌}
use shadowyapparatus.TokenState.{TokenState, Error, Outcome, ok, err, panicked}

pub data Failure : Type 0 where
  no_metadata unknown_operation : Failure
  state_error : Error → Failure
  not_an_offer seller_short buyer_short : Failure
  swap_expired pool_not_found wrong_pair : Failure
  insufficient_liquidity no_output_liquidity zero_output : Failure
  slippage_exceeded below_minimum partial_not_implemented : Failure
  not_in_pool shadow_not_accepted no_share_token nothing_to_mint : Failure
  no_miner_address expires_before_joining all_dominant : Failure

pub data Result (A : Type 0) : Type 0 where
  done : A → Result A
  failed : Failure → Result A
  crashed : Result A

abbrev pub Exec : Type 0 → Type 0
Exec A = TokenState → Result A × TokenState

abbrev pub pure : {A : Type 0} → A → Exec A
pure a s = (done a, s)

abbrev pub fail : {A : Type 0} → Failure → Exec A
fail e s = (failed e, s)

abbrev pub crash : {A : Type 0} → Exec A
crash s = (crashed, s)

abbrev pub then_on : {A B : Type 0} → (A → Exec B) → Result A × TokenState → Result B × TokenState
then_on f (done a, s) = f a s
then_on f (failed e, s) = (failed e, s)
then_on f (crashed, s) = (crashed, s)

infixl 5 ◌>>=◌ ◌>>◌
abbrev pub ◌>>=◌ : {A B : Type 0} → Exec A → (A → Exec B) → Exec B
◌>>=◌ m f s = then_on f (m s)

abbrev pub ◌>>◌ : {B : Type 0} → Exec (Unit {0}) → Exec B → Exec B
◌>>◌ m k s = then_on (λ _. k) (m s)

abbrev pub fail_if : Bool → Failure → Exec (Unit {0})
fail_if bad e s = if bad then (failed e, s) else (done tt, s)

abbrev pub read : {A : Type 0} → (TokenState → A) → Exec A
read f s = (done (f s), s)

abbrev pub lifted : {A : Type 0} → Outcome A × TokenState → Result A × TokenState
lifted (ok a, s) = (done a, s)
lifted (err e, s) = (failed (state_error e), s)
lifted (panicked, s) = (crashed, s)

-- A call of a method of the token state.
abbrev pub call : {A : Type 0} → (TokenState → Outcome A × TokenState) → Exec A
call m s = lifted (m s)
