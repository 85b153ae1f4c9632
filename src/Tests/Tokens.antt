-- ===== src/Tests/Tokens.antt =====
-- The token state on small inputs.
use shadowyapparatus.Prelude.{
  ◌+◌, ◌^◌, ◌≤◌, ◌<◌, ◌≡◌, ◌≢◌, refl, arith, some, none, bytes_discrete, ℕ_discrete, u64_mod, add64,
  sub64, mul64,
}
use shadowyapparatus.Dict.{lookup, insert, erase, bytes_key}
use shadowyapparatus.Dict.Sum.{amount, sum}
use shadowyapparatus.TokenState.{
  TokenState, Write, ok, balance, create_token, save, create_snapshot, save_state_with_snapshot,
}
use shadowyapparatus.TokenState.Operations.{
  transfer_token, transfer_at, moved, moved_back, melt_token, melt_at, burned,
}
use shadowyapparatus.TokenState.Validity.{IsValid, IsBacked, circulating}
use shadowyapparatus.TokenState.Transfer.{Transfers, transfer_token_lem}
use shadowyapparatus.TokenState.Melt.{Melts, melt_token_lem}
use shadowyapparatus.TokenState.Creation.{Creates, create_token_lem}
use shadowyapparatus.TokenState.Durability.{
  Change, Restores, AreAscii, KeepsAscii, changes_are_durable,
}
use shadowyapparatus.TokenState.Overflow.{create_then_melt}
use shadowyapparatus.TokenState.Reach.{Step, Reach, Reach-IsValid}
use shadowyapparatus.Tests.Data.{
  alice, bob, coin, token, one_token, one_token-IsValid, one_token-IsBacked, no_tokens,
  no_tokens-IsValid,
}

alice-ne-bob : alice ≢ bob
alice-ne-bob = λ e. cc

known : lookup coin (one_token Write.written).tokens ≡ some (token 100 7)
unfolding lookup bytes_discrete ℕ_discrete
known = refl

known_refused : lookup coin (one_token Write.refused).tokens ≡ some (token 100 7)
unfolding lookup bytes_discrete ℕ_discrete
known_refused = refl

transfer_runs : balance coin bob (transfer_token coin alice bob 25 (one_token Write.written)).1 ≡ 65
unfolding transfer_token transfer_at moved balance save lookup insert erase bytes_discrete
    ℕ_discrete create_snapshot save_state_with_snapshot add64 sub64
transfer_runs = refl

transfer_undone :
    balance coin bob (transfer_token coin alice bob 25 (one_token Write.refused)).1 ≡ 40
unfolding transfer_token transfer_at moved moved_back balance save lookup insert erase
    bytes_discrete ℕ_discrete create_snapshot save_state_with_snapshot add64 sub64
transfer_undone = refl

melt_runs : (melt_token coin bob 3 (one_token Write.written)).0 ≡ ok 21
unfolding melt_token melt_at burned balance save lookup insert erase bytes_discrete ℕ_discrete
    create_snapshot save_state_with_snapshot add64 sub64 mul64
melt_runs = refl

transfer_token_lem_example :
    Transfers coin alice bob 25
      (one_token Write.written)
      (transfer_token coin alice bob 25 (one_token Write.written))
transfer_token_lem_example =
    transfer_token_lem coin alice bob 25 (one_token Write.written) (one_token-IsValid Write.written)
      alice-ne-bob

alice_has : 25 ≤ balance coin alice (one_token Write.refused)
unfolding balance lookup bytes_discrete ℕ_discrete
alice_has = omega arith

melt_token_lem_example :
    Melts coin bob 3 (one_token Write.written) (melt_token coin bob 3 (one_token Write.written))
melt_token_lem_example =
    melt_token_lem coin bob 3 (one_token Write.written) (one_token-IsValid Write.written)

create_token_lem_example :
    Creates coin (some (token 100 7)) no_tokens (create_token coin (some (token 100 7)) no_tokens)
create_token_lem_example = create_token_lem coin (some (token 100 7)) no_tokens no_tokens-IsValid

few : circulating coin (one_token Write.written) + 10 < u64_mod
unfolding circulating lookup sum bytes_discrete ℕ_discrete
few = omega arith

transfer_is_done : (transfer_token coin alice bob 25 (one_token Write.written)).0 ≡ ok tt
unfolding transfer_token transfer_at moved balance save lookup insert erase bytes_discrete
    ℕ_discrete create_snapshot save_state_with_snapshot add64 sub64
transfer_is_done = refl

-- A JSON that gives every snapshot back.
copied : KeepsAscii (λ x. some x)
copied x ascii =
    (x, refl, record { tokens = λ id. refl; balances = λ id a. refl; locked = λ id. refl })

abbrev transferred_state : TokenState
transferred_state = (transfer_token coin alice bob 25 (one_token Write.written)).1

transferred_state-AreAscii :
    AreAscii transferred_state.tokens transferred_state.balances transferred_state.locked_shadow
unfolding transfer_token transfer_at moved balance save lookup insert erase bytes_discrete
    ℕ_discrete create_snapshot save_state_with_snapshot add64 sub64
transferred_state-AreAscii = ground arith

reread-KeepsAscii : KeepsAscii transferred_state.disk.reread
unfolding transfer_token transfer_at lookup bytes_discrete balance save
reread-KeepsAscii = copied

changes_are_durable_example : Restores transferred_state
changes_are_durable_example =
    changes_are_durable {s = one_token Write.written} {t = transferred_state} reread-KeepsAscii
      transferred_state-AreAscii
      (Change.transferred coin alice bob 25 (one_token Write.written) transfer_is_done)

new : lookup coin no_tokens.tokens ≡ none
unfolding lookup
new = refl

-- 2 ^ 32 units with 2 ^ 32 satoshis locked for each.
create_then_melt_example :
    let s' = (create_token coin (some (token (2 ^ 32) (2 ^ 32))) no_tokens).1 in
    (amount coin s'.locked_shadow ≡ 0) × ((melt_token coin alice 1 s').0 ≡ ok (2 ^ 32))
create_then_melt_example =
    create_then_melt coin (token (2 ^ 32) (2 ^ 32)) no_tokens no_tokens-IsValid new (omega arith)
      (omega arith) refl (omega arith) (omega arith) refl refl

-- A transfer that fails, and a melt after it.
run :
    Reach
      (one_token Write.refused)
      (melt_token coin bob 3 (transfer_token coin alice bob 25 (one_token Write.refused)).1).1
run =
    Reach.next
      (Reach.next Reach.here
        (Step.transfer coin alice bob 25 (one_token Write.refused) alice-ne-bob))
      (Step.melt coin bob 3 (transfer_token coin alice bob 25 (one_token Write.refused)).1)

Reach-IsValid_example :
    let t =
      (melt_token coin bob 3 (transfer_token coin alice bob 25 (one_token Write.refused)).1).1 in
    IsValid t × IsBacked t
Reach-IsValid_example =
    Reach-IsValid (one_token-IsValid Write.refused) (one_token-IsBacked Write.refused) run
