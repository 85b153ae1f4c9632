-- ===== src/TokenState/Reach.antt =====
-- The states that a run of calls can lead to.
use shadowyapparatus.Prelude.{ℕ, ◌<◌, ◌≢◌, some, [], Bytes, u64_mod}
use shadowyapparatus.Token.{TokenMetadata}
use shadowyapparatus.Dict.{lookup, bytes_key}
use shadowyapparatus.TokenState.{TokenState, Disk, create_token}
use shadowyapparatus.TokenState.Operations.{transfer_token, melt_token}
use shadowyapparatus.TokenState.Validity.{IsValid, IsBacked}
use shadowyapparatus.TokenState.Transfer.{transfer_token-IsValid}
use shadowyapparatus.TokenState.Conservation.{transfer_token-IsBacked}
use shadowyapparatus.TokenState.Melt.{melt_token-IsValid, melt_token-IsBacked}
use shadowyapparatus.TokenState.Creation.{create_token-IsValid, create_token-IsBacked}

-- A call, whatever its outcome. The supply of a new token is a uint64, and a transfer is between two
-- addresses.
pub data Step : TokenState → TokenState → Type 0 where
  create :
      (id : Bytes) (m : TokenMetadata) (s : TokenState)
      → m.total_supply < u64_mod
      → Step s (create_token id (some m) s).1
  transfer :
      (id from to : Bytes) (n : ℕ) (s : TokenState)
      → from ≢ to
      → Step s (transfer_token id from to n s).1
  melt : (id from : Bytes) (n : ℕ) (s : TokenState) → Step s (melt_token id from n s).1

pub data Reach (s : TokenState) : TokenState → Type 0 where
  here : Reach s s
  next : {t u : TokenState} → Reach s t → Step t u → Reach s u

Step-keeps : {s t : TokenState} → Step s t → IsValid s × IsBacked s → IsValid t × IsBacked t
Step-keeps (create id m s h) (v, b) =
    (create_token-IsValid id m s h v, create_token-IsBacked id m s h v b)
Step-keeps (transfer id from to n s h) (v, b) =
    (transfer_token-IsValid id from to n s v, transfer_token-IsBacked id from to n s v b h)
Step-keeps (melt id from n s) (v, b) =
    (melt_token-IsValid id from n s v, melt_token-IsBacked id from n s v b)

-- However creations, transfers between two addresses, and melts follow each other, whether they
-- succeed or fail: from a valid state in which the Shadow locked for each token is, modulo 2 ^ 64, its
-- circulating units times its lock amount, only such states are reached.
pub Reach-IsValid : {s t : TokenState} → IsValid s → IsBacked s → Reach s t → IsValid t × IsBacked t
Reach-IsValid v b here = (v, b)
Reach-IsValid v b (next r st) = Step-keeps st (Reach-IsValid v b r)

-- A state with empty tables is such a state.
pub empty_IsValid :
    (d : Disk)
    → let s : TokenState = record { tokens = []; balances = []; locked_shadow = []; disk = d } in
      IsValid s × IsBacked s
unfolding lookup
empty_IsValid d = (λ id. tt, λ id. tt)
