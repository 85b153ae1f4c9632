-- ===== src/TokenState/Durability.antt =====
-- What the file holds: loading it after a call that succeeded gives the state that the call left.
-- And the one call that never returns.
use shadowyapparatus.Prelude.{
  ℕ, ◌<◌, ◌≡◌, refl, arith, Option, none, some, List, [], ◌∷◌, ◌++◌, Bytes, Bool, true, false,
  if◌then◌else◌,
}
use shadowyapparatus.Token.{
  TokenMetadata, TradeOfferData, SyndicateData, LiquidityPoolData, PoolSwapData,
}
use shadowyapparatus.Dict.{Dict, lookup, bytes_key}
use shadowyapparatus.Dict.Sum.{amount}
use shadowyapparatus.TokenState.{
  TokenState, TokenStateSnapshot, holds, ok, save, create_token, registered, balance, balances_of,
}
use shadowyapparatus.TokenState.Operations.{
  transfer_token, transfer_at, melt_token, melt_at, mint_tokens_to,
}
use shadowyapparatus.TokenState.Reset.{load_state, blocked, returns, reset_to_genesis, cleared}

-- The texts in the metadata of a token.
abbrev pub offer_texts : Option TradeOfferData → List Bytes
offer_texts none = []
offer_texts (some d) = d.locked_token_id ∷ d.asking_token_id ∷ d.seller ∷ []

abbrev pub syndicate_texts : Option SyndicateData → List Bytes
syndicate_texts none = []
syndicate_texts (some d) = d.miner_address ∷ []

abbrev pub pool_texts : Option LiquidityPoolData → List Bytes
pool_texts none = []
pool_texts (some d) = d.token_a ∷ d.token_b ∷ d.l_address ∷ d.share_token_id ∷ d.creator ∷ []

abbrev pub swap_texts : Option PoolSwapData → List Bytes
swap_texts none = []
swap_texts (some d) =
    d.pool_l_address ∷ d.input_token_id ∷ d.output_token_id ∷ d.swapper_address ∷ []

abbrev pub texts : TokenMetadata → List Bytes
texts m =
    m.name
    ∷ m.ticker
    ∷ m.creator
    ∷ m.uri
    ∷ (offer_texts m.trade_offer
        ++ (syndicate_texts m.syndicate ++ (pool_texts m.liquidity_pool ++ swap_texts m.pool_swap)))

-- Of ASCII characters only, which JSON gives back as they are.
abbrev pub IsAscii : Bytes → Type 0
IsAscii [] = Unit
IsAscii (c ∷ cs) = (c < 128) × IsAscii cs

abbrev pub AllAscii : List Bytes → Type 0
AllAscii [] = Unit
AllAscii (s ∷ rest) = IsAscii s × AllAscii rest

abbrev pub keys : {A : Type 0} → Dict Bytes A → List Bytes
keys [] = []
keys ((k, x) ∷ m) = k ∷ keys m

abbrev pub AllTokensAscii : Dict Bytes TokenMetadata → Type 0
AllTokensAscii [] = Unit
AllTokensAscii ((k, m) ∷ rest) = AllAscii (k ∷ texts m) × AllTokensAscii rest

abbrev pub AllBalancesAscii : Dict Bytes (Dict Bytes ℕ) → Type 0
AllBalancesAscii [] = Unit
AllBalancesAscii ((k, m) ∷ rest) = AllAscii (k ∷ keys m) × AllBalancesAscii rest

-- Tables in whose texts no character is out of ASCII.
abbrev pub AreAscii : Dict Bytes TokenMetadata → Dict Bytes (Dict Bytes ℕ) → Dict Bytes ℕ → Type 0
AreAscii tokens balances locked =
    AllTokensAscii tokens × AllBalancesAscii balances × AllAscii (keys locked)

-- The same entries in each table, whatever their order.
pub record SameEntries (x y : TokenStateSnapshot) : Type 0 where
  pub tokens : (id : Bytes) → lookup id y.tokens ≡ lookup id x.tokens
  pub balances :
      (id a : Bytes)
      → amount a (balances_of (lookup id y.balances))
        ≡ amount a (balances_of (lookup id x.balances))
  pub locked : (id : Bytes) → lookup id y.locked_shadow ≡ lookup id x.locked_shadow

-- JSON gives the entries of a snapshot back where its texts are ASCII.
abbrev pub KeepsAscii : (TokenStateSnapshot → Option TokenStateSnapshot) → Type 0
KeepsAscii reread =
    (x : TokenStateSnapshot)
    → AreAscii x.tokens x.balances x.locked_shadow
    → (y : TokenStateSnapshot) × (reread x ≡ some y) × SameEntries x y

-- The state that a load leaves has the entries of the state before.
abbrev pub Restores : TokenState → Type 0
Restores s =
    (s' : TokenState) × (load_state s ≡ some s')
    × (s'.disk ≡ s.disk)
    × ((id : Bytes) → lookup id s'.tokens ≡ lookup id s.tokens)
    × ((id a : Bytes) → balance id a s' ≡ balance id a s)
    × ((id : Bytes) → lookup id s'.locked_shadow ≡ lookup id s.locked_shadow)

-- The file has a snapshot of the state.
IsWritten : TokenState → Type 0
IsWritten s =
    (now : ℕ) × (s.disk.file
      ≡ holds (record {
        tokens = s.tokens;
        balances = s.balances;
        locked_shadow = s.locked_shadow;
        timestamp = now;
        block_height = 0;
      }))

save-IsWritten : (s : TokenState) → (save s).0 ≡ true → IsWritten (save s).1
unfolding save IsWritten
save-IsWritten s h = ((s.disk.moments 0).now, ground arith)

written-Restores :
    (s : TokenState)
    → KeepsAscii s.disk.reread
    → AreAscii s.tokens s.balances s.locked_shadow
    → IsWritten s
    → Restores s
unfolding IsWritten load_state balance
written-Restores s law ascii (now, file) =
    let (y, back, same) =
      law
        (record {
          tokens = s.tokens;
          balances = s.balances;
          locked_shadow = s.locked_shadow;
          timestamp = now;
          block_height = 0;
        })
        ascii in
    (
      record s { tokens = y.tokens; balances = y.balances; locked_shadow = y.locked_shadow },
      ground (arith, file, back),
      refl,
      same.tokens,
      same.balances,
      same.locked,
    )

-- A call that changes the state and reports success.
pub data Change : TokenState → TokenState → Type 0 where
  created :
      (id : Bytes) (m : TokenMetadata) (s : TokenState)
      → (create_token id (some m) s).0 ≡ ok tt
      → Change s (create_token id (some m) s).1
  transferred :
      (id from to : Bytes) (n : ℕ) (s : TokenState)
      → (transfer_token id from to n s).0 ≡ ok tt
      → Change s (transfer_token id from to n s).1
  melted :
      (id from : Bytes) (n shadow : ℕ) (s : TokenState)
      → (melt_token id from n s).0 ≡ ok shadow
      → Change s (melt_token id from n s).1
  minted :
      (id to : Bytes) (n : ℕ) (s : TokenState)
      → (mint_tokens_to id n to s).0 ≡ ok tt
      → Change s (mint_tokens_to id n to s).1

Change-IsWritten : {s t : TokenState} → Change s t → IsWritten t
unfolding IsWritten save
Change-IsWritten (created id m s h) =
    unfold create_token registered in ((s.disk.moments 0).now, ground arith)
Change-IsWritten (transferred id from to n s h) =
    unfold transfer_token transfer_at in ((s.disk.moments 0).now, ground arith)
Change-IsWritten (melted id from n shadow s h) =
    unfold melt_token melt_at in ((s.disk.moments 0).now, ground arith)
Change-IsWritten (minted id to n s h) =
    unfold mint_tokens_to in ((s.disk.moments 0).now, ground arith)

-- Every change that a call reports as done is in the file: where JSON gives the entries of snapshots
-- with ASCII texts back, and the changed state's texts are ASCII, a load at that point succeeds, and
-- every token, balance and locked amount is as the call left it.
pub changes_are_durable :
    {s t : TokenState}
    → KeepsAscii t.disk.reread
    → AreAscii t.tokens t.balances t.locked_shadow
    → Change s t
    → Restores t
changes_are_durable {s} {t} law ascii c = written-Restores t law ascii (Change-IsWritten c)

-- `ResetToGenesis` never returns once it has made the directory anew: it holds the mutex as a
-- writer, and the snapshot that it saves waits to read. Only a failure to make the directory ends
-- the call, as an error.
pub reset_to_genesis_blocks :
    (removed mkdir : Bool) (s : TokenState)
    → reset_to_genesis removed mkdir s
      ≡ (if mkdir then blocked else returns (false, cleared removed s))
unfolding reset_to_genesis
reset_to_genesis_blocks removed mkdir s = ground arith
