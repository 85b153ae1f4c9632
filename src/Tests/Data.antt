-- ===== src/Tests/Data.antt =====
-- Two tokens, a pool of both, and the states that the tests start from.
use shadowyapparatus.Prelude.{
  some, ℕ, zero, suc, ◌%◌, ◌≡◌, refl, arith, none, [], ◌∷◌, Bytes, bytes, false, length, str_eq,
  ◌≢◌,
}
use shadowyapparatus.Dict.{lookup}
use shadowyapparatus.Dict.Sum.{sum}
use shadowyapparatus.Token.{TokenMetadata, LiquidityPoolData, PoolSwapData}
use shadowyapparatus.Address.{Hashes, AreSound}
use shadowyapparatus.Address.Hex.{AreBytes}
use shadowyapparatus.TokenState.{TokenState, Disk, Write, absent}
use shadowyapparatus.TokenState.Validity.{IsValid, IsBacked}

abbrev pub alice : Bytes
alice = bytes "alice"

abbrev pub bob : Bytes
bob = bytes "bob"

abbrev pub coin : Bytes
coin = bytes "coin"

abbrev pub gold : Bytes
gold = bytes "gold"

abbrev pub token : ℕ → ℕ → TokenMetadata
token supply lock = record {
  name = bytes "Coin";
  ticker = bytes "C";
  total_supply = supply;
  decimals = 0;
  lock_amount = lock;
  creator = alice;
  creation_time = 0;
  uri = [];
  trade_offer = none;
  syndicate = none;
  liquidity_pool = none;
  pool_swap = none;
}

-- A disk on which every write ends alike.
abbrev pub disk : Write → Disk
disk w = record {
  file = absent;
  moments = λ _. record { now = 0; write = w };
  reread = λ x. some x;
}

-- One token: alice has 60 of 100 units, bob the others, and 7 satoshis are locked for each.
abbrev pub one_token : Write → TokenState
one_token w = record {
  tokens = (coin, token 100 7) ∷ [];
  balances = (coin, (alice, 60) ∷ (bob, 40) ∷ []) ∷ [];
  locked_shadow = (coin, 700) ∷ [];
  disk = disk w;
}

pub one_token-IsValid : (w : Write) → IsValid (one_token w)
unfolding lookup sum
one_token-IsValid w id = ground arith

pub one_token-IsBacked : (w : Write) → IsBacked (one_token w)
unfolding lookup sum
one_token-IsBacked w id = ground arith

abbrev pub no_tokens : TokenState
no_tokens = record { tokens = []; balances = []; locked_shadow = []; disk = disk Write.written }

pub no_tokens-IsValid : IsValid no_tokens
unfolding lookup
no_tokens-IsValid id = tt

abbrev pub pool_address : Bytes
pool_address = bytes "Lpool"

abbrev pub pool : LiquidityPoolData
pool = record {
  token_a = coin;
  token_b = gold;
  initial_ratio_a = 1;
  initial_ratio_b = 1;
  fee_rate = 30;
  l_address = pool_address;
  share_token_id = bytes "share";
  creator = alice;
  creation_time = 0;
}

abbrev pub swap : PoolSwapData
swap = record {
  pool_l_address = pool_address;
  input_token_id = coin;
  output_token_id = gold;
  max_slippage = 100;
  not_after = 0;
  all_or_nothing = false;
  min_received = 80;
  swapper_address = bob;
  creation_time = 1;
}

-- A pool with a thousand of both tokens, and bob with 200 of the one.
abbrev pub with_pool : TokenState
with_pool = record {
  tokens = (coin, token 1200 1) ∷ (gold, token 1000 1) ∷ [];
  balances =
      (coin, (pool_address, 1000) ∷ (bob, 200) ∷ []) ∷ (gold, (pool_address, 1000) ∷ []) ∷ [];
  locked_shadow = (coin, 1200) ∷ (gold, 1000) ∷ [];
  disk = disk Write.written;
}

pub with_pool-IsValid : IsValid with_pool
unfolding lookup sum
with_pool-IsValid id = ground arith

-- Functions with the shape of the hashes: the text itself, cut or filled up with zeros.
abbrev pub pad : ℕ → Bytes → Bytes
pad zero m = []
pad (suc n) [] = 0 ∷ pad n []
pad (suc n) (b ∷ m) = (b % 256) ∷ pad n m

abbrev pub hashes : Hashes
hashes = record { keccak = pad 32; shake = pad }

pub length-pad : (n : ℕ) (m : Bytes) → length (pad n m) ≡ n
length-pad zero m = refl
length-pad (suc n) [] = omega (arith, length-pad n [])
length-pad (suc n) (b ∷ m) = omega (arith, length-pad n m)

pub AreBytes-pad : (n : ℕ) (m : Bytes) → AreBytes (pad n m)
AreBytes-pad zero m = tt
AreBytes-pad (suc n) [] = (omega arith, AreBytes-pad n [])
AreBytes-pad (suc n) (b ∷ m) = (omega arith, AreBytes-pad n m)

pub hashes-AreSound : AreSound hashes
hashes-AreSound = record {
  keccak_bytes = AreBytes-pad 32;
  keccak_length = length-pad 32;
  shake_bytes = AreBytes-pad;
  shake_length = length-pad;
}

pub apart : (a b : Bytes) → str_eq a b ≡ false → a ≢ b
apart a b h = ground arith
