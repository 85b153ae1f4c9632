-- ===== src/TokenState/Validity.antt =====
-- The invariant of the token state.
use shadowyapparatus.Prelude.{
  ℕ, ◌*◌, ◌%◌, ◌≤◌, ◌<◌, ◌≡◌, refl, arith, Option, none, some, Bytes, ite, bytes_discrete, u64_mod,
}
use shadowyapparatus.Dict.{Dict, lookup, bytes_key, IsDistinct}
use shadowyapparatus.Dict.Sum.{amount, sum}
use shadowyapparatus.Token.{TokenMetadata}
use shadowyapparatus.TokenState.{TokenState, Error, Outcome, err, balance, balances_of}

-- The three tables at one token: all of them know it or none does, no address is listed twice, and
-- the circulating and the locked amount are within a uint64.
abbrev pub Row : Option TokenMetadata → Option (Dict Bytes ℕ) → Option ℕ → Type 0
Row none none none = Unit
Row (some t) (some m) (some l) = IsDistinct m × (sum m < u64_mod) × (l < u64_mod)
Row _ _ _ = ⊥

abbrev pub IsValid : TokenState → Type 0
IsValid s =
    (id : Bytes) → Row (lookup id s.tokens) (lookup id s.balances) (lookup id s.locked_shadow)

-- How much of a token is in circulation.
unfoldable pub circulating : Bytes → TokenState → ℕ
circulating id s = sum (balances_of (lookup id s.balances))

-- The Shadow locked behind each token is what melting all of it would release, modulo 2 ^ 64.
abbrev pub RowBacked : Option TokenMetadata → Option (Dict Bytes ℕ) → Option ℕ → Type 0
RowBacked (some t) (some m) (some l) = l ≡ (sum m * t.lock_amount) % u64_mod
RowBacked _ _ _ = Unit

abbrev pub IsBacked : TokenState → Type 0
IsBacked s =
    (id : Bytes) → RowBacked (lookup id s.tokens) (lookup id s.balances) (lookup id s.locked_shadow)

-- The other two entries of a known token.
pub record Entries (id : Bytes) (s : TokenState) : Type 0 where
  pub holders : Dict Bytes ℕ
  pub locked : ℕ
  pub at_balances : lookup id s.balances ≡ some holders
  pub at_locked : lookup id s.locked_shadow ≡ some locked
  pub distinct : IsDistinct holders
  pub small : sum holders < u64_mod
  pub in_range : locked < u64_mod

pub known-Entries :
    (id : Bytes) (s : TokenState)
    → IsValid s
    → {t : TokenMetadata} → lookup id s.tokens ≡ some t
    → Entries id s
known-Entries id s v e = go (lookup id s.balances) (lookup id s.locked_shadow) refl refl
  where
    go :
        (b : Option (Dict Bytes ℕ)) (k : Option ℕ)
        → lookup id s.balances ≡ b
        → lookup id s.locked_shadow ≡ k
        → Entries id s
    go none k eb ek = absurd (ground (arith, v id))
    go (some m) none eb ek = absurd (ground (arith, v id))
    go (some m) (some l) eb ek = record {
      holders = m;
      locked = l;
      at_balances = eb;
      at_locked = ek;
      distinct = ground (arith, v id);
      small = ground (arith, v id);
      in_range = ground (arith, v id);
    }

-- How the checks of a call that takes n tokens from an address end: it is refused with the state as
-- it was, or goes on to its second part with a known token and a balance of at least n.
pub data Checked {A : Type 0} (id from : Bytes) (n : ℕ) (s : TokenState)
    (rest : TokenMetadata → Dict Bytes ℕ → Outcome A × TokenState) (r : Outcome A × TokenState)
    : Type 0 where
  rejected : (e : Error) → r ≡ (err e, s) → Checked id from n s rest r
  passed :
      (t : TokenMetadata) (x : Entries id s)
      → lookup id s.tokens ≡ some t
      → n ≤ amount from x.holders
      → r ≡ rest t x.holders
      → Checked id from n s rest r

-- A state in which one token has new balances and a new locked amount, and all else is the same
-- but for the disk.
pub record Updated (id : Bytes) (m : Dict Bytes ℕ) (l : ℕ) (s s' : TokenState) : Type 0 where
  pub same_tokens : s'.tokens ≡ s.tokens
  pub new_balances :
      (j : Bytes) → lookup j s'.balances ≡ ite (bytes_discrete id j) (some m) (lookup j s.balances)
  pub new_locked :
      (j : Bytes)
      → lookup j s'.locked_shadow ≡ ite (bytes_discrete id j) (some l) (lookup j s.locked_shadow)

module _ (id : Bytes) (m : Dict Bytes ℕ) (l : ℕ) (s s' : TokenState) (u : Updated id m l s s') where
  pub Updated-IsValid :
      IsValid s → Entries id s → IsDistinct m → sum m < u64_mod → l < u64_mod → IsValid s'
  Updated-IsValid v x d small fits j =
      rw (u.same_tokens, u.new_balances j, u.new_locked j)
        (ground (arith, v j, x.at_balances, x.at_locked))

  pub balance-Updated :
      (j a : Bytes) → balance j a s' ≡ ite (bytes_discrete id j) (amount a m) (balance j a s)
  unfolding balance
  balance-Updated j a = rw (u.new_balances j) (ground arith)

  pub locked-Updated :
      (j : Bytes)
      → amount j s'.locked_shadow ≡ ite (bytes_discrete id j) l (amount j s.locked_shadow)
  locked-Updated j = rw (u.new_locked j) (ground arith)

  pub circulating-Updated :
      (j : Bytes) → circulating j s' ≡ ite (bytes_discrete id j) (sum m) (circulating j s)
  unfolding circulating
  circulating-Updated j = rw (u.new_balances j) (ground arith)

  -- The locked amount follows the circulating one, and so what is locked stays enough.
  pub Updated-IsBacked :
      {t : TokenMetadata}
      → IsBacked s
      → lookup id s.tokens ≡ some t
      → l ≡ (sum m * t.lock_amount) % u64_mod
      → IsBacked s'
  Updated-IsBacked b known e j =
      rw (u.same_tokens, u.new_balances j, u.new_locked j) (ground (arith, b j))
