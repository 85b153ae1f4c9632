-- ===== src/TokenState/Transfer.antt =====
-- `TransferToken` as a whole: it moves tokens between two addresses or leaves every balance alone.
use shadowyapparatus.Prelude.{
  ℕ, ◌≤◌, ◌≡◌, ◌≢◌, refl, ite, arith, some, Bytes, bytes_discrete, ◌⊎◌, inl, inr, Bool, true, false,
  Option-cases, dec_lt,
}
use shadowyapparatus.Token.{TokenMetadata}
use shadowyapparatus.Dict.{Dict, lookup, insert, bytes_key, lookup-insert, lookup-insert_self}
use shadowyapparatus.Dict.Sum.{amount}
use shadowyapparatus.TokenState.{
  TokenState, Error, Outcome, ok, err, no_such_token, insufficient, save_failed, save, balance,
  is_written, balances_of,
}
use shadowyapparatus.TokenState.Operations.{transfer_token, transfer_at, moved, moved_back}
use shadowyapparatus.TokenState.Balances.{
  transferred, amount-moved, moved-IsDistinct, sum-moved, amount-moved_back, moved_back-IsDistinct,
  sum-moved_back,
}
use shadowyapparatus.TokenState.Validity.{
  IsValid, Entries, known-Entries, Checked, rejected, passed, Updated, Updated-IsValid,
  balance-Updated,
}

module _ (id from to : Bytes) (n : ℕ) (s : TokenState) where
  abbrev Transferred : Outcome (Unit {0}) × TokenState → Type 0
  Transferred = Checked id from n s (λ _ m. transfer_at id from to n (amount from m) m s)

  pub transfer_enough :
      (t : TokenMetadata) (x : Entries id s)
      → lookup id s.tokens ≡ some t
      → n ≤ amount from x.holders
      → transfer_token id from to n s ≡ transfer_at id from to n (amount from x.holders) x.holders s
  unfolding transfer_token balance
  transfer_enough t x known enough = ground (arith, x.at_balances)

  checks_known :
      (t : TokenMetadata)
      → lookup id s.tokens ≡ some t
      → Entries id s
      → Transferred (transfer_token id from to n s)
  unfolding transfer_token balance
  checks_known t known x = elim (dec_lt (amount from x.holders) n) [
    | yes short ↦ rejected (insufficient (amount from x.holders) n) (ground (arith, x.at_balances))
    | no enough ↦ passed t x known (omega arith) (transfer_enough t x known (omega arith))
  ]

  transfer_checks : IsValid s → Transferred (transfer_token id from to n s)
  transfer_checks v = elim (Option-cases (lookup id s.tokens)) [
    | inl unknown ↦ rejected no_such_token (unfold transfer_token in ground arith)
    | inr (t, known) ↦ checks_known t known (known-Entries id s v known)
  ]

  -- The second part, once the checks are passed.
  module _ (x : Entries id s) (enough : n ≤ amount from x.holders) where
    unfoldable pub moved_to : Dict Bytes ℕ
    moved_to = moved from to n (amount from x.holders) x.holders

    unfoldable pub undone : Dict Bytes ℕ
    unfolding moved_to
    undone = moved_back from to n (amount from x.holders) moved_to

    -- The tokens move if the save succeeds, and else the rollback is what is left.
    abbrev pub Saved : Outcome (Unit {0}) × TokenState → Type 0
    Saved r =
        ((is_written (s.disk.moments 0).write ≡ true)
          × (r.0 ≡ ok tt)
          × Updated id moved_to x.locked s r.1)
        ⊎ ((is_written (s.disk.moments 0).write ≡ false)
            × (r.0 ≡ err save_failed)
            × Updated id undone x.locked s r.1)

    pub transfer_at_cases : Saved (transfer_at id from to n (amount from x.holders) x.holders s)
    unfolding transfer_at save undone
    transfer_at_cases = go (is_written (s.disk.moments 0).write) refl
      where
        undoes : balances_of (lookup id (insert id moved_to s.balances)) ≡ moved_to
        undoes = rw (lookup-insert_self id moved_to s.balances)

        go :
            (b : Bool)
            → is_written (s.disk.moments 0).write ≡ b
            → Saved (transfer_at id from to n (amount from x.holders) x.holders s)
        go true e = inl (
          e,
          ground arith,
          record {
            same_tokens = ground arith;
            new_balances = λ j. ground (arith, lookup-insert j id moved_to s.balances);
            new_locked = λ j. ground (arith, x.at_locked);
          },
        )
        go false e = inr (
          e,
          ground arith,
          record {
            same_tokens = ground arith;
            new_balances = λ j. ground (
              arith,
              undoes,
              lookup-insert j id moved_to s.balances,
              lookup-insert j id undone (insert id moved_to s.balances),
            );
            new_locked = λ j. ground (arith, x.at_locked);
          },
        )

-- How a transfer in a valid state ends.
pub data Ends (id from to : Bytes) (n : ℕ) (s : TokenState) (r : Outcome (Unit {0}) × TokenState)
    : Type 0 where
  stopped : (e : Error) → r ≡ (err e, s) → Ends id from to n s r
  stored :
      (t : TokenMetadata)
      → lookup id s.tokens ≡ some t
      → (x : Entries id s) (enough : n ≤ amount from x.holders) → r.0 ≡ ok tt
      → Updated id (moved_to id from to n s x enough) x.locked s r.1
      → Ends id from to n s r
  rolled_back :
      (t : TokenMetadata)
      → lookup id s.tokens ≡ some t
      → (x : Entries id s) (enough : n ≤ amount from x.holders) → r.0 ≡ err save_failed
      → Updated id (undone id from to n s x enough) x.locked s r.1
      → Ends id from to n s r

pub transfer-Ends :
    (id from to : Bytes) (n : ℕ) (s : TokenState)
    → IsValid s
    → Ends id from to n s (transfer_token id from to n s)
transfer-Ends id from to n s v = go (transfer_checks id from to n s v)
  where
    go :
        Transferred id from to n s (transfer_token id from to n s)
        → Ends id from to n s (transfer_token id from to n s)
    go (rejected e p) = stopped e p
    go (passed t x known enough p) = rw p (elim (transfer_at_cases id from to n s x enough) [
      | inl (_, o, u) ↦ stored t known x enough o u
      | inr (_, o, u) ↦ rolled_back t known x enough o u
    ])

-- Whatever its outcome, a transfer keeps the state valid.
pub transfer_token-IsValid :
    (id from to : Bytes) (n : ℕ) (s : TokenState)
    → IsValid s
    → IsValid (transfer_token id from to n s).1
transfer_token-IsValid id from to n s v = go _ (transfer-Ends id from to n s v)
  where
    go : (r : Outcome (Unit {0}) × TokenState) → Ends id from to n s r → IsValid r.1
    go r (stopped e p) = rw p v
    go r (stored t known x enough o u) =
        Updated-IsValid id _ x.locked s r.1 u v x
          (unfold moved_to in moved-IsDistinct from to n x.holders enough x.small x.distinct)
          (unfold moved_to in
            omega (arith, sum-moved from to n x.holders enough x.small x.distinct, x.small))
          x.in_range
    go r (rolled_back t known x enough o u) =
        Updated-IsValid id _ x.locked s r.1 u v x
          (unfold undone in moved_back-IsDistinct from to n x.holders enough x.small x.distinct)
          (unfold undone in
            omega (arith, sum-moved_back from to n x.holders enough x.small x.distinct, x.small))
          x.in_range

-- The two ways in which a call may end that moves n of a token's units between two addresses.
abbrev pub Transfers :
    Bytes → Bytes → Bytes → ℕ → TokenState → Outcome (Unit {0}) × TokenState → Type 0
Transfers id from to n s r =
    ((r.0 ≡ ok tt)
      × ((j a : Bytes)
          → balance j a r.1
            ≡ ite (bytes_discrete id j) (transferred from to n (λ x. balance id x s) a)
                (balance j a s)))
    ⊎ ((e : Error) × (r.0 ≡ err e) × ((j a : Bytes) → balance j a r.1 ≡ balance j a s))

-- What a transfer between two different addresses does to the balances of all tokens, in a valid
-- state: it succeeds and moves the amount, or reports an error and changes no balance.
pub transfer_token_lem :
    (id from to : Bytes) (n : ℕ) (s : TokenState)
    → IsValid s
    → from ≢ to
    → Transfers id from to n s (transfer_token id from to n s)
transfer_token_lem id from to n s v ne = go _ (transfer-Ends id from to n s v)
  where
    held : (x : Entries id s) (a : Bytes) → balance id a s ≡ amount a x.holders
    held x a = unfold balance in rw x.at_balances

    go :
        (r : Outcome (Unit {0}) × TokenState)
        → Ends id from to n s r
        → ((r.0 ≡ ok tt)
            × ((j a : Bytes)
                → balance j a r.1
                  ≡ ite
                      (bytes_discrete id j)
                      (transferred from to n (λ x. balance id x s) a)
                      (balance j a s)))
          ⊎ ((e : Error) × (r.0 ≡ err e) × ((j a : Bytes) → balance j a r.1 ≡ balance j a s))
    go r (stopped e p) = inr (e, ground arith, λ j a. ground arith)
    go r (stored t known x enough o u) = inl (
      o,
      λ j a.
          unfold moved_to transferred in
          ground (
            arith,
            balance-Updated id _ x.locked s r.1 u j a,
            amount-moved from to n x.holders enough x.small a,
            held x a,
          ),
    )
    go r (rolled_back t known x enough o u) = inr (
      save_failed,
      o,
      λ j a.
          unfold undone moved_to in
          ground (
            arith,
            balance-Updated id _ x.locked s r.1 u j a,
            amount-moved_back from to n x.holders enough x.small a,
            held x a,
          ),
    )
