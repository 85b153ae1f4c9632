-- ===== src/TokenState/Melt/Cases.antt =====
-- How a call of `MeltToken` goes: what each of its parts leaves behind.
use shadowyapparatus.Prelude.{
  ℕ, ◌+◌, ◌*◌, ◌%◌, ◌≤◌, ◌<◌, ◌≡◌, refl, arith, some, Bytes, ◌⊎◌, inl, inr, Bool, true, false,
  Option-cases, dec_lt, u64_mod, add64, sub64, mul64,
}
use shadowyapparatus.Token.{TokenMetadata}
use shadowyapparatus.Dict.{
  Dict, lookup, insert, bytes_key, IsDistinct, insert-IsDistinct, lookup-insert, lookup-insert_self,
}
use shadowyapparatus.Dict.Sum.{amount, sum, sum-insert, amount-insert}
use shadowyapparatus.TokenState.{
  TokenState, Error, Outcome, ok, err, no_such_token, insufficient, save_failed, save, balance,
  is_written, balances_of,
}
use shadowyapparatus.TokenState.Operations.{melt_token, melt_at, burned}
use shadowyapparatus.TokenState.Balances.{amount-burned, burned-IsDistinct, sum-burned}
use shadowyapparatus.TokenState.Validity.{IsValid, Entries, known-Entries, Updated}

-- Taking an amount off a uint64 and putting it back gives the old value.
pub add64-sub64 : (l x : ℕ) → l < u64_mod → x < u64_mod → add64 (sub64 l x) x ≡ l
unfolding add64 sub64
add64-sub64 l x h k = omega arith

-- What backs a + n units, less what n units release, backs a units.
pub less_backed :
    (a n lock : ℕ) → sub64 (((a + n) * lock) % u64_mod) (mul64 n lock) ≡ (a * lock) % u64_mod
unfolding sub64 mul64
less_backed a n lock = omega arith

module _ (id from : Bytes) (n : ℕ) (s : TokenState) (x : Entries id s)
    (enough : n ≤ amount from x.holders) where
  unfoldable pub left_over : Dict Bytes ℕ
  left_over = burned from n (amount from x.holders) x.holders

  unfoldable pub put_back : Dict Bytes ℕ
  put_back = insert from (amount from x.holders) left_over

  pub amount-put_back : (a : Bytes) → amount a put_back ≡ amount a x.holders
  unfolding put_back left_over
  amount-put_back a = ground (
    arith,
    amount-insert a from (amount from x.holders) left_over,
    amount-burned from n x.holders enough x.small a,
  )

  pub sum-put_back : sum put_back ≡ sum x.holders
  unfolding put_back left_over
  sum-put_back = ground (
    arith,
    sum-insert from (amount from x.holders) left_over,
    sum-burned from n x.holders enough x.small x.distinct,
    amount-burned from n x.holders enough x.small from,
  )

  pub put_back-IsDistinct : IsDistinct put_back
  unfolding put_back left_over
  put_back-IsDistinct =
      insert-IsDistinct from _ _ (burned-IsDistinct from n x.holders enough x.small x.distinct)

  module _ (shadow : ℕ) where
    abbrev pub Saved : Outcome ℕ × TokenState → Type 0
    Saved r =
        ((is_written (s.disk.moments 0).write ≡ true)
          × (r.0 ≡ ok shadow)
          × Updated id left_over (sub64 x.locked shadow) s r.1)
        ⊎ ((is_written (s.disk.moments 0).write ≡ false)
            × (r.0 ≡ err save_failed)
            × Updated id put_back (add64 (sub64 x.locked shadow) shadow) s r.1)

    pub melt_at_cases : Saved (melt_at id from n (amount from x.holders) shadow x.holders s)
    unfolding melt_at save put_back left_over
    melt_at_cases = go (is_written (s.disk.moments 0).write) refl
      where
        kept : amount id s.locked_shadow ≡ x.locked
        kept = rw x.at_locked

        undoes : balances_of (lookup id (insert id left_over s.balances)) ≡ left_over
        undoes = rw (lookup-insert_self id left_over s.balances)

        low : ℕ
        low = sub64 x.locked shadow

        go :
            (b : Bool)
            → is_written (s.disk.moments 0).write ≡ b
            → Saved (melt_at id from n (amount from x.holders) shadow x.holders s)
        go true e = inl (
          e,
          ground arith,
          record {
            same_tokens = ground arith;
            new_balances = λ j. ground (arith, lookup-insert j id left_over s.balances);
            new_locked = λ j. ground (arith, kept, lookup-insert j id low s.locked_shadow);
          },
        )
        go false e = inr (
          e,
          ground arith,
          record {
            same_tokens = ground arith;
            new_balances = λ j. ground (
              arith,
              undoes,
              lookup-insert j id left_over s.balances,
              lookup-insert j id put_back (insert id left_over s.balances),
            );
            new_locked = λ j. ground (
              arith,
              kept,
              lookup-insert id id low s.locked_shadow,
              lookup-insert j id low s.locked_shadow,
              lookup-insert j id (add64 low shadow) (insert id low s.locked_shadow),
            );
          },
        )

-- How a melt in a valid state ends.
pub data Ends (id from : Bytes) (n : ℕ) (s : TokenState) (r : Outcome ℕ × TokenState) : Type 0 where
  stopped : (e : Error) → r ≡ (err e, s) → Ends id from n s r
  went_on :
      (t : TokenMetadata)
      → lookup id s.tokens ≡ some t
      → (x : Entries id s) (enough : n ≤ amount from x.holders)
      → Saved id from n s x enough (mul64 n t.lock_amount) r
      → Ends id from n s r

pub melt_enough :
    (id from : Bytes) (n : ℕ) (s : TokenState) (t : TokenMetadata) (x : Entries id s)
    → lookup id s.tokens ≡ some t
    → n ≤ amount from x.holders
    → melt_token id from n s
      ≡ melt_at id from n (amount from x.holders) (mul64 n t.lock_amount) x.holders s
unfolding melt_token balance
melt_enough id from n s t x known enough = ground (arith, x.at_balances)

melt_short :
    (id from : Bytes) (n : ℕ) (s : TokenState) (t : TokenMetadata) (x : Entries id s)
    → lookup id s.tokens ≡ some t
    → amount from x.holders < n
    → melt_token id from n s ≡ (err (insufficient (amount from x.holders) n), s)
unfolding melt_token balance
melt_short id from n s t x known short = ground (arith, x.at_balances)

pub melt-Ends :
    (id from : Bytes) (n : ℕ) (s : TokenState)
    → IsValid s
    → Ends id from n s (melt_token id from n s)
melt-Ends id from n s v = elim (Option-cases (lookup id s.tokens)) [
  | inl unknown ↦ stopped no_such_token (unfold melt_token in ground arith)
  | inr (t, known) ↦ go t known (known-Entries id s v known)
]
  where
    go :
        (t : TokenMetadata)
        → lookup id s.tokens ≡ some t
        → Entries id s
        → Ends id from n s (melt_token id from n s)
    go t known x = elim (dec_lt (amount from x.holders) n) [
      | yes short ↦ stopped _ (melt_short id from n s t x known short)
      | no enough ↦
          let e : n ≤ amount from x.holders = omega arith in
          went_on t known x e (
            rw (melt_enough id from n s t x known e)
              (melt_at_cases id from n s x e (mul64 n t.lock_amount)))
    ]
