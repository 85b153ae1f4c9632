-- ===== src/Executor/Ordinary.antt =====
-- A transfer between ordinary addresses, and the transfer back.
use shadowyapparatus.Prelude.{
  ℕ, suc, ◌≤◌, ◌≡◌, ◌≢◌, ◌⊎◌, inl, inr, sym, ap, ◌∙◌, ite, arith, Bool, true, false, not, ◌&&◌,
  List, [], ◌∷◌, Bytes, bytes_discrete, length, ◌==◌,
}
use shadowyapparatus.Token.{TokenOpType, TokenOperation}
use shadowyapparatus.Dict.{lookup, bytes_key}
use shadowyapparatus.TokenState.{
  TokenState, Error, ok, err, is_written, balance, save, save_state_with_snapshot,
}
use shadowyapparatus.TokenState.Operations.{transfer_token, transfer_at}
use shadowyapparatus.Dict.Sum.{amount}
use shadowyapparatus.TokenState.Balances.{transferred}
use shadowyapparatus.TokenState.Validity.{IsValid, Entries}
use shadowyapparatus.TokenState.Transfer.{
  transfer_token_lem, transfer_token-IsValid, transfer-Ends, Ends, stopped, stored, rolled_back,
}
use shadowyapparatus.TokenState.Success.{transfer_succeeds_iff}
use shadowyapparatus.Executor.Monad.{done, failed, state_error}
use shadowyapparatus.Executor.Results.{op_result}
use shadowyapparatus.Executor.Liquidity.{execute_token_transfer, after_transfer}
use shadowyapparatus.Executor.Operations.{
  TokenExecutor, Surroundings, execute_token_operation, execute_as, on_tokens,
}

-- Every write to come succeeds.
abbrev pub AlwaysWritten : TokenState → Type 0
AlwaysWritten s = (n : ℕ) → is_written (s.disk.moments n).write ≡ true

-- Neither empty nor an L-address.
abbrev pub is_ordinary : Bytes → Bool
is_ordinary [] = false
is_ordinary (c ∷ rest) = not (length (c ∷ rest) == 41 && c == b'L')

-- A transfer between two addresses that provides no liquidity.
pub record IsOrdinary (op : TokenOperation) : Type 0 where
  pub transfers : op.op_type ≡ TokenOpType.token_transfer
  pub apart : op.from ≢ op.to
  pub plain : is_ordinary op.to ≡ true

abbrev pub AllOrdinary : List TokenOperation → Type 0
AllOrdinary [] = Unit
AllOrdinary (op ∷ ops) = IsOrdinary op × AllOrdinary ops

pub transfer_rest :
    (id from to : Bytes) (n : ℕ) (s : TokenState)
    → AlwaysWritten s
    → let s' = (transfer_token id from to n s).1 in AlwaysWritten s' × (s'.tokens ≡ s.tokens)
unfolding transfer_token transfer_at save save_state_with_snapshot
transfer_rest id from to n s w = (λ k. ground (arith, w k, w (suc k)), ground arith)

-- A state that a rollback finds or leaves: as s, but for the file.
pub record Alike (s t : TokenState) : Type 0 where
  pub valid : IsValid t
  pub written : AlwaysWritten t
  pub tokens : t.tokens ≡ s.tokens
  pub balances : (j a : Bytes) → balance j a t ≡ balance j a s

-- What a transfer that succeeds leaves.
moved_state :
    (id from to : Bytes) (n : ℕ) (s : TokenState)
    → IsValid s
    → from ≢ to
    → (transfer_token id from to n s).0 ≡ ok tt
    → (j a : Bytes)
    → balance j a (transfer_token id from to n s).1
      ≡ ite (bytes_discrete id j) (transferred from to n (λ x. balance id x s) a) (balance j a s)
moved_state id from to n s v ne o = elim (transfer_token_lem id from to n s v ne) [
  | inl (_, moves) ↦ moves
  | inr (x, fails, _) ↦ absurd (cc (o, fails))
]

-- Moving an amount back.
there_and_back :
    (from to a : Bytes) (n : ℕ) (f g : Bytes → ℕ)
    → from ≢ to
    → n ≤ f from
    → ((b : Bytes) → g b ≡ transferred from to n f b)
    → transferred to from n g a ≡ f a
unfolding transferred
there_and_back from to a n f g ne enough e = ground (arith, e a, e from, e to)

pub undone_transfer :
    (id from to : Bytes) (n : ℕ) (s u : TokenState)
    → IsValid s
    → from ≢ to
    → (transfer_token id from to n s).0 ≡ ok tt
    → Alike (transfer_token id from to n s).1 u
    → AlwaysWritten s
    → ((transfer_token id to from n u).0 ≡ ok tt) × Alike s (transfer_token id to from n u).1
undone_transfer id from to n s u v ne o k w =
    let (m, known, enough, _) = (transfer_succeeds_iff id from to n s v).0 o in
    let moves = moved_state id from to n s v ne o in
    let back = transfer_rest id to from n u k.written in
    let there = transfer_rest id from to n s w in
    let own : (b : Bytes) → balance id b u ≡ transferred from to n (λ x. balance id x s) b =
      λ b. ground (arith, k.balances id b, moves id b) in
    let received : n ≤ balance id to u = unfold transferred in ground (arith, own to, enough) in
    let o' : (transfer_token id to from n u).0 ≡ ok tt =
      (transfer_succeeds_iff id to from n u k.valid).1
        (m, ap (lookup id) (k.tokens ∙ there.1) ∙ known, received, k.written 0) in
    (
      o',
      record {
        valid = transfer_token-IsValid id to from n u k.valid;
        written = back.0;
        tokens = back.1 ∙ k.tokens ∙ there.1;
        balances = λ j a. ground (
          arith,
          moved_state id to from n u k.valid (λ x. ne (sym x)) o' j a,
          k.balances j a,
          moves j a,
          there_and_back from to a n (λ x. balance id x s) (λ x. balance id x u) ne enough own,
        );
      },
    )

plain_after :
    (op : TokenOperation) (to : Bytes) (s : TokenState)
    → is_ordinary to ≡ true
    → after_transfer op to s ≡ (done tt, s)
unfolding after_transfer
plain_after op [] s h = ground arith
plain_after op (c ∷ rest) s h = ground arith

module _ (e : Surroundings) (op : TokenOperation) (index : ℕ) (te : TokenExecutor)
    (i : IsOrdinary op) where
  ordinary_step :
      execute_token_operation e op index te ≡ on_tokens (execute_token_transfer op index) te
  unfolding execute_token_operation execute_as
  ordinary_step = rw i.transfers

  pub ordinary_done :
      (transfer_token op.token_id op.from op.to op.op_amount te.token_state).0 ≡ ok tt
      → execute_token_operation e op index te ≡ (
        done (op_result index op op.from op.to 0 0),
        record te {
          token_state = (transfer_token op.token_id op.from op.to op.op_amount te.token_state).1;
        },
      )
  unfolding execute_token_transfer
  ordinary_done o =
      ordinary_step
      ∙ ground (
        arith,
        plain_after op op.to
            (transfer_token op.token_id op.from op.to op.op_amount te.token_state).1 i.plain,
      )

  pub ordinary_failed :
      (x : Error)
      → transfer_token op.token_id op.from op.to op.op_amount te.token_state
        ≡ (err x, te.token_state)
      → execute_token_operation e op index te ≡ (failed (state_error x), te)
  unfolding execute_token_transfer
  ordinary_failed x o = ordinary_step ∙ ground arith

-- Where the writes succeed, a transfer is done or leaves the state as it was.
pub transfer_cases :
    (id from to : Bytes) (n : ℕ) (s : TokenState)
    → IsValid s
    → AlwaysWritten s
    → ((transfer_token id from to n s).0 ≡ ok tt)
      ⊎ ((x : Error) × (transfer_token id from to n s ≡ (err x, s)))
transfer_cases id from to n s v w = go (transfer-Ends id from to n s v)
  where
    held : (x : Entries id s) → balance id from s ≡ amount from x.holders
    held x = unfold balance in rw x.at_balances

    go :
        Ends id from to n s (transfer_token id from to n s)
        → ((transfer_token id from to n s).0 ≡ ok tt)
          ⊎ ((x : Error) × (transfer_token id from to n s ≡ (err x, s)))
    go (stopped x p) = inr (x, p)
    go (stored t known x enough o u) = inl o
    go (rolled_back t known x enough o u) =
        inl ((transfer_succeeds_iff id from to n s v).1 (t, known, omega (arith, held x), w 0))
