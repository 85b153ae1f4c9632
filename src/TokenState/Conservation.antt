-- ===== src/TokenState/Conservation.antt =====
-- No transfer changes how much of a token is in circulation, with the one exception of a transfer
-- from an address to itself whose save fails.
use shadowyapparatus.Prelude.{
  ℕ, ◌+◌, ◌*◌, ◌%◌, ◌≤◌, ◌≡◌, ◌≢◌, arith, inl, inr, some, Bytes, false, u64_mod,
}
use shadowyapparatus.Token.{TokenMetadata}
use shadowyapparatus.Dict.{lookup, bytes_key}
use shadowyapparatus.Dict.Sum.{amount, sum}
use shadowyapparatus.TokenState.{TokenState, Outcome, err, save_failed, is_written, balance}
use shadowyapparatus.TokenState.Operations.{transfer_token}
use shadowyapparatus.TokenState.Balances.{amount-moved_back, sum-moved, sum-moved_back}
use shadowyapparatus.TokenState.Validity.{
  IsValid, IsBacked, Entries, known-Entries, Updated, balance-Updated, circulating,
  circulating-Updated, Updated-IsBacked,
}
use shadowyapparatus.TokenState.Transfer.{
  Ends, stopped, stored, rolled_back, transfer-Ends, transfer_enough, transfer_at_cases, moved_to,
  undone,
}

circulating-Entries :
    (id : Bytes) (s : TokenState) (x : Entries id s) → circulating id s ≡ sum x.holders
unfolding circulating
circulating-Entries id s x = rw x.at_balances

-- A transfer between two different addresses leaves every token's circulating amount as it was, also
-- when it fails.
pub transfer_conserves :
    (id from to : Bytes) (n : ℕ) (s : TokenState)
    → IsValid s
    → from ≢ to
    → (j : Bytes) → circulating j (transfer_token id from to n s).1 ≡ circulating j s
transfer_conserves id from to n s v ne j = go _ (transfer-Ends id from to n s v)
  where
    go :
        (r : Outcome (Unit {0}) × TokenState)
        → Ends id from to n s r
        → circulating j r.1 ≡ circulating j s
    go r (stopped e p) = rw p
    go r (stored t known x enough o u) =
        unfold moved_to in
        ground (
          arith,
          circulating-Updated id _ x.locked s r.1 u j,
          circulating-Entries id s x,
          sum-moved from to n x.holders enough x.small x.distinct,
        )
    go r (rolled_back t known x enough o u) =
        unfold undone moved_to in
        ground (
          arith,
          circulating-Updated id _ x.locked s r.1 u j,
          circulating-Entries id s x,
          sum-moved_back from to n x.holders enough x.small x.distinct,
        )

-- Such a transfer keeps every token backed.
pub transfer_token-IsBacked :
    (id from to : Bytes) (n : ℕ) (s : TokenState)
    → IsValid s
    → IsBacked s
    → from ≢ to
    → IsBacked (transfer_token id from to n s).1
transfer_token-IsBacked id from to n s v b ne = go _ (transfer-Ends id from to n s v)
  where
    covers :
        (t : TokenMetadata) (x : Entries id s)
        → lookup id s.tokens ≡ some t
        → x.locked ≡ (sum x.holders * t.lock_amount) % u64_mod
    covers t x known = ground (arith, b id, x.at_balances, x.at_locked)

    go : (r : Outcome (Unit {0}) × TokenState) → Ends id from to n s r → IsBacked r.1
    go r (stopped e p) = rw p b
    go r (stored t known x enough o u) = Updated-IsBacked id _ x.locked s r.1 u b known (
        unfold moved_to in
        rw (sum-moved from to n x.holders enough x.small x.distinct) (covers t x known))
    go r (rolled_back t known x enough o u) =
        let e : sum (undone id from to n s x enough) ≡ sum x.holders =
          unfold undone moved_to in
          ground (arith, sum-moved_back from to n x.holders enough x.small x.distinct) in
        Updated-IsBacked id _ x.locked s r.1 u b known (rw e (covers t x known))

-- The exception: where a save fails, a transfer of a held amount from an address to itself reports
-- the failure and takes the amount away.
pub transfer_self_loses :
    (id a : Bytes) (n : ℕ) (s : TokenState)
    → IsValid s
    → (t : TokenMetadata) → lookup id s.tokens ≡ some t
    → n ≤ balance id a s
    → is_written (s.disk.moments 0).write ≡ false
    → ((transfer_token id a a n s).0 ≡ err save_failed)
      × (balance id a (transfer_token id a a n s).1 + n ≡ balance id a s)
transfer_self_loses id a n s v t known held bad =
    rw (transfer_enough id a a n s t x known enough) (elim (transfer_at_cases id a a n s x enough) [
      | inl (good, _, _) ↦ absurd (cc (good, bad))
      | inr (_, o, u) ↦ (o, loses _ u)
    ])
  where
    x : Entries id s
    x = known-Entries id s v known

    holds : balance id a s ≡ amount a x.holders
    holds = unfold balance in rw x.at_balances

    enough : n ≤ amount a x.holders
    enough = omega (arith, holds, held)

    loses :
        (s' : TokenState)
        → Updated id (undone id a a n s x enough) x.locked s s'
        → balance id a s' + n ≡ balance id a s
    loses s' u =
        unfold undone moved_to in
        ground (
          arith,
          balance-Updated id _ x.locked s s' u id a,
          amount-moved_back a a n x.holders enough x.small a,
          holds,
        )
