-- ===== src/TokenState/Supply.antt =====
-- What the queries answer, against the tables.
use shadowyapparatus.Prelude.{
  ℕ, ◌+◌, ◌%◌, ◌<◌, ◌≡◌, refl, arith, some, [], ◌∷◌, Bytes, u64_mod, add64,
}
use shadowyapparatus.Prelude.Word.{add64-lt}
use shadowyapparatus.Token.{TokenMetadata}
use shadowyapparatus.Dict.{Dict, lookup, bytes_key}
use shadowyapparatus.Dict.Sum.{sum}
use shadowyapparatus.TokenState.{TokenState, ok}
use shadowyapparatus.TokenState.Queries.{add_balances, get_total_supply, get_token_holders}
use shadowyapparatus.TokenState.Validity.{IsValid, known-Entries, circulating}

add_balances-sum :
    (total : ℕ) (m : Dict Bytes ℕ)
    → total < u64_mod
    → add_balances total m ≡ (total + sum m) % u64_mod
unfolding add_balances sum
add_balances-sum total [] h = omega arith
add_balances-sum total ((a, n) ∷ m) h =
    omega (arith, add_balances-sum (add64 total n) m (add64-lt total n), sum_add total n)
  where
    sum_add : (t k : ℕ) → add64 t k ≡ (t + k) % u64_mod
    sum_add t k = unfold add64 in refl

-- In a valid state the loop of `GetTotalSupply` does not overflow: for a known token it answers
-- with what is in circulation, and the holders that `GetTokenHolders` lists hold just that.
pub total_supply_circulating :
    (id : Bytes) (s : TokenState) (t : TokenMetadata)
    → IsValid s
    → lookup id s.tokens ≡ some t
    → (get_total_supply id s ≡ ok (circulating id s))
      × ((m : Dict Bytes ℕ) × (get_token_holders id s ≡ ok m) × (sum m ≡ circulating id s))
unfolding get_total_supply get_token_holders circulating
total_supply_circulating id s t v known =
    let x = known-Entries id s v known in
    (
      ground (arith, x.at_balances, x.small, add_balances-sum 0 x.holders, known),
      (x.holders, ground (arith, x.at_balances, known), ground (arith, x.at_balances)),
    )
