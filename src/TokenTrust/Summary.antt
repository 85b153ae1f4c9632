-- ===== src/TokenTrust/Summary.antt =====
-- The counts of `GetTrustSummary` in cmd/token_trust.go.
use shadowyapparatus.Prelude.{
  ℕ, suc, ◌+◌, ◌≡◌, refl, ◌∙◌, arith, [], ◌∷◌, Bytes, bytes, bytes_discrete, ℕ_discrete, length,
  ite,
}
use shadowyapparatus.Dict.{Dict, lookup, insert, bytes_key, lookup-insert}
use shadowyapparatus.TokenTrust.{
  TokenTrustLevel, trust_unknown, trust_banned, trust_accepted, trust_verified, below, above,
  TokenTrustInfo, TokenTrustManager, level_name, count_of, tally_levels, get_trust_summary,
}

abbrev pub counted : Bytes → Dict Bytes ℕ → ℕ
counted key summary = count_of (lookup key summary)

unfoldable pub four_levels : Dict Bytes ℕ → ℕ
four_levels s =
    counted (bytes "unknown") s
    + counted (bytes "banned") s
    + counted (bytes "accepted") s
    + counted (bytes "verified") s

abbrev add_one : Bytes → Dict Bytes ℕ → Dict Bytes ℕ
add_one key s = insert key (suc (counted key s)) s

counted-insert :
    (k key : Bytes) (v : ℕ) (s : Dict Bytes ℕ)
    → counted k (insert key v s) ≡ ite (bytes_discrete key k) v (counted k s)
counted-insert k key v s = ground (arith, lookup-insert k key v s)

changed :
    (key : Bytes) (s : Dict Bytes ℕ)
    → let v = suc (counted key s) in
      (counted (bytes "unknown") (add_one key s)
        ≡ ite (bytes_discrete key (bytes "unknown")) v (counted (bytes "unknown") s))
      × (counted (bytes "banned") (add_one key s)
          ≡ ite (bytes_discrete key (bytes "banned")) v (counted (bytes "banned") s))
      × (counted (bytes "accepted") (add_one key s)
          ≡ ite (bytes_discrete key (bytes "accepted")) v (counted (bytes "accepted") s))
      × (counted (bytes "verified") (add_one key s)
          ≡ ite (bytes_discrete key (bytes "verified")) v (counted (bytes "verified") s))
changed key s =
    let i = λ (k : Bytes). counted-insert k key (suc (counted key s)) s in
    (i (bytes "unknown"), i (bytes "banned"), i (bytes "accepted"), i (bytes "verified"))

four_levels-add_one :
    (l : TokenTrustLevel) (s : Dict Bytes ℕ)
    → four_levels (add_one (level_name l) s) ≡ suc (four_levels s)
unfolding four_levels level_name bytes_discrete ℕ_discrete
four_levels-add_one trust_unknown s =
    let e = changed (bytes "unknown") s in omega (arith, e.0, e.1, e.2, e.3)
four_levels-add_one trust_banned s =
    let e = changed (bytes "banned") s in omega (arith, e.0, e.1, e.2, e.3)
four_levels-add_one trust_accepted s =
    let e = changed (bytes "accepted") s in omega (arith, e.0, e.1, e.2, e.3)
four_levels-add_one trust_verified s =
    let e = changed (bytes "verified") s in omega (arith, e.0, e.1, e.2, e.3)
four_levels-add_one below s =
    let e = changed (bytes "unknown") s in omega (arith, e.0, e.1, e.2, e.3)
four_levels-add_one above s =
    let e = changed (bytes "unknown") s in omega (arith, e.0, e.1, e.2, e.3)

total-add_one :
    (l : TokenTrustLevel) (s : Dict Bytes ℕ)
    → counted (bytes "total") (add_one (level_name l) s) ≡ counted (bytes "total") s
unfolding level_name bytes_discrete ℕ_discrete
total-add_one trust_unknown s = counted-insert (bytes "total") (bytes "unknown") _ s
total-add_one trust_banned s = counted-insert (bytes "total") (bytes "banned") _ s
total-add_one trust_accepted s = counted-insert (bytes "total") (bytes "accepted") _ s
total-add_one trust_verified s = counted-insert (bytes "total") (bytes "verified") _ s
total-add_one below s = counted-insert (bytes "total") (bytes "unknown") _ s
total-add_one above s = counted-insert (bytes "total") (bytes "unknown") _ s

tally_sum :
    (m : Dict Bytes TokenTrustInfo) (s : Dict Bytes ℕ)
    → (four_levels (tally_levels m s) ≡ length m + four_levels s)
      × (counted (bytes "total") (tally_levels m s) ≡ counted (bytes "total") s)
unfolding tally_levels
tally_sum [] s = (omega arith, refl)
tally_sum ((id, trust) ∷ m) s =
    let l = trust.trust_level in
    let r = tally_sum m (add_one (level_name l) s) in
    (omega (arith, r.0, four_levels-add_one l s), r.1 ∙ total-add_one l s)

-- The four counts of a summary add up to its total, whatever levels the settings hold, and the total
-- is the number of the tokens.
pub summary_adds_up :
    (m : TokenTrustManager)
    → (four_levels (get_trust_summary m) ≡ length m.trust_settings)
      × (counted (bytes "total") (get_trust_summary m) ≡ length m.trust_settings)
unfolding get_trust_summary lookup four_levels bytes_discrete ℕ_discrete
summary_adds_up m = let r = tally_sum m.trust_settings _ in (omega (arith, r.0), r.1)
