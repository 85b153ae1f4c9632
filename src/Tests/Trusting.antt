-- ===== src/Tests/Trusting.antt =====
-- Tokens that are accepted, banned and warned of.
use shadowyapparatus.Prelude.{◌≡◌, refl, true, not, ◌||◌, bytes, bytes_discrete, ℕ_discrete}
use shadowyapparatus.Dict.{lookup, insert}
use shadowyapparatus.TokenState.{Write, Moment}
use shadowyapparatus.TokenTrust.{
  TokenTrustLevel, TokenTrustManager, absent, set_token_trust, is_token_trusted, get_token_trust,
  new_token_trust_manager, process_unknown_token_warning, update_token_metadata,
  load_trust_settings, save_trust_settings,
}
use shadowyapparatus.TokenTrust.Levels.{set, warn, here, next, has_time, trusted-IsAccepted}

abbrev moment : Moment
moment = record { now = 7; write = Write.written }

abbrev fresh : TokenTrustManager
fresh = new_token_trust_manager absent

abbrev warned : TokenTrustManager
warned =
    (process_unknown_token_warning (bytes "t") (bytes "Gold") (bytes "AU") (bytes "c") moment
      fresh).1

abbrev after_acceptance : TokenTrustManager
after_acceptance =
    (set_token_trust (bytes "t") TokenTrustLevel.trust_accepted (bytes "good") moment warned).1

trusted-IsAccepted_example :
    (is_token_trusted (bytes "t") 8 after_acceptance
      ≡ (get_token_trust (bytes "t") 8 after_acceptance).user_accepted)
    × ((not (is_token_trusted (bytes "t") 8 after_acceptance)
          || has_time (get_token_trust (bytes "t") 8 after_acceptance).accepted_at)
        ≡ true)
trusted-IsAccepted_example = trusted-IsAccepted after_acceptance (bytes "t") 8 (
    next (next here (warn (bytes "t") (bytes "Gold") (bytes "AU") (bytes "c") moment fresh))
      (set (bytes "t") TokenTrustLevel.trust_accepted (bytes "good") moment warned tt))

accepted_is_trusted : is_token_trusted (bytes "t") 8 after_acceptance ≡ true
unfolding is_token_trusted get_token_trust set_token_trust lookup insert bytes_discrete ℕ_discrete
    save_trust_settings new_token_trust_manager load_trust_settings process_unknown_token_warning
    update_token_metadata
accepted_is_trusted = refl

set_is_written :
    (set_token_trust (bytes "t") TokenTrustLevel.trust_accepted (bytes "good") moment warned).0
    ≡ true
unfolding set_token_trust save_trust_settings
set_is_written = refl
