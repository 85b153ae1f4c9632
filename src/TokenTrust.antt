-- ===== src/TokenTrust.antt =====
-- cmd/token_trust.go: how far the user of a wallet trusts a token. A score of the tracker is always 0,
-- and left out. JSON and the file system are as in the token state: a file is absent, unreadable, or
-- holds the settings, and a write succeeds, fails, or leaves a file that cannot be read.
pub mod Levels
pub mod Summary
use shadowyapparatus.Prelude.{
  ℕ, suc, ◌+◌, ◌||◌, Bool, true, false, if◌then◌else◌, Option, none, some, List, [], ◌∷◌, Bytes,
  bytes, length, ltb, leb,
}
use shadowyapparatus.Dict.{Dict, lookup, insert, bytes_key}
use shadowyapparatus.TokenState.{Write, is_written, Moment}

-- `other` is any number that is none of the constants, and above them where it is not negative.
pub data TokenTrustLevel : Type 0 where
  trust_unknown trust_banned trust_accepted trust_verified : TokenTrustLevel
  below above : TokenTrustLevel

pub record TokenTrustInfo : Type 0 where
  pub token_id : Bytes
  pub trust_level : TokenTrustLevel
  pub user_accepted : Bool
  pub accepted_at : Option ℕ
  pub notes : Bytes
  pub name : Bytes
  pub ticker : Bytes
  pub creator : Bytes
  pub last_updated : ℕ

pub data TrustFile : Type 0 where
  absent garbled : TrustFile
  holds : Dict Bytes TokenTrustInfo → TrustFile

pub record TokenTrustManager : Type 0 where
  pub trust_settings : Dict Bytes TokenTrustInfo
  pub file : TrustFile

abbrev pub is_accepted : TokenTrustLevel → Bool
is_accepted TokenTrustLevel.trust_accepted = true
is_accepted TokenTrustLevel.trust_verified = true
is_accepted _ = false

-- `>= TrustAccepted`
abbrev pub at_least_accepted : TokenTrustLevel → Bool
at_least_accepted TokenTrustLevel.trust_accepted = true
at_least_accepted TokenTrustLevel.trust_verified = true
at_least_accepted TokenTrustLevel.above = true
at_least_accepted _ = false

abbrev pub is_banned : TokenTrustLevel → Bool
is_banned TokenTrustLevel.trust_banned = true
is_banned _ = false

abbrev pub is_unknown : TokenTrustLevel → Bool
is_unknown TokenTrustLevel.trust_unknown = true
is_unknown _ = false

-- What a new entry has.
abbrev pub unknown_token : Bytes → TokenTrustInfo
unknown_token id = record {
  token_id = id;
  trust_level = TokenTrustLevel.trust_unknown;
  user_accepted = false;
  accepted_at = none;
  notes = [];
  name = [];
  ticker = [];
  creator = [];
  last_updated = 0;
}

unfoldable pub get_token_trust : Bytes → ℕ → TokenTrustManager → TokenTrustInfo
get_token_trust id now m = elim (lookup id m.trust_settings) [
  | some trust ↦ trust
  | none ↦ record (unknown_token id) { last_updated = now }
]

abbrev file_after : Write → Dict Bytes TokenTrustInfo → TrustFile → TrustFile
file_after Write.written settings file = holds settings
file_after Write.refused settings file = file
file_after Write.torn settings file = garbled

-- Whether the write has succeeded, and the manager.
unfoldable pub save_trust_settings : Write → TokenTrustManager → Bool × TokenTrustManager
save_trust_settings w m = (is_written w, record m { file = file_after w m.trust_settings m.file })

abbrev pub entry_or : Bytes → Option TokenTrustInfo → TokenTrustInfo
entry_or id none = unknown_token id
entry_or id (some trust) = trust

-- The first acceptance keeps its time.
abbrev pub accepted_since : Bool → Option ℕ → ℕ → Option ℕ
accepted_since true none now = some now
accepted_since true (some at) now = some at
accepted_since false at now = at

abbrev pub with_level : TokenTrustLevel → Bytes → ℕ → TokenTrustInfo → TokenTrustInfo
with_level level notes now trust = record trust {
  trust_level = level;
  user_accepted = is_accepted level;
  notes = notes;
  last_updated = now;
  accepted_at = accepted_since (is_accepted level) trust.accepted_at now;
}

unfoldable pub set_token_trust :
    Bytes → TokenTrustLevel → Bytes → Moment → TokenTrustManager → Bool × TokenTrustManager
unfolding save_trust_settings
set_token_trust id level notes t m =
    let trust = entry_or id (lookup id m.trust_settings) in
    save_trust_settings t.write (record m {
      trust_settings = insert id (with_level level notes t.now trust) m.trust_settings;
    })

unfoldable pub accept_token : Bytes → Bytes → Moment → TokenTrustManager → Bool × TokenTrustManager
unfolding set_token_trust
accept_token id notes t m = set_token_trust id TokenTrustLevel.trust_accepted notes t m

unfoldable pub ban_token : Bytes → Bytes → Moment → TokenTrustManager → Bool × TokenTrustManager
unfolding set_token_trust
ban_token id reason t m = set_token_trust id TokenTrustLevel.trust_banned reason t m

abbrev pub with_metadata : (name ticker creator : Bytes) → ℕ → TokenTrustInfo → TokenTrustInfo
with_metadata name ticker creator now trust = record trust {
  name = name;
  ticker = ticker;
  creator = creator;
  last_updated = now;
}

unfoldable pub update_token_metadata :
    (id name ticker creator : Bytes) → Moment → TokenTrustManager → Bool × TokenTrustManager
unfolding save_trust_settings
update_token_metadata id name ticker creator t m =
    let trust = entry_or id (lookup id m.trust_settings) in
    save_trust_settings t.write (record m {
      trust_settings = insert id (with_metadata name ticker creator t.now trust) m.trust_settings;
    })

-- The entries whose level passes a test, as a new map.
unfoldable pub listed :
    (TokenTrustLevel → Bool) → Dict Bytes TokenTrustInfo → Dict Bytes TokenTrustInfo
listed p [] = []
listed p ((id, trust) ∷ m) = if p trust.trust_level then (id, trust) ∷ listed p m else listed p m

unfoldable pub list_trusted_tokens : TokenTrustManager → Dict Bytes TokenTrustInfo
unfolding listed
list_trusted_tokens m = listed at_least_accepted m.trust_settings

unfoldable pub list_banned_tokens : TokenTrustManager → Dict Bytes TokenTrustInfo
unfolding listed
list_banned_tokens m = listed is_banned m.trust_settings

unfoldable pub list_unknown_tokens : TokenTrustManager → Dict Bytes TokenTrustInfo
unfolding listed
list_unknown_tokens m = listed is_unknown m.trust_settings

unfoldable pub is_token_trusted : Bytes → ℕ → TokenTrustManager → Bool
unfolding get_token_trust
is_token_trusted id now m = at_least_accepted (get_token_trust id now m).trust_level

unfoldable pub is_token_banned : Bytes → ℕ → TokenTrustManager → Bool
unfolding get_token_trust
is_token_banned id now m = is_banned (get_token_trust id now m).trust_level

-- `String`
unfoldable pub level_name : TokenTrustLevel → Bytes
level_name TokenTrustLevel.trust_banned = bytes "banned"
level_name TokenTrustLevel.trust_accepted = bytes "accepted"
level_name TokenTrustLevel.trust_verified = bytes "verified"
level_name _ = bytes "unknown"

abbrev pub count_of : Option ℕ → ℕ
count_of none = 0
count_of (some n) = n

-- `summary[key]++`
unfoldable pub tally_levels : Dict Bytes TokenTrustInfo → Dict Bytes ℕ → Dict Bytes ℕ
unfolding level_name
tally_levels [] summary = summary
tally_levels ((id, trust) ∷ m) summary =
    let key = level_name trust.trust_level in
    tally_levels m (insert key (suc (count_of (lookup key summary))) summary)

unfoldable pub get_trust_summary : TokenTrustManager → Dict Bytes ℕ
unfolding tally_levels
get_trust_summary m = tally_levels m.trust_settings (
    (bytes "unknown", 0)
    ∷ (bytes "banned", 0)
    ∷ (bytes "accepted", 0)
    ∷ (bytes "verified", 0)
    ∷ (bytes "total", length m.trust_settings)
    ∷ [])

-- Whether the load has succeeded, and the manager.
unfoldable pub load_trust_settings : TokenTrustManager → Bool × TokenTrustManager
load_trust_settings m = elim m.file [
  | absent ↦ (true, m)
  | garbled ↦ (false, m)
  | holds settings ↦ (true, record m { trust_settings = settings })
]

-- The directory can be made. A load that fails is only reported.
unfoldable pub new_token_trust_manager : TrustFile → TokenTrustManager
unfolding load_trust_settings
new_token_trust_manager file = (load_trust_settings (record { trust_settings = []; file = file })).1

-- The answer, and the manager.
unfoldable pub process_unknown_token_warning :
    (id name ticker creator : Bytes) → Moment → TokenTrustManager → Bool × TokenTrustManager
unfolding get_token_trust update_token_metadata
process_unknown_token_warning id name ticker creator t m =
    let trust = get_token_trust id t.now m in
    if is_unknown trust.trust_level
    then (false, (update_token_metadata id name ticker creator t m).1)
    else (trust.user_accepted, m)
