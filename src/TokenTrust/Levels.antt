-- ===== src/TokenTrust/Levels.antt =====
-- What the settings of cmd/token_trust.go say of a token, however they have come about.
use shadowyapparatus.Prelude.{
  ℕ, ◌≡◌, ◌≢◌, refl, sym, ap, subst, ◌∙◌, not, ◌||◌, if_pos, Bool, true, false, Option, none, some,
  Option-cases, inl, inr, Bool-cases, Bytes, [], bytes_discrete,
}
use shadowyapparatus.Dict.{Dict, lookup, insert, bytes_key, lookup-insert, lookup-insert_ne}
use shadowyapparatus.TokenState.{Moment, Write}
use shadowyapparatus.TokenTrust.{
  TokenTrustLevel, trust_unknown, trust_banned, trust_accepted, trust_verified, below, above,
  TokenTrustInfo, TokenTrustManager, TrustFile, absent, garbled, holds, is_accepted,
  at_least_accepted, is_unknown, entry_or, with_level, accepted_since, get_token_trust,
  save_trust_settings, set_token_trust, update_token_metadata, is_token_trusted,
  load_trust_settings, new_token_trust_manager, process_unknown_token_warning,
}

-- The constants.
abbrev pub IsLevel : TokenTrustLevel → Type 0
IsLevel below = ⊥
IsLevel above = ⊥
IsLevel _ = Unit

abbrev pub has_time : Option ℕ → Bool
has_time none = false
has_time (some at) = true

-- The level is a constant, the user has accepted the token if and only if the level says so, and then
-- there is a time of the acceptance.
abbrev pub IsSound : TokenTrustInfo → Type 0
IsSound t =
    IsLevel t.trust_level
    × (t.user_accepted ≡ is_accepted t.trust_level)
    × ((not t.user_accepted || has_time t.accepted_at) ≡ true)

abbrev pub AreSoundSettings : Dict Bytes TokenTrustInfo → Type 0
AreSoundSettings m = (id : Bytes) (t : TokenTrustInfo) → lookup id m ≡ some t → IsSound t

-- The calls that change the settings.
pub data Step : TokenTrustManager → TokenTrustManager → Type 0 where
  set :
      (id : Bytes) (l : TokenTrustLevel) (notes : Bytes) (t : Moment) (m : TokenTrustManager)
      → IsLevel l
      → Step m (set_token_trust id l notes t m).1
  describe :
      (id name ticker creator : Bytes) (t : Moment) (m : TokenTrustManager)
      → Step m (update_token_metadata id name ticker creator t m).1
  warn :
      (id name ticker creator : Bytes) (t : Moment) (m : TokenTrustManager)
      → Step m (process_unknown_token_warning id name ticker creator t m).1
  restart : (m : TokenTrustManager) → Step m (new_token_trust_manager m.file)

pub data Reach (m : TokenTrustManager) : TokenTrustManager → Type 0 where
  here : Reach m m
  next : {a b : TokenTrustManager} → Reach m a → Step a b → Reach m b

abbrev AreSoundFile : TokenTrustManager → Type 0
AreSoundFile m =
    (settings : Dict Bytes TokenTrustInfo) → m.file ≡ holds settings → AreSoundSettings settings

abbrev IsSoundManager : TokenTrustManager → Type 0
IsSoundManager m = AreSoundSettings m.trust_settings × AreSoundFile m

entry-IsSound :
    (id : Bytes) (m : Dict Bytes TokenTrustInfo)
    → AreSoundSettings m
    → IsSound (entry_or id (lookup id m))
entry-IsSound id m h = elim (Option-cases (lookup id m)) [
  | inl e ↦ rw e (tt, refl, refl)
  | inr (t, e) ↦ rw e (h id t e)
]

some_eq : (t t' : TokenTrustInfo) → some t ≡ some t' → t ≡ t'
some_eq t t' e = ap (λ (o : Option TokenTrustInfo). entry_or [] o) e

insert-AreSound :
    (id : Bytes) (t : TokenTrustInfo) (m : Dict Bytes TokenTrustInfo)
    → IsSound t
    → AreSoundSettings m
    → AreSoundSettings (insert id t m)
insert-AreSound id t m s h id' t' e = elim (bytes_discrete id id') [
  | yes p ↦ subst IsSound (some_eq t t' (sym (found p) ∙ e)) s
  | no n ↦ h id' t' (sym (other n) ∙ e)
]
  where
    found : id ≡ id' → lookup id' (insert id t m) ≡ some t
    found p = lookup-insert id' id t m ∙ if_pos (bytes_discrete id id') p (some t) (lookup id' m)

    other : id ≢ id' → lookup id' (insert id t m) ≡ lookup id' m
    other n = lookup-insert_ne id' id t m n

since :
    (l : TokenTrustLevel) (at : Option ℕ) (now : ℕ)
    → (not (is_accepted l) || has_time (accepted_since (is_accepted l) at now)) ≡ true
since trust_unknown at now = refl
since trust_banned at now = refl
since trust_accepted none now = refl
since trust_accepted (some a) now = refl
since trust_verified none now = refl
since trust_verified (some a) now = refl
since below at now = refl
since above at now = refl

level-IsSound :
    (l : TokenTrustLevel) (notes : Bytes) (now : ℕ) (t : TokenTrustInfo)
    → IsLevel l
    → IsSound t
    → IsSound (with_level l notes now t)
level-IsSound l notes now t k s = (k, refl, since l (t.accepted_at) now)

settings_of : TrustFile → Dict Bytes TokenTrustInfo
settings_of absent = []
settings_of garbled = []
settings_of (holds settings) = settings

held : (a b : Dict Bytes TokenTrustInfo) → holds a ≡ holds b → a ≡ b
unfolding settings_of
held a b e = ap settings_of e

save-IsSound :
    (w : Write) (m : TokenTrustManager)
    → AreSoundSettings m.trust_settings
    → AreSoundFile m
    → IsSoundManager (save_trust_settings w m).1
unfolding save_trust_settings
save-IsSound Write.written m h f = (h, λ settings e. subst AreSoundSettings (held _ _ e) h)
save-IsSound Write.refused m h f = (h, f)
save-IsSound Write.torn m h f = (h, λ settings e. absurd (cc))

update-IsSound :
    (id name ticker creator : Bytes) (t : Moment) (m : TokenTrustManager)
    → IsSoundManager m
    → IsSoundManager (update_token_metadata id name ticker creator t m).1
unfolding update_token_metadata
update-IsSound id name ticker creator t m h =
    save-IsSound t.write _
      (insert-AreSound id _ m.trust_settings (entry-IsSound id m.trust_settings h.0) h.0) h.1

start-IsSound :
    (file : TrustFile)
    → ((settings : Dict Bytes TokenTrustInfo) → file ≡ holds settings → AreSoundSettings settings)
    → IsSoundManager (new_token_trust_manager file)
unfolding new_token_trust_manager load_trust_settings lookup
start-IsSound absent f = (λ id t e. absurd (cc), f)
start-IsSound garbled f = (λ id t e. absurd (cc), f)
start-IsSound (holds settings) f = (f settings refl, f)

Step-IsSound : {m k : TokenTrustManager} → Step m k → IsSoundManager m → IsSoundManager k
unfolding set_token_trust process_unknown_token_warning
Step-IsSound (set id l notes t m k) h =
    save-IsSound t.write _
      (insert-AreSound id _ m.trust_settings
        (level-IsSound l notes t.now (entry_or id (lookup id m.trust_settings)) k
          (entry-IsSound id m.trust_settings h.0))
        h.0)
      h.1
Step-IsSound (describe id name ticker creator t m) h = update-IsSound id name ticker creator t m h
Step-IsSound (warn id name ticker creator t m) h =
    elim (Bool-cases (is_unknown (get_token_trust id t.now m).trust_level)) [
      | inl e ↦ rw e (update-IsSound id name ticker creator t m h)
      | inr e ↦ rw e h
    ]
Step-IsSound (restart m) h = start-IsSound m.file h.1

Reach-IsSound : {m k : TokenTrustManager} → Reach m k → IsSoundManager m → IsSoundManager k
Reach-IsSound here h = h
Reach-IsSound (next r s) h = Step-IsSound s (Reach-IsSound r h)

level_iff :
    (l : TokenTrustLevel) (b : Bool) → IsLevel l → b ≡ is_accepted l → at_least_accepted l ≡ b
level_iff trust_unknown b k e = sym e
level_iff trust_banned b k e = sym e
level_iff trust_accepted b k e = sym e
level_iff trust_verified b k e = sym e
level_iff below b k e = sym e
level_iff above b k e = absurd k

-- Whatever levels are set, by the constants, and whatever metadata, warnings and restarts come between,
-- from a wallet with no file on: a token is trusted if and only if its user has accepted it, and then
-- the time of an acceptance is known.
pub trusted-IsAccepted :
    (m : TokenTrustManager) (id : Bytes) (now : ℕ)
    → Reach (new_token_trust_manager absent) m
    → (is_token_trusted id now m ≡ (get_token_trust id now m).user_accepted)
      × ((not (is_token_trusted id now m) || has_time (get_token_trust id now m).accepted_at)
          ≡ true)
unfolding is_token_trusted get_token_trust
trusted-IsAccepted m id now r =
    let h = (Reach-IsSound r (start-IsSound absent (λ settings e. absurd (cc)))).0 in
    elim (Option-cases (lookup id m.trust_settings)) [
      | inl e ↦ rw (e, is_token_trusted, get_token_trust) (refl, refl)
      | inr (t, e) ↦
          let s = h id t e in
          let q = level_iff t.trust_level t.user_accepted s.0 s.1 in
          rw (e, is_token_trusted, get_token_trust) (q, rw q s.2)
    ]

save-IsDurable :
    (w : Write) (m : TokenTrustManager)
    → (save_trust_settings w m).0 ≡ true
    → new_token_trust_manager (save_trust_settings w m).1.file ≡ (save_trust_settings w m).1
unfolding save_trust_settings new_token_trust_manager load_trust_settings
save-IsDurable Write.written m h = refl
save-IsDurable Write.refused m h = absurd (cc)
save-IsDurable Write.torn m h = absurd (cc)

-- A level that is reported as set is there after a restart, and so is everything else.
pub set_token_trust-IsDurable :
    (id : Bytes) (l : TokenTrustLevel) (notes : Bytes) (t : Moment) (m : TokenTrustManager)
    → (set_token_trust id l notes t m).0 ≡ true
    → new_token_trust_manager (set_token_trust id l notes t m).1.file
      ≡ (set_token_trust id l notes t m).1
unfolding set_token_trust save_trust_settings new_token_trust_manager load_trust_settings
set_token_trust-IsDurable id l notes t m h = save-IsDurable t.write _ h
