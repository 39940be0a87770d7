-- ===== src/Mfa/Config/Hints.antt =====
-- The hints of a configuration, and what registrations keep true of it.
use pwdnow_password_manager.Prelude.{
  ℕ, ◌+◌, ◌≡◌, refl, ◌∙◌, List, [], ◌∷◌, ◌++◌, Bool, true, false, ◌&&◌, ◌||◌, Option, none, some,
  ltb, arith, length, length-append, any, or_else,
}
use pwdnow_password_manager.Text.{text_eq, text_eq_refl}
use pwdnow_password_manager.Mfa.Config.{
  WebAuthnCredentialMeta, KeyConfig, MfaConfig, PasskeyHint, no_keys, new_meta, with_key,
  credentials_of, keys_enabled, register_webauthn, register_passkey, register_platform_auth,
  refresh_login_hints, authenticate_with_passkey_for_login,
}

-- Keys are enabled exactly where there is one.
abbrev KeysWellFormed : KeyConfig → Type 0
KeysWellFormed keys = keys.enabled ≡ ltb 0 (length keys.credentials)

abbrev OptionalWellFormed : Option KeyConfig → Type 0
OptionalWellFormed none = Unit
OptionalWellFormed (some keys) = KeysWellFormed keys

abbrev pub IsWellFormed : MfaConfig → Type 0
IsWellFormed cfg =
    KeysWellFormed cfg.webauthn × OptionalWellFormed cfg.passkey × OptionalWellFormed cfg.platform

-- A registration of one of the three kinds.
pub data Registration : Type 0 where
  security_key : WebAuthnCredentialMeta → Registration
  passkey : WebAuthnCredentialMeta → Registration
  platform : WebAuthnCredentialMeta → Registration

abbrev pub register : Registration → MfaConfig → MfaConfig
register (security_key meta) cfg = register_webauthn meta cfg
register (passkey meta) cfg = register_passkey meta cfg
register (platform meta) cfg = register_platform_auth meta cfg

abbrev pub register_all : List Registration → MfaConfig → MfaConfig
register_all [] cfg = cfg
register_all (r ∷ rs) cfg = register_all rs (register r cfg)

with_key-WellFormed :
    (meta : WebAuthnCredentialMeta) (keys : KeyConfig) → KeysWellFormed (with_key meta keys)
with_key-WellFormed meta keys = ground (arith, length-append keys.credentials (meta ∷ []))

register-IsWellFormed :
    (r : Registration) (cfg : MfaConfig) → IsWellFormed cfg → IsWellFormed (register r cfg)
register-IsWellFormed (security_key meta) cfg h = (with_key-WellFormed meta cfg.webauthn, h.1, h.2)
register-IsWellFormed (passkey meta) cfg h =
    (h.0, with_key-WellFormed meta (or_else cfg.passkey no_keys), h.2)
register-IsWellFormed (platform meta) cfg h =
    (h.0, h.1, with_key-WellFormed meta (or_else cfg.platform no_keys))

register_all-IsWellFormed :
    (rs : List Registration) (cfg : MfaConfig)
    → IsWellFormed cfg
    → IsWellFormed (register_all rs cfg)
register_all-IsWellFormed [] cfg h = h
register_all-IsWellFormed (r ∷ rs) cfg h =
    register_all-IsWellFormed rs (register r cfg) (register-IsWellFormed r cfg h)

any_append :
    {A : Type 0} (p : A → Bool) (xs ys : List A) → any p (xs ++ ys) ≡ (any p xs || any p ys)
any_append p [] ys = refl
any_append p (x ∷ xs) ys = ground (arith, any_append p xs ys)

-- A credential with this id is among those that log in without a password.
abbrev Knows : List ℕ → MfaConfig → Type 0
Knows id cfg =
    (any (λ c. text_eq c.id id) (credentials_of cfg.passkey)
      || any (λ c. text_eq c.id id) (credentials_of cfg.platform))
    ≡ true

any-with_key :
    (id : List ℕ) (meta : WebAuthnCredentialMeta) (keys : Option KeyConfig)
    → any (λ c. text_eq c.id id) (with_key meta (or_else keys no_keys)).credentials
      ≡ (any (λ c. text_eq c.id id) (credentials_of keys) || text_eq meta.id id)
any-with_key id meta none = ground arith
any-with_key id meta (some keys) =
    any_append (λ c. text_eq c.id id) keys.credentials (meta ∷ []) ∙ ground arith

Knows-register :
    (id : List ℕ) (r : Registration) (cfg : MfaConfig) → Knows id cfg → Knows id (register r cfg)
Knows-register id (security_key meta) cfg h = h
Knows-register id (passkey meta) cfg h = ground (arith, any-with_key id meta cfg.passkey)
Knows-register id (platform meta) cfg h = ground (arith, any-with_key id meta cfg.platform)

Knows-register_all :
    (id : List ℕ) (rs : List Registration) (cfg : MfaConfig)
    → Knows id cfg
    → Knows id (register_all rs cfg)
Knows-register_all id [] cfg h = h
Knows-register_all id (r ∷ rs) cfg h =
    Knows-register_all id rs (register r cfg) (Knows-register id r cfg h)

Knows-new_meta :
    (id name : List ℕ) (now : ℕ) (cfg : MfaConfig)
    → Knows id (register_passkey (new_meta id name now) cfg)
      × Knows id (register_platform_auth (new_meta id name now) cfg)
Knows-new_meta id name now cfg = (
  ground (arith, any-with_key id (new_meta id name now) cfg.passkey, text_eq_refl id),
  ground (arith, any-with_key id (new_meta id name now) cfg.platform, text_eq_refl id),
)

login-Knows :
    (hints : Option (List PasskeyHint)) (cfg : MfaConfig) (id : List ℕ)
    → Knows id cfg
    → authenticate_with_passkey_for_login hints (some cfg) (some id) ≡ true
unfolding authenticate_with_passkey_for_login
login-Knows hints cfg id h = ground arith

-- A passkey or a platform authenticator logs in once registered: its answer is accepted after any
-- further registrations, whatever hints are in memory, also if none were loaded.
pub authenticate_with_passkey_for_login-register :
    (id name : List ℕ) (now : ℕ) (cfg : MfaConfig) (rs : List Registration)
    (hints : Option (List PasskeyHint))
    → (authenticate_with_passkey_for_login hints
          (some (register_all rs (register_passkey (new_meta id name now) cfg)))
          (some id)
        ≡ true)
      × (authenticate_with_passkey_for_login hints
            (some (register_all rs (register_platform_auth (new_meta id name now) cfg)))
            (some id)
          ≡ true)
authenticate_with_passkey_for_login-register id name now cfg rs hints =
    let passkeys = register_passkey (new_meta id name now) cfg in
    let platforms = register_platform_auth (new_meta id name now) cfg in
    let known = Knows-new_meta id name now cfg in
    (
      login-Knows hints (register_all rs passkeys) id (Knows-register_all id rs passkeys known.0),
      login-Knows hints (register_all rs platforms) id (Knows-register_all id rs platforms known.1),
    )

-- The hints after any registrations tell the truth: from a configuration that enables each kind of key
-- exactly where it has one, the hint for security keys is set exactly if one is registered, and
-- a login without password is offered exactly if it is wanted and a key of some kind is registered.
pub refresh_login_hints-register_all :
    (rs : List Registration) (cfg : MfaConfig)
    → IsWellFormed cfg
    → (let hints = refresh_login_hints (register_all rs cfg) in
        let cfg' = register_all rs cfg in
        (hints.webauthn ≡ ltb 0 (length cfg'.webauthn.credentials))
        × (hints.passwordless_enabled ≡ (
            or_else cfg'.passwordless_enabled false
            && ltb 0 (
                length (credentials_of cfg'.passkey)
                + length (credentials_of cfg'.platform)
                + length cfg'.webauthn.credentials))))
unfolding refresh_login_hints
refresh_login_hints-register_all rs cfg h =
    let (keys, passkeys, platforms) = register_all-IsWellFormed rs cfg h in
    let cfg' = register_all rs cfg in
    let pk = enabled_where cfg'.passkey passkeys in
    let pl = enabled_where cfg'.platform platforms in
    (
      ground arith,
      rw (keys, pk, pl)
          (some_key (or_else cfg'.passwordless_enabled false) (length (credentials_of cfg'.passkey))
            (length (credentials_of cfg'.platform)) (length cfg'.webauthn.credentials)),
    )
  where
    enabled_where :
        (keys : Option KeyConfig)
        → OptionalWellFormed keys
        → keys_enabled keys ≡ ltb 0 (length (credentials_of keys))
    enabled_where none h = refl
    enabled_where (some keys) h = h

    some_key :
        (wanted : Bool) (a b c : ℕ)
        → (wanted && (ltb 0 a || ltb 0 b || ltb 0 c)) ≡ (wanted && ltb 0 (a + b + c))
    some_key wanted a b c = ground arith
