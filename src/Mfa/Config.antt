-- ===== src/Mfa/Config.antt =====
-- The configuration of the factors: MfaConfig and the functions of web/src/utils/mfa.ts that read and
-- change it. The in-memory cache and the browser's storage are the state.
pub mod Counters
pub mod Hints
use pwdnow_password_manager.Prelude.{
  ℕ, ◌+◌, ◌≡◌, List, [], ◌∷◌, ◌++◌, Bool, true, false, ◌||◌, ◌&&◌, not, Option, none, some, ltb,
  leb, ◌==◌, if◌then◌else◌, length, map, any, or_else,
}
use pwdnow_password_manager.Text.{text_eq}

pub record WebAuthnCredentialMeta : Type 0 where
  pub id : List ℕ
  pub raw_id : List ℕ
  pub name : List ℕ
  pub created_at : ℕ
  pub counter : ℕ

pub record TotpConfig : Type 0 where
  pub enabled : Bool
  pub secret : Option (List ℕ)
  pub enabled_at : Option ℕ
  pub algorithm : Option (List ℕ)
  pub digits : Option ℕ

pub record HotpConfig : Type 0 where
  pub enabled : Bool
  pub secret : Option (List ℕ)
  pub counter : ℕ
  pub enabled_at : Option ℕ
  pub algorithm : Option (List ℕ)
  pub digits : Option ℕ

pub record KeyConfig : Type 0 where
  pub enabled : Bool
  pub credentials : List WebAuthnCredentialMeta

pub record EmailConfig : Type 0 where
  pub enabled : Bool
  pub address : Option (List ℕ)
  pub enabled_at : Option ℕ

-- `passkey` and `platform` may be missing in a stored configuration of an earlier version.
pub record MfaConfig : Type 0 where
  pub totp : TotpConfig
  pub hotp : Option HotpConfig
  pub webauthn : KeyConfig
  pub passkey : Option KeyConfig
  pub platform : Option KeyConfig
  pub email : EmailConfig
  pub passwordless_enabled : Option Bool
  pub password_login_enabled : Option Bool

abbrev pub no_keys : KeyConfig
no_keys = record { enabled = false; credentials = [] }

abbrev pub default_mfa : MfaConfig
default_mfa = record {
  totp = record {
    enabled = false;
    secret = none;
    enabled_at = none;
    algorithm = none;
    digits = none;
  };
  hotp = none;
  webauthn = no_keys;
  passkey = some no_keys;
  platform = some no_keys;
  email = record { enabled = false; address = none; enabled_at = none };
  passwordless_enabled = some false;
  password_login_enabled = none;
}

-- `_mfaCache ?? DEFAULT_MFA()`
abbrev pub get_mfa_config : Option MfaConfig → MfaConfig
get_mfa_config cache = or_else cache default_mfa

abbrev pub new_meta : List ℕ → List ℕ → ℕ → WebAuthnCredentialMeta
new_meta id name now = record { id = id; raw_id = id; name = name; created_at = now; counter = 0 }

abbrev pub with_key : WebAuthnCredentialMeta → KeyConfig → KeyConfig
with_key meta keys = record { enabled = true; credentials = keys.credentials ++ (meta ∷ []) }

-- The three registrations, once the daemon or the browser has given the credential's id.
abbrev pub register_webauthn : WebAuthnCredentialMeta → MfaConfig → MfaConfig
register_webauthn meta cfg = record cfg { webauthn = with_key meta cfg.webauthn }

abbrev pub register_passkey : WebAuthnCredentialMeta → MfaConfig → MfaConfig
register_passkey meta cfg = record cfg {
  passkey = some (with_key meta (or_else cfg.passkey no_keys));
}

abbrev pub register_platform_auth : WebAuthnCredentialMeta → MfaConfig → MfaConfig
register_platform_auth meta cfg = record cfg {
  platform = some (with_key meta (or_else cfg.platform no_keys));
}

-- `credentials.find(c => c.id === id)`
unfoldable pub find_credential :
    List ℕ → List WebAuthnCredentialMeta → Option WebAuthnCredentialMeta
find_credential id [] = none
find_credential id (c ∷ cs) = if text_eq c.id id then some c else find_credential id cs

-- `stored.counter = n` at the credential found
unfoldable pub store_counter :
    List ℕ → ℕ → List WebAuthnCredentialMeta → List WebAuthnCredentialMeta
store_counter id n [] = []
store_counter id n (c ∷ cs) =
    if text_eq c.id id then record c { counter = n } ∷ cs else c ∷ store_counter id n cs

-- What authenticateWebAuthn comes to.
pub data Ceremony : Type 0 where
  not_found : Ceremony
  cancelled : Ceremony
  cloned : Ceremony
  accepted : MfaConfig → Ceremony

-- `assertion` is the counter in the browser's answer, if it gives one.
unfoldable pub authenticate_webauthn : List ℕ → Option ℕ → MfaConfig → Ceremony
unfolding find_credential store_counter
authenticate_webauthn id assertion cfg = elim (find_credential id cfg.webauthn.credentials) [
  | none ↦ not_found
  | some stored ↦ elim assertion [
    | none ↦ cancelled
    | some new_counter ↦
        if ltb 0 new_counter && leb new_counter stored.counter
        then cloned
        else (let keys = record cfg.webauthn {
          credentials = store_counter id new_counter cfg.webauthn.credentials;
        } in
            accepted (record cfg { webauthn = keys }))
  ]
]

pub record LoginHints : Type 0 where
  pub totp : Bool
  pub email_otp : Bool
  pub password_enabled : Bool
  pub webauthn : Bool
  pub passwordless_enabled : Bool

abbrev pub default_login_hints : LoginHints
default_login_hints = record {
  totp = false;
  email_otp = false;
  password_enabled = true;
  webauthn = false;
  passwordless_enabled = false;
}

abbrev pub keys_enabled : Option KeyConfig → Bool
keys_enabled none = false
keys_enabled (some keys) = keys.enabled

abbrev pub hotp_enabled : Option HotpConfig → Bool
hotp_enabled none = false
hotp_enabled (some hotp) = hotp.enabled

abbrev pub credentials_of : Option KeyConfig → List WebAuthnCredentialMeta
credentials_of none = []
credentials_of (some keys) = keys.credentials

abbrev pub has_hardware : MfaConfig → Bool
has_hardware cfg = keys_enabled cfg.passkey || keys_enabled cfg.platform || cfg.webauthn.enabled

-- The hints that refreshLoginHints posts.
unfoldable pub refresh_login_hints : MfaConfig → LoginHints
refresh_login_hints cfg = record {
  totp = cfg.totp.enabled || hotp_enabled cfg.hotp;
  email_otp = cfg.email.enabled;
  password_enabled = or_else cfg.password_login_enabled true;
  webauthn = cfg.webauthn.enabled && ltb 0 (length cfg.webauthn.credentials);
  passwordless_enabled = or_else cfg.passwordless_enabled false && has_hardware cfg;
}

unfoldable pub count_true : List Bool → ℕ
count_true [] = 0
count_true (b ∷ bs) = let rest = count_true bs in if b then 1 + rest else rest

unfoldable pub count_active_mfa_methods : MfaConfig → ℕ
unfolding count_true
count_active_mfa_methods c =
    let hints = default_login_hints in
    count_true (
      (c.totp.enabled || hints.totp)
      ∷ (c.webauthn.enabled || hints.webauthn)
      ∷ (keys_enabled c.passkey || hints.passwordless_enabled)
      ∷ keys_enabled c.platform
      ∷ (c.email.enabled || hints.email_otp)
      ∷ [])

pub record PasskeyHint : Type 0 where
  pub id : List ℕ
  pub name : List ℕ

-- refreshPasskeyHint and savePasskeyHint: the hints in memory after a registration.
abbrev pub refresh_passkey_hint : MfaConfig → List PasskeyHint
refresh_passkey_hint cfg =
    map (λ c. record { id = c.raw_id; name = c.name })
      (credentials_of cfg.passkey ++ credentials_of cfg.platform)

-- authenticateWithPasskeyForLogin, of the id that the browser's answer carries, if it answers.
unfoldable pub authenticate_with_passkey_for_login :
    Option (List PasskeyHint) → Option MfaConfig → Option (List ℕ) → Bool
authenticate_with_passkey_for_login hints cache none = false
authenticate_with_passkey_for_login hints cache (some returned) =
    if any (λ h. text_eq h.id returned) (or_else hints [])
    then true
    else (let cfg = get_mfa_config cache in
        any (λ c. text_eq c.id returned) (credentials_of cfg.passkey)
        || any (λ c. text_eq c.id returned) (credentials_of cfg.platform))
