-- ===== src/SecurityModes/Travel/State.antt =====
-- The state of travel mode and what its steps rely on (web/src/utils/securityModes.ts).
use pwdnow_password_manager.Prelude.{
  ℕ, ◌+◌, ◌/◌, ◌%◌, ◌<◌, ◌≡◌, List, [], ◌∷◌, ◌++◌, Bool, true, false, not, Option, none, some, ltb,
  ◌==◌, if◌then◌else◌, any, or_else, All,
}
use pwdnow_password_manager.Text.{text, text_eq, starts_with}
use pwdnow_password_manager.Types.{Folder, Credential}

pub record TravelModeConfig : Type 0 where
  pub active : Bool
  pub password_hash : Option (List ℕ)
  pub hidden_folder_ids : List (List ℕ)
  pub salt : List ℕ
  pub iv_hex : List ℕ
  pub kdf_version : Option ℕ

-- What is encrypted, and the envelope that is stored.
pub record HiddenVault : Type 0 where
  pub credentials : List Credential
  pub folders : List Folder

pub record Envelope : Type 0 where
  pub iv : List ℕ
  pub ct : List ℕ

-- One digit and one byte of `bytesToHex`.
abbrev pub hex_digit : ℕ → ℕ
hex_digit n = if ltb n 10 then b'0' + n else 87 + n

abbrev pub hex_pair : ℕ → List ℕ
hex_pair b = hex_digit (b / 16) ∷ hex_digit (b % 16) ∷ []

unfoldable pub bytes_to_hex : List ℕ → List ℕ
bytes_to_hex [] = []
bytes_to_hex (b ∷ bytes) = hex_pair b ++ bytes_to_hex bytes

-- `parse_int s` is `parseInt(s, 16)` as a byte.
unfoldable pub hex_to_bytes : (List ℕ → ℕ) → List ℕ → List ℕ
hex_to_bytes parse_int [] = []
hex_to_bytes parse_int (c ∷ []) = []
hex_to_bytes parse_int (c ∷ d ∷ s) = parse_int (c ∷ d ∷ []) ∷ hex_to_bytes parse_int s

-- The JSON texts, the plaintext's bytes, the cipher and the derivations of its keys (`argon2id`
-- with 64 MB, `pbkdf2 iterations` with SHA-256, whether the browser or a library computes it). A text is read back to what
-- was written, and an object's text begins with a brace; `legacy` decrypts an old configuration.
pub record TravelCode : Type 0 where
  pub config_text : TravelModeConfig → List ℕ
  pub parse_config : List ℕ → Option TravelModeConfig
  pub parse_config-config_text : (c : TravelModeConfig) → parse_config (config_text c) ≡ some c
  pub config_text_brace : (c : TravelModeConfig) → starts_with (text "{") (config_text c) ≡ true
  pub legacy : List ℕ → Option TravelModeConfig
  pub envelope_text : Envelope → List ℕ
  pub parse_envelope : List ℕ → Option Envelope
  pub parse_envelope-envelope_text : (e : Envelope) → parse_envelope (envelope_text e) ≡ some e
  pub envelope_text_brace : (e : Envelope) → starts_with (text "{") (envelope_text e) ≡ true
  pub plaintext : HiddenVault → List ℕ
  pub parse_plaintext : List ℕ → Option HiddenVault
  pub parse_plaintext-plaintext : (v : HiddenVault) → parse_plaintext (plaintext v) ≡ some v
  pub parse_int : List ℕ → ℕ
  pub parse_int-hex_pair : (b : ℕ) → b < 256 → parse_int (hex_pair b) ≡ b
  pub hash_password : List ℕ → List ℕ → List ℕ
  pub hash_password_some :
      (password salt : List ℕ) → text_eq (hash_password password salt) [] ≡ false
  pub argon2id : List ℕ → List ℕ → List ℕ
  pub pbkdf2 : ℕ → List ℕ → List ℕ → List ℕ
  pub encrypt : List ℕ → List ℕ → List ℕ → List ℕ
  pub encrypt_bytes : (key iv plain : List ℕ) → All (λ b. b < 256) (encrypt key iv plain)
  pub decrypt : List ℕ → List ℕ → List ℕ → Option (List ℕ)
  pub decrypt-encrypt : (key iv plain : List ℕ) → decrypt key iv (encrypt key iv plain) ≡ some plain

-- The two items of the browser's storage and their copies on the server.
pub record TravelStorage : Type 0 where
  pub config_item : Option (List ℕ)
  pub vault_item : Option (List ℕ)
  pub server_config : Option (List ℕ)
  pub server_vault : Option (List ℕ)

-- Where an operation runs: whether the page has WebCrypto (`subtleAvailable()`, over HTTPS), whether
-- there is a server session, and which of the requests the server answers.
pub record Server : Type 0 where
  pub subtle_available : Bool
  pub has_session : Bool
  pub answers_get_config : Bool
  pub answers_put_config : Bool
  pub answers_delete_config : Bool
  pub answers_get_vault : Bool
  pub answers_put_vault : Bool
  pub answers_delete_vault : Bool

-- Random draws: an id for a default configuration, a salt, an initialisation vector.
pub record Draws : Type 0 where
  pub default_salt : List ℕ
  pub salt : List ℕ
  pub iv : List ℕ
  pub noise : List ℕ

-- The key of a version: Argon2id or, without WebCrypto, PBKDF2 with 600000 iterations; version 1
-- takes PBKDF2 with 120000 either way.
unfoldable pub derive_travel_key_bytes : TravelCode → Server → List ℕ → List ℕ → ℕ → List ℕ
derive_travel_key_bytes code server password salt version =
    if version == 2
    then if server.subtle_available
      then code.argon2id password salt
      else code.pbkdf2 600000 password salt
    else code.pbkdf2 120000 password salt

pub record Disabled : Type 0 where
  pub ok : Bool
  pub credentials : List Credential
  pub folders : List Folder

abbrev pub refused : Disabled
refused = record { ok = false; credentials = []; folders = [] }

abbrev pub default_travel_config : List ℕ → TravelModeConfig
default_travel_config salt = record {
  active = false;
  password_hash = none;
  hidden_folder_ids = [];
  salt = salt;
  iv_hex = [];
  kdf_version = none;
}

-- `!!config.passwordHash`
abbrev pub has_hash : TravelModeConfig → Bool
has_hash c = not (text_eq (or_else c.password_hash []) [])

-- `stored && stored.startsWith('{')`
abbrev pub is_object : Option (List ℕ) → Bool
is_object none = false
is_object (some s) = starts_with (text "{") s

abbrev pub is_in : List (List ℕ) → List ℕ → Bool
is_in ids id = any (λ i. text_eq i id) ids

abbrev pub hides : List (List ℕ) → Credential → Bool
hides ids c = is_in ids c.folder_id

abbrev pub hides_folder : List (List ℕ) → Folder → Bool
hides_folder ids f = is_in ids f.id
