-- ===== src/SecurityModes/Travel/OpenCode.antt =====
-- A code in which travel mode keeps all in the open, for concrete inputs.
use pwdnow_password_manager.Prelude.{
  ℕ, ◌+◌, ◌-◌, ◌*◌, ◌<◌, List, [], ◌∷◌, ◌++◌, Bool, true, false, ◌≡◌, refl, ◌∙◌, ap, Option, none,
  some, arith, ltb, if◌then◌else◌,
}
use pwdnow_password_manager.Text.{text, starts_with}
use pwdnow_password_manager.Text.Rows.{
  written, reading, reading-written, marked, unmarked, unmarked-marked, strokes, counts,
  counts-strokes, strokes_small,
}
use pwdnow_password_manager.Types.{
  Folder, Credential, CredentialType, login, passkey, secure_note, payment_card,
}
use pwdnow_password_manager.SecurityModes.Travel.{
  TravelCode, TravelModeConfig, HiddenVault, Envelope, hex_pair,
}

abbrev flag : Bool → List ℕ
flag true = 1 ∷ []
flag false = []

abbrev is_flag : List ℕ → Bool
is_flag [] = false
is_flag (c ∷ s) = true

abbrev number : Option ℕ → List ℕ
number none = []
number (some n) = n ∷ []

abbrev number_in : List ℕ → Option ℕ
number_in [] = none
number_in (n ∷ s) = some n

abbrev kind : Option CredentialType → List ℕ
kind none = []
kind (some login) = 1 ∷ []
kind (some passkey) = 1 ∷ 1 ∷ []
kind (some secure_note) = 1 ∷ 1 ∷ 1 ∷ []
kind (some payment_card) = 1 ∷ 1 ∷ 1 ∷ 1 ∷ []

abbrev kind_in : List ℕ → Option CredentialType
kind_in [] = none
kind_in (a ∷ []) = some login
kind_in (a ∷ b ∷ []) = some passkey
kind_in (a ∷ b ∷ c ∷ []) = some secure_note
kind_in (a ∷ b ∷ c ∷ d ∷ s) = some payment_card

abbrev tags_text : Option (List (List ℕ)) → List ℕ
tags_text none = []
tags_text (some ts) = 1 ∷ written ts

abbrev tags_in : List ℕ → Option (List (List ℕ))
tags_in [] = none
tags_in (c ∷ s) = some (reading [] s)

tags_in-tags_text : (o : Option (List (List ℕ))) → tags_in (tags_text o) ≡ o
tags_in-tags_text none = refl
tags_in-tags_text (some ts) = ap some (reading-written ts)

kind_in-kind : (o : Option CredentialType) → kind_in (kind o) ≡ o
kind_in-kind none = refl
kind_in-kind (some login) = refl
kind_in-kind (some passkey) = refl
kind_in-kind (some secure_note) = refl
kind_in-kind (some payment_card) = refl

abbrev folder_texts : List Folder → List (List ℕ)
folder_texts [] = []
folder_texts (f ∷ fs) = f.id ∷ f.label ∷ marked f.description ∷ folder_texts fs

abbrev folders_in : List (List ℕ) → List Folder
folders_in (id ∷ label ∷ description ∷ rest) =
    record { id = id; label = label; description = unmarked description } ∷ folders_in rest
folders_in _ = []

folders_in-folder_texts : (fs : List Folder) → folders_in (folder_texts fs) ≡ fs
folders_in-folder_texts [] = refl
folders_in-folder_texts (f ∷ fs) =
    ground (arith, unmarked-marked f.description, folders_in-folder_texts fs)

abbrev credential_texts : List Credential → List (List ℕ)
credential_texts [] = []
credential_texts (c ∷ cs) =
    c.id
    ∷ c.service
    ∷ c.url
    ∷ c.username
    ∷ marked c.password
    ∷ c.status
    ∷ c.status_color
    ∷ c.logo
    ∷ c.folder_id
    ∷ tags_text c.tags
    ∷ marked c.otp_secret
    ∷ marked c.description
    ∷ kind c.credential_type
    ∷ credential_texts cs

abbrev credentials_in : List (List ℕ) → List Credential
credentials_in
      (id ∷ service ∷ url ∷ user ∷ password ∷ status ∷ color ∷ logo ∷ folder ∷ tags ∷ otp ∷ note
        ∷ kind ∷ rest) =
    record {
      id = id;
      service = service;
      url = url;
      username = user;
      password = unmarked password;
      status = status;
      status_color = color;
      logo = logo;
      folder_id = folder;
      tags = tags_in tags;
      otp_secret = unmarked otp;
      description = unmarked note;
      credential_type = kind_in kind;
    }
    ∷ credentials_in rest
credentials_in _ = []

credentials_in-credential_texts : (cs : List Credential) → credentials_in (credential_texts cs) ≡ cs
credentials_in-credential_texts [] = refl
credentials_in-credential_texts (c ∷ cs) = ground (
  arith,
  unmarked-marked c.password,
  tags_in-tags_text c.tags,
  unmarked-marked c.otp_secret,
  unmarked-marked c.description,
  kind_in-kind c.credential_type,
  credentials_in-credential_texts cs,
)

abbrev config_texts : TravelModeConfig → List (List ℕ)
config_texts c =
    flag c.active
    ∷ marked c.password_hash
    ∷ written c.hidden_folder_ids
    ∷ c.salt
    ∷ c.iv_hex
    ∷ number c.kdf_version
    ∷ []

abbrev config_in : List (List ℕ) → Option TravelModeConfig
config_in (active ∷ hash ∷ ids ∷ salt ∷ iv ∷ version ∷ rest) = some (record {
  active = is_flag active;
  password_hash = unmarked hash;
  hidden_folder_ids = reading [] ids;
  salt = salt;
  iv_hex = iv;
  kdf_version = number_in version;
})
config_in _ = none

is_flag-flag : (b : Bool) → is_flag (flag b) ≡ b
is_flag-flag true = refl
is_flag-flag false = refl

number_in-number : (o : Option ℕ) → number_in (number o) ≡ o
number_in-number none = refl
number_in-number (some n) = refl

pub config_in-config_texts : (c : TravelModeConfig) → config_in (config_texts c) ≡ some c
config_in-config_texts c = ground (
  arith,
  is_flag-flag c.active,
  unmarked-marked c.password_hash,
  reading-written c.hidden_folder_ids,
  number_in-number c.kdf_version,
)

abbrev two_rows : List (List ℕ) → List ℕ × List ℕ
two_rows (a ∷ b ∷ rest) = (a, b)
two_rows _ = ([], [])

abbrev vault_text : HiddenVault → List ℕ
vault_text v =
    written (written (credential_texts v.credentials) ∷ written (folder_texts v.folders) ∷ [])

abbrev vault_in : List ℕ → Option HiddenVault
vault_in s =
    let (credentials, folders) = two_rows (reading [] s) in
    some (record {
      credentials = credentials_in (reading [] credentials);
      folders = folders_in (reading [] folders);
    })

pub vault_in-vault_text : (v : HiddenVault) → vault_in (vault_text v) ≡ some v
vault_in-vault_text v =
    rw
      (
        reading-written
            (written (credential_texts v.credentials) ∷ written (folder_texts v.folders) ∷ []),
        reading-written (credential_texts v.credentials),
        reading-written (folder_texts v.folders),
        credentials_in-credential_texts v.credentials,
        folders_in-folder_texts v.folders,
      )
      refl

abbrev envelope_in : List (List ℕ) → Option Envelope
envelope_in (iv ∷ ct ∷ rest) = some (record { iv = iv; ct = ct })
envelope_in _ = none

abbrev behind_brace : List ℕ → List ℕ
behind_brace [] = []
behind_brace (c ∷ s) = s

abbrev digit_value : ℕ → ℕ
digit_value c = if ltb c 58 then c - 48 else c - 87

abbrev pair_value : List ℕ → ℕ
pair_value (c ∷ d ∷ []) = digit_value c * 16 + digit_value d
pair_value _ = 0

pub pair_value-hex_pair : (b : ℕ) → b < 256 → pair_value (hex_pair b) ≡ b
pair_value-hex_pair b small = ground arith

pub brace_first : (s : List ℕ) → starts_with (text "{") (b'{' ∷ s) ≡ true
unfolding starts_with
brace_first s = refl

-- The cipher keeps its plaintext, and the hash its input.
abbrev pub open_code : TravelCode
open_code = record {
  config_text = λ c. b'{' ∷ written (config_texts c);
  parse_config = λ s. config_in (reading [] (behind_brace s));
  parse_config-config_text =
      λ c. ap config_in (reading-written (config_texts c)) ∙ config_in-config_texts c;
  config_text_brace = λ c. brace_first (written (config_texts c));
  legacy = λ s. none;
  envelope_text = λ e. b'{' ∷ written (e.iv ∷ e.ct ∷ []);
  parse_envelope = λ s. envelope_in (reading [] (behind_brace s));
  parse_envelope-envelope_text = λ e. ap envelope_in (reading-written (e.iv ∷ e.ct ∷ []));
  envelope_text_brace = λ e. brace_first (written (e.iv ∷ e.ct ∷ []));
  plaintext = vault_text;
  parse_plaintext = vault_in;
  parse_plaintext-plaintext = vault_in-vault_text;
  parse_int = pair_value;
  parse_int-hex_pair = pair_value-hex_pair;
  hash_password = λ password salt. 1 ∷ password ++ salt;
  hash_password_some = λ password salt. refl;
  argon2id = λ password salt. 2 ∷ password ++ salt;
  pbkdf2 = λ iterations password salt. iterations ∷ password ++ salt;
  encrypt = λ key iv plain. strokes plain;
  encrypt_bytes = λ key iv plain. strokes_small plain;
  decrypt = λ key iv ct. some (counts ct);
  decrypt-encrypt = λ key iv plain. ap some (counts-strokes plain);
}
