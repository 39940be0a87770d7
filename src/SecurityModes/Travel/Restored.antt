-- ===== src/SecurityModes/Travel/Restored.antt =====
-- Travel mode enabled and disabled (web/src/utils/securityModes.ts).
use mathlib.Core.List.{Perm, perm_middle}
use mathlib.Core.List.Perm
use pwdnow_password_manager.Prelude.{
  ℕ, ◌<◌, List, [], ◌∷◌, ◌++◌, Bool, true, false, ◌≡◌, refl, none, some, ◌&&◌, ◌||◌, not, inl, inr,
  Bool-cases, arith, if◌then◌else◌, or_else, All, keep,
}
use pwdnow_password_manager.Text.{text, text_eq, text_eq_refl, starts_with}
use pwdnow_password_manager.Types.{Folder, Credential}
use pwdnow_password_manager.SecurityModes.Travel.{
  TravelCode, TravelStorage, TravelModeConfig, HiddenVault, Server, Draws, Disabled, has_hash,
  hides, hides_folder, bytes_to_hex, derive_travel_key_bytes, local_config, get_travel_mode_config,
  get_travel_mode_config_async, sealed, stored_vault, opened, migrated, hidden_vault,
  drop_travel_mode, enable_travel_mode, disable_travel_mode, default_travel_config,
}
use pwdnow_password_manager.SecurityModes.Travel.Hex.{hex_to_bytes-bytes_to_hex}

-- What is set aside, put behind the rest.
Perm-keep {ℓ} :
    {A : Type ℓ} (p : A → Bool) (xs : List A) → Perm (keep (λ x. not (p x)) xs ++ keep p xs) xs
Perm-keep p [] = Perm.nil
Perm-keep p (x ∷ xs) = elim (Bool-cases (p x)) [
  | inl hidden ↦ rw hidden (
      Perm.trans (perm_middle (keep (λ y. not (p y)) xs) (keep p xs))
        (Perm.cons x (Perm-keep p xs)))
  | inr visible ↦ rw visible (Perm.cons x (Perm-keep p xs))
]

module _ (code : TravelCode) where
  -- The configuration that was saved is read, if the server that answers was told of it.
  get_travel_mode_config_async-saved :
      (server : Server) (salt : List ℕ) (cfg : TravelModeConfig) (st : TravelStorage)
      → cfg.active ≡ true
      → st.config_item ≡ some (code.config_text cfg)
      → (if server.has_session && server.answers_get_config
          then st.server_config
          else st.config_item)
        ≡ some (code.config_text cfg)
      → get_travel_mode_config_async code server salt st ≡ (cfg, st)
  unfolding get_travel_mode_config_async local_config get_travel_mode_config
  get_travel_mode_config_async-saved server salt cfg st active here there =
      let brace = code.config_text_brace cfg in
      let parsed = code.parse_config-config_text cfg in ground arith

  -- The envelope opens under the password where WebCrypto is there or missing as it was.
  opened-sealed :
      (server before : Server) (password iv plain : List ℕ) (cfg : TravelModeConfig)
      → All (λ b. b < 256) iv
      → server.subtle_available ≡ before.subtle_available
      → cfg.kdf_version ≡ some 2
      → opened code server password cfg (sealed code before password cfg.salt 2 iv plain)
        ≡ some plain
  unfolding opened sealed derive_travel_key_bytes
  opened-sealed server before password iv plain cfg iv_bytes alike version =
      let key = derive_travel_key_bytes code before password cfg.salt 2 in
      let ct = code.encrypt key iv plain in
      rw
        (
          opened,
          sealed,
          code.parse_envelope-envelope_text (record { iv = bytes_to_hex iv; ct = bytes_to_hex ct }),
          hex_to_bytes-bytes_to_hex code.parse_int iv code.parse_int-hex_pair iv_bytes,
          hex_to_bytes-bytes_to_hex code.parse_int ct code.parse_int-hex_pair
              (code.encrypt_bytes key iv plain),
          version,
          alike,
        )
        (code.decrypt-encrypt key iv plain)

  sealed_brace :
      (server : Server) (password salt : List ℕ) (version : ℕ) (iv plain : List ℕ)
      → starts_with (text "{") (sealed code server password salt version iv plain) ≡ true
  unfolding sealed
  sealed_brace server password salt version iv plain = code.envelope_text_brace (record {
    iv = bytes_to_hex iv;
    ct =
        bytes_to_hex
          (code.encrypt (derive_travel_key_bytes code server password salt version) iv plain);
  })

  hidden_vault-sealed :
      (server before : Server) (new_iv password iv : List ℕ) (cfg : TravelModeConfig)
      (hidden : HiddenVault) (st : TravelStorage)
      → All (λ b. b < 256) iv
      → server.subtle_available ≡ before.subtle_available
      → cfg.kdf_version ≡ some 2
      → st.vault_item ≡ some (sealed code before password cfg.salt 2 iv (code.plaintext hidden))
      → hidden_vault code server new_iv password cfg st ≡ some (hidden, st)
  unfolding hidden_vault stored_vault migrated
  hidden_vault-sealed server before new_iv password iv cfg hidden st iv_bytes alike version there =
      let brace = sealed_brace before password cfg.salt 2 iv (code.plaintext hidden) in
      let plain =
        opened-sealed server before password iv (code.plaintext hidden) cfg iv_bytes alike
          version in
      let parsed = code.parse_plaintext-plaintext hidden in ground arith

-- The branch on which everything is found.
disable_travel_mode-eq :
    (code : TravelCode) (server : Server) (draws : Draws) (password : List ℕ)
    (credentials : List Credential) (folders : List Folder) (st : TravelStorage)
    (cfg : TravelModeConfig) (st' : TravelStorage) (hidden : HiddenVault) (st'' : TravelStorage)
    → get_travel_mode_config_async code server draws.default_salt st ≡ (cfg, st')
    → cfg.active ≡ true
    → has_hash cfg ≡ true
    → text_eq (code.hash_password password cfg.salt) (or_else cfg.password_hash []) ≡ true
    → hidden_vault code server draws.iv password cfg st' ≡ some (hidden, st'')
    → disable_travel_mode code server draws password credentials folders st ≡ (
      record {
        ok = true;
        credentials = credentials ++ hidden.credentials;
        folders = folders ++ hidden.folders;
      },
      drop_travel_mode code server draws st'',
    )
unfolding disable_travel_mode
disable_travel_mode-eq code server draws password credentials folders st cfg st' hidden st'' read
      active hash same found =
    ground arith

-- The visible vault with the storage after enabling, and the outcome with the storage after
-- disabling under the same password.
module _ (code : TravelCode) (first second : Server) (draws later : Draws) (password : List ℕ)
    (ids : List (List ℕ)) (credentials : List Credential) (folders : List Folder)
    (st : TravelStorage) where
  abbrev pub enabled : HiddenVault × TravelStorage
  enabled = enable_travel_mode code first draws password ids credentials folders st

  abbrev pub disabled : Disabled × TravelStorage
  disabled =
      disable_travel_mode code second later password enabled.0.credentials enabled.0.folders
        enabled.1

  abbrev enabled_config : TravelModeConfig
  enabled_config = record {
    active = true;
    password_hash = some (code.hash_password password draws.salt);
    hidden_folder_ids = ids;
    salt = draws.salt;
    iv_hex = bytes_to_hex draws.iv;
    kdf_version = some 2;
  }

  abbrev hidden_part : HiddenVault
  hidden_part = record {
    credentials = keep (hides ids) credentials;
    folders = keep (hides_folder ids) folders;
  }

  config_read :
      (not (second.has_session && second.answers_get_config)
          || (first.has_session && first.answers_put_config))
        ≡ true
      → get_travel_mode_config_async code second later.default_salt enabled.1
        ≡ (enabled_config, enabled.1)
  unfolding enable_travel_mode
  config_read synced =
      get_travel_mode_config_async-saved code second later.default_salt enabled_config enabled.1
        refl refl (ground arith)

  opened_vault :
      All (λ b. b < 256) draws.iv
      → second.subtle_available ≡ first.subtle_available
      → hidden_vault code second later.iv password enabled_config enabled.1
        ≡ some (hidden_part, enabled.1)
  unfolding enable_travel_mode
  opened_vault iv_bytes alike =
      hidden_vault-sealed code second first later.iv password draws.iv enabled_config hidden_part
        enabled.1 iv_bytes alike refl refl

  visible_part :
      (enabled.0.credentials ≡ keep (λ c. not (hides ids c)) credentials)
      × (enabled.0.folders ≡ keep (λ f. not (hides_folder ids f)) folders)
  unfolding enable_travel_mode
  visible_part = (refl, refl)

  -- The outcome, computed.
  disabled-eq :
      All (λ b. b < 256) draws.iv
      → second.subtle_available ≡ first.subtle_available
      → (not (second.has_session && second.answers_get_config)
          || (first.has_session && first.answers_put_config))
        ≡ true
      → disabled ≡ (
        record {
          ok = true;
          credentials = enabled.0.credentials ++ hidden_part.credentials;
          folders = enabled.0.folders ++ hidden_part.folders;
        },
        drop_travel_mode code second later enabled.1,
      )
  disabled-eq iv_bytes alike synced =
      let some_hash = code.hash_password_some password draws.salt in
      disable_travel_mode-eq code second later password enabled.0.credentials enabled.0.folders
        enabled.1 enabled_config enabled.1 hidden_part enabled.1 (config_read synced) refl
        (ground arith) (text_eq_refl (code.hash_password password draws.salt))
        (opened_vault iv_bytes alike)

  -- Disabling undoes enabling: with an initialisation vector of bytes, if WebCrypto is there both
  -- times or neither time, and unless the server that is asked for the configuration did not
  -- take it when it was saved, disabling travel mode under the password it was enabled with
  -- succeeds and gives back a permutation of the credentials and of the folders. The browser
  -- then holds no hidden vault, and its configuration is inactive. The server then holds no hidden
  -- vault if there was a session and it answered the deletion; else its copy stays as it was.
  pub disable_travel_mode-enable_travel_mode :
      All (λ b. b < 256) draws.iv
      → second.subtle_available ≡ first.subtle_available
      → (not (second.has_session && second.answers_get_config)
          || (first.has_session && first.answers_put_config))
        ≡ true
      → (disabled.0.ok ≡ true)
        × Perm disabled.0.credentials credentials
        × Perm disabled.0.folders folders
        × (disabled.1.vault_item ≡ none)
        × (disabled.1.server_vault ≡ (
            if second.has_session && second.answers_delete_vault
            then none
            else enabled.1.server_vault))
        × ((get_travel_mode_config code later.default_salt disabled.1).active ≡ false)
  unfolding drop_travel_mode get_travel_mode_config
  disable_travel_mode-enable_travel_mode iv_bytes alike synced =
      let (visible, visible_folders) = visible_part in
      rw (disabled-eq iv_bytes alike synced, visible, visible_folders)
        (
          refl,
          Perm-keep (hides ids) credentials,
          Perm-keep (hides_folder ids) folders,
          refl,
          refl,
          inactive,
        )
    where
      inactive :
          (get_travel_mode_config code later.default_salt
            (drop_travel_mode code second later enabled.1)).active
          ≡ false
      inactive =
          let cfg = default_travel_config later.salt in
          rw (code.config_text_brace cfg, code.parse_config-config_text cfg) refl
