-- ===== src/SecurityModes/Travel.antt =====
-- Travel mode of web/src/utils/securityModes.ts: part of the vault is set aside under a password of
-- its own, in the browser's storage and, with a session, on the server. The cipher, the key
-- derivations, the password hash and JSON are parameters; which requests the server answers is an
-- argument.
mod State
pub mod Hex
pub mod Restored
pub mod Kept
mod OpenCode
mod Examples
unfoldable pub use State.*
use pwdnow_password_manager.Prelude.{
  ℕ, ◌+◌, ◌*◌, ◌/◌, ◌%◌, ◌<◌, ◌≡◌, List, [], ◌∷◌, ◌++◌, Bool, true, false, ◌&&◌, ◌||◌, not, Option,
  none, some, ltb, ◌==◌, if◌then◌else◌, any, keep, or_else, All,
}
use pwdnow_password_manager.Text.{text, text_eq, starts_with}
use pwdnow_password_manager.Types.{Folder, Credential}

module _ (code : TravelCode) where
  unfoldable pub get_travel_mode_config : List ℕ → TravelStorage → TravelModeConfig
  get_travel_mode_config salt st = elim st.config_item [
    | none ↦ default_travel_config salt
    | some raw ↦
        if starts_with (text "{") raw
        then or_else (code.parse_config raw) (default_travel_config salt)
        else default_travel_config salt
  ]

  -- What the local items say, with the old encrypted form read and replaced.
  unfoldable pub local_config : List ℕ → TravelStorage → TravelModeConfig × TravelStorage
  unfolding get_travel_mode_config
  local_config salt st =
      let sync = get_travel_mode_config salt st in
      if sync.active || has_hash sync then (sync, st) else elim st.config_item [
        | none ↦ (sync, st)
        | some raw ↦ elim (code.legacy raw) [
          | none ↦ (sync, st)
          | some migrated ↦ (migrated, record st { config_item = some (code.config_text migrated) })
        ]
      ]

  unfoldable pub get_travel_mode_config_async :
      Server → List ℕ → TravelStorage → TravelModeConfig × TravelStorage
  unfolding local_config
  get_travel_mode_config_async server salt st =
      if server.has_session && server.answers_get_config
      then elim st.server_config [
        | none ↦ (default_travel_config salt, record st { config_item = none })
        | some body ↦
            if starts_with (text "{") body
            then elim (code.parse_config body) [
              | none ↦ local_config salt st
              | some parsed ↦ (parsed, record st { config_item = some body })
            ]
            else local_config salt st
      ]
      else local_config salt st

  unfoldable pub save_travel_mode_config : Server → TravelModeConfig → TravelStorage → TravelStorage
  save_travel_mode_config server cfg st =
      let payload = code.config_text cfg in
      record st {
        config_item = some payload;
        server_config =
            if server.has_session && server.answers_put_config
            then some payload
            else st.server_config;
      }

  -- The envelope's text of a vault under a password.
  unfoldable pub sealed : Server → List ℕ → List ℕ → ℕ → List ℕ → List ℕ → List ℕ
  unfolding bytes_to_hex derive_travel_key_bytes
  sealed server password salt version iv plain = code.envelope_text (record {
    iv = bytes_to_hex iv;
    ct =
        bytes_to_hex
          (code.encrypt (derive_travel_key_bytes code server password salt version) iv plain);
  })

  unfoldable pub enable_travel_mode :
      Server
      → Draws
      → List ℕ
      → List (List ℕ)
      → List Credential
      → List Folder
      → TravelStorage
      → HiddenVault × TravelStorage
  unfolding sealed save_travel_mode_config bytes_to_hex
  enable_travel_mode server draws password ids credentials folders st =
      let hidden : HiddenVault = record {
        credentials = keep (hides ids) credentials;
        folders = keep (hides_folder ids) folders;
      } in
      let envelope = sealed server password draws.salt 2 draws.iv (code.plaintext hidden) in
      let overwritten : TravelStorage = record st {
        vault_item = some (bytes_to_hex draws.noise);
      } in
      let stored : TravelStorage = record overwritten {
        vault_item = some envelope;
        server_vault =
            if server.has_session && server.answers_put_vault
            then some envelope
            else st.server_vault;
      } in
      let visible : HiddenVault = record {
        credentials = keep (λ c. not (hides ids c)) credentials;
        folders = keep (λ f. not (hides_folder ids f)) folders;
      } in
      (
        visible,
        save_travel_mode_config server
            (record {
              active = true;
              password_hash = some (code.hash_password password draws.salt);
              hidden_folder_ids = ids;
              salt = draws.salt;
              iv_hex = bytes_to_hex draws.iv;
              kdf_version = some 2;
            })
            stored,
      )

  -- The text that holds the hidden vault: the item, or the server's copy where the item is missing.
  unfoldable pub stored_vault : Server → TravelStorage → Option (List ℕ)
  stored_vault server st =
      if not (is_object st.vault_item) && server.has_session && server.answers_get_vault
      then elim st.server_vault [ none ↦ st.vault_item | some body ↦ some body ]
      else st.vault_item

  -- The plaintext of an envelope.
  unfoldable pub opened : Server → List ℕ → TravelModeConfig → List ℕ → Option (List ℕ)
  unfolding hex_to_bytes derive_travel_key_bytes
  opened server password cfg stored = elim (code.parse_envelope stored) [
    | none ↦ none
    | some e ↦
        code.decrypt
          (derive_travel_key_bytes code server password cfg.salt (or_else cfg.kdf_version 1))
          (hex_to_bytes code.parse_int e.iv) (hex_to_bytes code.parse_int e.ct)
  ]

  -- What an old version's vault becomes before it is dropped.
  unfoldable pub migrated :
      Server → List ℕ → List ℕ → TravelModeConfig → List ℕ → TravelStorage → TravelStorage
  unfolding sealed
  migrated server iv password cfg plain st =
      if or_else cfg.kdf_version 1 == 1
      then record st { vault_item = some (sealed server password cfg.salt 2 iv plain) }
      else st

  -- `none` where the vault cannot be opened; an item that is no object holds nothing.
  unfoldable pub hidden_vault :
      Server
      → List ℕ
      → List ℕ
      → TravelModeConfig
      → TravelStorage
      → Option (HiddenVault × TravelStorage)
  unfolding stored_vault opened migrated
  hidden_vault server iv password cfg st = elim (stored_vault server st) [
    | none ↦ some (record { credentials = []; folders = [] }, st)
    | some stored ↦
        if starts_with (text "{") stored
        then elim (opened server password cfg stored) [
          | none ↦ none
          | some plain ↦ elim (code.parse_plaintext plain) [
            | none ↦ none
            | some hidden ↦ some (hidden, migrated server iv password cfg plain st)
          ]
        ]
        else some (record { credentials = []; folders = [] }, st)
  ]

  unfoldable pub drop_travel_mode : Server → Draws → TravelStorage → TravelStorage
  unfolding save_travel_mode_config bytes_to_hex
  drop_travel_mode server draws st =
      let noisy : TravelStorage = record st { vault_item = some (bytes_to_hex draws.noise) } in
      let dropped : TravelStorage = record noisy {
        vault_item = none;
        server_vault =
            if server.has_session && server.answers_delete_vault then none else st.server_vault;
        server_config =
            if server.has_session && server.answers_delete_config then none else st.server_config;
      } in
      save_travel_mode_config server (default_travel_config draws.salt) dropped

  unfoldable pub disable_travel_mode :
      Server
      → Draws
      → List ℕ
      → List Credential
      → List Folder
      → TravelStorage
      → Disabled × TravelStorage
  disable_travel_mode server draws password credentials folders st =
      let (cfg, st') = get_travel_mode_config_async server draws.default_salt st in
      if not (cfg.active) || not (has_hash cfg)
      then (refused, st')
      else if not (text_eq (code.hash_password password cfg.salt) (or_else cfg.password_hash []))
      then (refused, st')
      else elim (hidden_vault server draws.iv password cfg st') [
        | none ↦ (refused, st')
        | some (hidden, st'') ↦ (
          record {
            ok = true;
            credentials = credentials ++ hidden.credentials;
            folders = folders ++ hidden.folders;
          },
          drop_travel_mode server draws st'',
        )
      ]
