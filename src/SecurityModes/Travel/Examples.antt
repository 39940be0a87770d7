-- ===== src/SecurityModes/Travel/Examples.antt =====
-- The theorems on travel mode at concrete inputs.
use mathlib.Core.List.{Perm}
use pwdnow_password_manager.Prelude.{ℕ, List, [], ◌∷◌, true, false, ◌≡◌, refl, none, some, arith}
use pwdnow_password_manager.Text.{text, starts_with}
use pwdnow_password_manager.Types.{Folder, Credential}
use pwdnow_password_manager.SecurityModes.Travel.{
  TravelStorage, Server, Draws, Disabled, enable_travel_mode, get_travel_mode_config_async,
  get_travel_mode_config, disable_travel_mode,
}
use pwdnow_password_manager.SecurityModes.Travel.Restored.{
  enabled, disabled, disable_travel_mode-enable_travel_mode,
}
use pwdnow_password_manager.SecurityModes.Travel.Kept.{SameVault, disable_travel_mode-kept}
use pwdnow_password_manager.SecurityModes.Travel.OpenCode.{open_code}

abbrev online : Server
online = record {
  subtle_available = true;
  has_session = true;
  answers_get_config = true;
  answers_put_config = true;
  answers_delete_config = true;
  answers_get_vault = true;
  answers_put_vault = true;
  answers_delete_vault = true;
}

abbrev drawn : Draws
drawn = record { default_salt = text "d"; salt = text "s"; iv = 7 ∷ 200 ∷ []; noise = 1 ∷ [] }

abbrev mail : List ℕ → Credential
mail folder = record {
  id = folder;
  service = text "Mail";
  url = text "https://mail";
  username = text "me";
  password = some (text "secret");
  status = text "active";
  status_color = [];
  logo = [];
  folder_id = folder;
  tags = none;
  otp_secret = none;
  description = none;
  credential_type = none;
}

abbrev vault : List Credential
vault = mail (text "home") ∷ mail (text "work") ∷ mail (text "home") ∷ []

abbrev work : List Folder
work = record { id = text "work"; label = text "Work"; description = none } ∷ []

abbrev empty_storage : TravelStorage
empty_storage = record {
  config_item = none;
  vault_item = none;
  server_config = none;
  server_vault = none;
}

abbrev outcome : Disabled × TravelStorage
outcome =
    disabled open_code online online drawn drawn (text "pw") (text "home" ∷ []) vault work
      empty_storage

disable_travel_mode-enable_travel_mode_example :
    (outcome.0.ok ≡ true)
    × Perm outcome.0.credentials vault
    × Perm outcome.0.folders work
    × (outcome.1.vault_item ≡ none)
    × (outcome.1.server_vault ≡ none)
    × ((get_travel_mode_config open_code (text "d") outcome.1).active ≡ false)
disable_travel_mode-enable_travel_mode_example =
    disable_travel_mode-enable_travel_mode open_code online online drawn drawn (text "pw")
      (text "home" ∷ []) vault work empty_storage (omega arith, (omega arith, tt)) refl refl

abbrev hiding : TravelStorage
hiding =
    (enabled open_code online online drawn drawn (text "pw") (text "home" ∷ []) vault work
      empty_storage).1

-- A wrong password.
disable_travel_mode-kept_example :
    SameVault hiding (disable_travel_mode open_code online drawn (text "wp") [] work hiding).1
unfolding disable_travel_mode enable_travel_mode get_travel_mode_config_async starts_with
disable_travel_mode-kept_example =
    disable_travel_mode-kept open_code online drawn (text "wp") [] work hiding refl
