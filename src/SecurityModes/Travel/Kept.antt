-- ===== src/SecurityModes/Travel/Kept.antt =====
-- A refusal keeps the hidden vault (web/src/utils/securityModes.ts).
use pwdnow_password_manager.Prelude.{ℕ, List, false, ◌≡◌, arith}
use pwdnow_password_manager.Types.{Folder, Credential}
use pwdnow_password_manager.SecurityModes.Travel.{
  TravelCode, TravelStorage, Server, Draws, local_config, get_travel_mode_config_async,
  disable_travel_mode,
}

-- The two places of the hidden vault are the same.
abbrev pub SameVault : TravelStorage → TravelStorage → Type 0
SameVault st st' = (st'.vault_item ≡ st.vault_item) × (st'.server_vault ≡ st.server_vault)

local_config-SameVault :
    (code : TravelCode) (salt : List ℕ) (st : TravelStorage)
    → SameVault st (local_config code salt st).1
unfolding local_config
local_config-SameVault code salt st = ground arith

-- Reading the configuration does not touch the hidden vault.
pub get_travel_mode_config_async-SameVault :
    (code : TravelCode) (server : Server) (salt : List ℕ) (st : TravelStorage)
    → SameVault st (get_travel_mode_config_async code server salt st).1
unfolding get_travel_mode_config_async
get_travel_mode_config_async-SameVault code server salt st =
    ground (arith, local_config-SameVault code salt st)

-- A refusal destroys nothing: whatever the storage, the password and the server's answers, when
-- disabling travel mode does not succeed, the hidden vault stays as it was, in the browser's
-- storage and on the server.
pub disable_travel_mode-kept :
    (code : TravelCode) (server : Server) (draws : Draws) (password : List ℕ)
    (credentials : List Credential) (folders : List Folder) (st : TravelStorage)
    → (disable_travel_mode code server draws password credentials folders st).0.ok ≡ false
    → SameVault st (disable_travel_mode code server draws password credentials folders st).1
unfolding disable_travel_mode
disable_travel_mode-kept code server draws password credentials folders st not_ok =
    ground (arith, get_travel_mode_config_async-SameVault code server draws.default_salt st)
