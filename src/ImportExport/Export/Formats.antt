-- ===== src/ImportExport/Export/Formats.antt =====
-- The twelve formats whose exporter escapes every cell: the exporters, the values of a row and the
-- names in the header.
use pwdnow_password_manager.Prelude.{ℕ, List, [], ◌∷◌, or_else}
use pwdnow_password_manager.Text.{text}
use pwdnow_password_manager.Types.{Folder, Credential}
use pwdnow_password_manager.ImportExport.Import.{Browser}
use pwdnow_password_manager.ImportExport.Export.{
  folder_cell, otp_value, export_to_pwdnow_csv, pwdnow_csv_cells, export_to_bitwarden_csv,
  bitwarden_csv_cells, export_to_one_password_csv, one_password_csv_cells, export_to_nord_pass,
  nord_pass_cells, export_to_last_pass, last_pass_cells, export_to_chrome, chrome_cells,
  export_to_kee_pass_csv, kee_pass_csv_cells, export_to_keeper_csv, keeper_csv_cells,
  export_to_robo_form, robo_form_cells, export_to_zoho_csv, zoho_csv_cells, export_to_passbolt_csv,
  passbolt_csv_cells, export_to_enpass_csv, enpass_csv_cells,
}

-- The twelve formats whose exporter escapes every cell.
pub data CsvFormat : Type 0 where
  pwdnow_csv : CsvFormat
  bitwarden_csv : CsvFormat
  one_password_csv : CsvFormat
  nord_pass : CsvFormat
  last_pass : CsvFormat
  chrome : CsvFormat
  kee_pass_csv : CsvFormat
  keeper_csv : CsvFormat
  robo_form : CsvFormat
  zoho_csv : CsvFormat
  passbolt_csv : CsvFormat
  enpass_csv : CsvFormat

module _ (browser : Browser) (folders : List Folder) where
  -- The exporters, and the values of a row and of the header.
  abbrev pub export_as : CsvFormat → List Credential → List ℕ
  export_as pwdnow_csv cs = export_to_pwdnow_csv cs
  export_as bitwarden_csv cs = export_to_bitwarden_csv browser folders cs
  export_as one_password_csv cs = export_to_one_password_csv browser cs
  export_as nord_pass cs = export_to_nord_pass cs
  export_as last_pass cs = export_to_last_pass browser cs
  export_as chrome cs = export_to_chrome cs
  export_as kee_pass_csv cs = export_to_kee_pass_csv cs
  export_as keeper_csv cs = export_to_keeper_csv browser folders cs
  export_as robo_form cs = export_to_robo_form folders cs
  export_as zoho_csv cs = export_to_zoho_csv cs
  export_as passbolt_csv cs = export_to_passbolt_csv cs
  export_as enpass_csv cs = export_to_enpass_csv browser cs

  abbrev pub cells_of : CsvFormat → Credential → List (List ℕ)
  cells_of pwdnow_csv c = pwdnow_csv_cells c
  cells_of bitwarden_csv c = bitwarden_csv_cells browser folders c
  cells_of one_password_csv c = one_password_csv_cells browser c
  cells_of nord_pass c = nord_pass_cells c
  cells_of last_pass c = last_pass_cells browser c
  cells_of chrome c = chrome_cells c
  cells_of kee_pass_csv c = kee_pass_csv_cells c
  cells_of keeper_csv c = keeper_csv_cells browser folders c
  cells_of robo_form c = robo_form_cells folders c
  cells_of zoho_csv c = zoho_csv_cells c
  cells_of passbolt_csv c = passbolt_csv_cells c
  cells_of enpass_csv c = enpass_csv_cells browser c

  abbrev pub values_of : CsvFormat → Credential → List (List ℕ)
  values_of pwdnow_csv c =
      c.service
      ∷ c.url
      ∷ c.username
      ∷ or_else c.password []
      ∷ or_else c.description []
      ∷ or_else c.otp_secret []
      ∷ c.folder_id
      ∷ []
  values_of bitwarden_csv c =
      folder_cell folders c
      ∷ text "0"
      ∷ text "login"
      ∷ c.service
      ∷ or_else c.description []
      ∷ []
      ∷ text "0"
      ∷ c.url
      ∷ c.username
      ∷ or_else c.password []
      ∷ otp_value browser c
      ∷ []
  values_of one_password_csv c =
      c.service
      ∷ c.username
      ∷ or_else c.password []
      ∷ c.url
      ∷ or_else c.description []
      ∷ otp_value browser c
      ∷ []
  values_of nord_pass c =
      c.service
      ∷ c.url
      ∷ c.username
      ∷ or_else c.password []
      ∷ or_else c.description []
      ∷ []
      ∷ []
      ∷ []
      ∷ []
      ∷ []
      ∷ text "login"
      ∷ []
  values_of last_pass c =
      c.url
      ∷ c.username
      ∷ or_else c.password []
      ∷ otp_value browser c
      ∷ or_else c.description []
      ∷ c.service
      ∷ []
      ∷ text "0"
      ∷ []
  values_of chrome c =
      c.service ∷ c.url ∷ c.username ∷ or_else c.password [] ∷ or_else c.description [] ∷ []
  values_of kee_pass_csv c =
      c.service ∷ c.username ∷ or_else c.password [] ∷ c.url ∷ or_else c.description [] ∷ []
  values_of keeper_csv c =
      folder_cell folders c
      ∷ c.service
      ∷ c.username
      ∷ or_else c.password []
      ∷ c.url
      ∷ or_else c.description []
      ∷ text "FALSE"
      ∷ otp_value browser c
      ∷ []
  values_of robo_form c =
      c.service
      ∷ c.url
      ∷ c.username
      ∷ or_else c.password []
      ∷ or_else c.description []
      ∷ folder_cell folders c
      ∷ []
  values_of zoho_csv c =
      c.service ∷ c.username ∷ or_else c.password [] ∷ or_else c.description [] ∷ c.url ∷ [] ∷ []
  values_of passbolt_csv c =
      c.service ∷ c.username ∷ or_else c.password [] ∷ c.url ∷ or_else c.description [] ∷ []
  values_of enpass_csv c =
      c.service
      ∷ c.url
      ∷ c.username
      ∷ or_else c.password []
      ∷ or_else c.description []
      ∷ otp_value browser c
      ∷ []

abbrev pub headers_in : CsvFormat → List (List ℕ)
headers_in pwdnow_csv =
    text "name"
    ∷ text "url"
    ∷ text "username"
    ∷ text "password"
    ∷ text "notes"
    ∷ text "otp_secret"
    ∷ text "folder"
    ∷ []
headers_in bitwarden_csv =
    text "folder"
    ∷ text "favorite"
    ∷ text "type"
    ∷ text "name"
    ∷ text "notes"
    ∷ text "fields"
    ∷ text "reprompt"
    ∷ text "login_uri"
    ∷ text "login_username"
    ∷ text "login_password"
    ∷ text "login_totp"
    ∷ []
headers_in one_password_csv =
    text "Title"
    ∷ text "Username"
    ∷ text "Password"
    ∷ text "URL"
    ∷ text "Notes"
    ∷ text "OTPAuth"
    ∷ []
headers_in nord_pass =
    text "name"
    ∷ text "url"
    ∷ text "username"
    ∷ text "password"
    ∷ text "note"
    ∷ text "cardholder_name"
    ∷ text "card_number"
    ∷ text "expiry_date"
    ∷ text "cvv"
    ∷ text "notes"
    ∷ text "type"
    ∷ []
headers_in last_pass =
    text "url"
    ∷ text "username"
    ∷ text "password"
    ∷ text "totp"
    ∷ text "extra"
    ∷ text "name"
    ∷ text "grouping"
    ∷ text "fav"
    ∷ []
headers_in chrome = text "name" ∷ text "url" ∷ text "username" ∷ text "password" ∷ text "note" ∷ []
headers_in kee_pass_csv =
    text "Account" ∷ text "Login Name" ∷ text "Password" ∷ text "Web Site" ∷ text "Comments" ∷ []
headers_in keeper_csv =
    text "Folder"
    ∷ text "Title"
    ∷ text "Login"
    ∷ text "Password"
    ∷ text "Website"
    ∷ text "Notes"
    ∷ text "Shared"
    ∷ text "Two-Factor"
    ∷ []
headers_in robo_form =
    text "Name" ∷ text "Url" ∷ text "Login" ∷ text "Pwd" ∷ text "Note" ∷ text "Folder" ∷ []
headers_in zoho_csv =
    text "Secret Name"
    ∷ text "Account Name"
    ∷ text "Password"
    ∷ text "Comments"
    ∷ text "Url"
    ∷ text "Tags"
    ∷ []
headers_in passbolt_csv =
    text "Title" ∷ text "Username" ∷ text "Password" ∷ text "URL" ∷ text "Description" ∷ []
headers_in enpass_csv =
    text "Title"
    ∷ text "URL"
    ∷ text "Username"
    ∷ text "Password"
    ∷ text "Notes"
    ∷ text "One-Time Password"
    ∷ []
