-- ===== src/ImportExport/Restored.antt =====
-- Importing what was exported, format by format.
use pwdnow_password_manager.Prelude.{
  ℕ, ◌+◌, List, [], ◌∷◌, Bool, true, false, ◌≡◌, refl, ◌∙◌, ap, Option, none, some, or_else, map,
  all, if◌then◌else◌, ◌&&◌,
}
use pwdnow_password_manager.Text.{text, trim, trim_start, is_space}
use pwdnow_password_manager.Types.{Folder, Credential}
use pwdnow_password_manager.ImportExport.Import.{
  Browser, ColMap, Columns, ImportResult, is_empty, index_of, csv_import, columns_of, headers_of,
  import_rows, otp_secret_of, credential_of, is_skipped,
}
use pwdnow_password_manager.ImportExport.Import.Headers.{
  lowered, first_of, headers_of-ascii, columns_of-ascii, ascii_columns, has_ascii_names, is_ascii,
}
use pwdnow_password_manager.ImportExport.Import.Formats.{
  chrome_columns, last_pass_columns, one_password_csv_columns, nord_pass_columns,
  bitwarden_csv_columns, kee_pass_csv_columns, keeper_csv_columns, robo_form_columns, zoho_columns,
  passbolt_columns, enpass_csv_columns, pwdnow_csv_columns, import_chrome, import_last_pass,
  import_one_password_csv, import_nord_pass, import_bitwarden_csv, import_kee_pass_csv,
  import_keeper_csv, import_robo_form, import_zoho, import_passbolt, import_enpass_csv,
  import_pwdnow_csv,
}
use pwdnow_password_manager.ImportExport.Export.{folder_cell, otp_value}
use pwdnow_password_manager.ImportExport.Export.Formats.{
  CsvFormat, pwdnow_csv, bitwarden_csv, one_password_csv, nord_pass, last_pass, chrome,
  kee_pass_csv, keeper_csv, robo_form, zoho_csv, passbolt_csv, enpass_csv, export_as, values_of,
  headers_in,
}
use pwdnow_password_manager.ImportExport.Export.Written.{AllUnbroken, parse_csv-export_as}

-- The importer of each format.
abbrev pub import_as : Browser → CsvFormat → List ℕ → ImportResult
import_as browser pwdnow_csv s = import_pwdnow_csv browser s
import_as browser bitwarden_csv s = import_bitwarden_csv browser s
import_as browser one_password_csv s = import_one_password_csv browser s
import_as browser nord_pass s = import_nord_pass browser s
import_as browser last_pass s = import_last_pass browser s
import_as browser chrome s = import_chrome browser s
import_as browser kee_pass_csv s = import_kee_pass_csv browser s
import_as browser keeper_csv s = import_keeper_csv browser s
import_as browser robo_form s = import_robo_form browser s
import_as browser zoho_csv s = import_zoho browser s
import_as browser passbolt_csv s = import_passbolt browser s
import_as browser enpass_csv s = import_enpass_csv browser s

module _ (browser : Browser) (folders : List Folder) where
  -- What the formats keep of the one-time password's secret and of the folder.
  abbrev pub otp_kept : CsvFormat → Credential → List ℕ
  otp_kept pwdnow_csv c = or_else c.otp_secret []
  otp_kept bitwarden_csv c = otp_value browser c
  otp_kept one_password_csv c = otp_value browser c
  otp_kept last_pass c = otp_value browser c
  otp_kept keeper_csv c = otp_value browser c
  otp_kept enpass_csv c = otp_value browser c
  otp_kept _ c = []

  abbrev pub folder_kept : CsvFormat → Credential → List ℕ
  folder_kept pwdnow_csv c = c.folder_id
  folder_kept bitwarden_csv c = folder_cell folders c
  folder_kept keeper_csv c = folder_cell folders c
  folder_kept robo_form c = folder_cell folders c
  folder_kept _ c = []

  -- The credential that comes back.
  abbrev pub restored : CsvFormat → ℕ → Credential → Credential
  restored f n c = record {
    id = browser.uuid n;
    service = if is_empty (trim c.service) then text "Untitled" else trim c.service;
    url = c.url;
    username = c.username;
    password = some (or_else c.password []);
    status = text "active";
    status_color = text "#22c55e";
    logo = [];
    folder_id = [];
    tags = some (if is_empty (folder_kept f c) then [] else folder_kept f c ∷ []);
    otp_secret = otp_secret_of browser (otp_kept f c);
    description = some (or_else c.description []);
    credential_type = none;
  }

  abbrev pub all_restored : CsvFormat → ℕ → List Credential → List Credential
  all_restored f n [] = []
  all_restored f n (c ∷ cs) = restored f n c ∷ all_restored f (n + 1) cs

  abbrev columns_in : CsvFormat → ColMap
  columns_in pwdnow_csv = pwdnow_csv_columns
  columns_in bitwarden_csv = bitwarden_csv_columns
  columns_in one_password_csv = one_password_csv_columns
  columns_in nord_pass = nord_pass_columns
  columns_in last_pass = last_pass_columns
  columns_in chrome = chrome_columns
  columns_in kee_pass_csv = kee_pass_csv_columns
  columns_in keeper_csv = keeper_csv_columns
  columns_in robo_form = robo_form_columns
  columns_in zoho_csv = zoho_columns
  columns_in passbolt_csv = passbolt_columns
  columns_in enpass_csv = enpass_csv_columns

  abbrev filter_in : CsvFormat → Option (List ℕ)
  filter_in bitwarden_csv = some (text "login")
  filter_in nord_pass = some (text "login")
  filter_in _ = none

  abbrev found : CsvFormat → Columns
  found f = ascii_columns (columns_in f) (map (λ h. trim (lowered h)) (headers_in f))

  headers_ascii : (f : CsvFormat) → all is_ascii (headers_in f) ≡ true
  headers_ascii pwdnow_csv = refl
  headers_ascii bitwarden_csv = refl
  headers_ascii one_password_csv = refl
  headers_ascii nord_pass = refl
  headers_ascii last_pass = refl
  headers_ascii chrome = refl
  headers_ascii kee_pass_csv = refl
  headers_ascii keeper_csv = refl
  headers_ascii robo_form = refl
  headers_ascii zoho_csv = refl
  headers_ascii passbolt_csv = refl
  headers_ascii enpass_csv = refl

  names_ascii : (f : CsvFormat) → has_ascii_names (columns_in f) ≡ true
  names_ascii pwdnow_csv = refl
  names_ascii bitwarden_csv = refl
  names_ascii one_password_csv = refl
  names_ascii nord_pass = refl
  names_ascii last_pass = refl
  names_ascii chrome = refl
  names_ascii kee_pass_csv = refl
  names_ascii keeper_csv = refl
  names_ascii robo_form = refl
  names_ascii zoho_csv = refl
  names_ascii passbolt_csv = refl
  names_ascii enpass_csv = refl

  named : (b : Bool) → (b && false && false) ≡ false
  named true = refl
  named false = refl

  -- A row of values becomes the credential.
  row-restored :
      (f : CsvFormat) (n : ℕ) (c : Credential)
      → (is_skipped browser (filter_in f) (found f) (values_of browser folders f c) ≡ false)
        × (credential_of browser (found f) n (values_of browser folders f c) ≡ restored f n c)
  unfolding first_of index_of trim trim_start is_space
  row-restored pwdnow_csv n c = (named (is_empty (trim c.service)), refl)
  row-restored bitwarden_csv n c =
      (rw (browser.to_lower_ascii (text "login") refl) (named (is_empty (trim c.service))), refl)
  row-restored one_password_csv n c = (named (is_empty (trim c.service)), refl)
  row-restored nord_pass n c =
      (rw (browser.to_lower_ascii (text "login") refl) (named (is_empty (trim c.service))), refl)
  row-restored last_pass n c = (named (is_empty (trim c.service)), refl)
  row-restored chrome n c = (named (is_empty (trim c.service)), refl)
  row-restored kee_pass_csv n c = (named (is_empty (trim c.service)), refl)
  row-restored keeper_csv n c = (named (is_empty (trim c.service)), refl)
  row-restored robo_form n c = (named (is_empty (trim c.service)), refl)
  row-restored zoho_csv n c = (named (is_empty (trim c.service)), refl)
  row-restored passbolt_csv n c = (named (is_empty (trim c.service)), refl)
  row-restored enpass_csv n c = (named (is_empty (trim c.service)), refl)

  import_rows-restored :
      (f : CsvFormat) (n : ℕ) (cs : List Credential)
      → import_rows browser (filter_in f) (found f) n (map (values_of browser folders f) cs)
        ≡ all_restored f n cs
  unfolding import_rows
  import_rows-restored f n [] = refl
  import_rows-restored f n (c ∷ cs) =
      let (kept, same) = row-restored f n c in
      rw (kept, same) (ap (λ r. restored f n c ∷ r) (import_rows-restored f (n + 1) cs))

  imported :
      (f : CsvFormat) (format : List ℕ) (cs : List Credential)
      → AllUnbroken browser folders cs
      → (csv_import browser
          (export_as browser folders f cs)
          (columns_in f)
          format
          (filter_in f)).credentials
        ≡ all_restored f 0 cs
  unfolding csv_import
  imported f format cs unbroken =
      let headers = headers_in f in
      let rows = map (values_of browser folders f) cs in
      ap
        (λ (t : List (List (List ℕ))). elim t [
          | [] ↦ []
          | (hs ∷ rs) ↦
              import_rows browser (filter_in f)
                (columns_of browser (columns_in f) (headers_of browser hs)) 0 rs
        ])
        (parse_csv-export_as browser folders f cs unbroken)
      ∙ ap (λ hs. import_rows browser (filter_in f) (columns_of browser (columns_in f) hs) 0 rows)
          (headers_of-ascii browser headers (headers_ascii f))
      ∙ ap (λ cols. import_rows browser (filter_in f) cols 0 rows)
          (columns_of-ascii browser (columns_in f) (map (λ h. trim (lowered h)) headers)
            (names_ascii f))
      ∙ import_rows-restored f 0 cs

  -- Exporting and importing, for each of the twelve CSV formats: if no field has a line break, the
  -- importer of the format gives back every credential in order, with a new id, its name
  -- trimmed, its URL, user name, password and description, and of the one-time password and
  -- the folder what the format keeps.
  pub import_as-export_as :
      (f : CsvFormat) (cs : List Credential)
      → AllUnbroken browser folders cs
      → (import_as browser f (export_as browser folders f cs)).credentials ≡ all_restored f 0 cs
  import_as-export_as pwdnow_csv cs unbroken = imported pwdnow_csv (text "pwdnow-csv") cs unbroken
  import_as-export_as bitwarden_csv cs unbroken =
      imported bitwarden_csv (text "bitwarden-csv") cs unbroken
  import_as-export_as one_password_csv cs unbroken =
      imported one_password_csv (text "1password-csv") cs unbroken
  import_as-export_as nord_pass cs unbroken = imported nord_pass (text "nordpass-csv") cs unbroken
  import_as-export_as last_pass cs unbroken = imported last_pass (text "lastpass-csv") cs unbroken
  import_as-export_as chrome cs unbroken = imported chrome (text "chrome-csv") cs unbroken
  import_as-export_as kee_pass_csv cs unbroken =
      imported kee_pass_csv (text "keepass-csv") cs unbroken
  import_as-export_as keeper_csv cs unbroken = imported keeper_csv (text "keeper-csv") cs unbroken
  import_as-export_as robo_form cs unbroken = imported robo_form (text "roboform-csv") cs unbroken
  import_as-export_as zoho_csv cs unbroken = imported zoho_csv (text "zoho-csv") cs unbroken
  import_as-export_as passbolt_csv cs unbroken =
      imported passbolt_csv (text "passbolt-csv") cs unbroken
  import_as-export_as enpass_csv cs unbroken = imported enpass_csv (text "enpass-csv") cs unbroken
