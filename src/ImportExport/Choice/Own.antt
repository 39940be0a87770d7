-- ===== src/ImportExport/Choice/Own.antt =====
-- Which importer reads the program's own CSV exports.
use pwdnow_password_manager.Prelude.{ℕ, List, [], ◌∷◌, true, ◌≡◌, refl, ◌∙◌, ap}
use pwdnow_password_manager.Text.{text}
use pwdnow_password_manager.Types.{Folder, Credential}
use pwdnow_password_manager.ImportExport.Import.{Browser, ImportResult}
use pwdnow_password_manager.ImportExport.Import.Headers.{lowered, is_ascii}
use pwdnow_password_manager.ImportExport.Export.{
  export_to_pwdnow_csv, export_to_bitwarden_csv, export_to_one_password_csv, export_to_nord_pass,
  export_to_last_pass, export_to_chrome, export_to_kee_pass_csv, export_to_keeper_csv,
  export_to_robo_form, export_to_zoho_csv, export_to_passbolt_csv, export_to_enpass_csv,
}
use pwdnow_password_manager.ImportExport.Export.Formats.{
  CsvFormat, pwdnow_csv, bitwarden_csv, one_password_csv, nord_pass, last_pass, chrome,
  kee_pass_csv, keeper_csv, robo_form, zoho_csv, passbolt_csv, enpass_csv, export_as,
}
use pwdnow_password_manager.ImportExport.Export.Written.{AllUnbroken}
use pwdnow_password_manager.ImportExport.Restored.{import_as, all_restored, import_as-export_as}
use pwdnow_password_manager.ImportExport.Choice.{
  Importer, by_bitwarden_csv, by_last_pass, by_one_password_csv, by_keeper_csv, by_nord_pass,
  by_kee_pass_csv, by_zoho, by_passbolt, by_chrome, importer_for, first_line, import_by,
  import_from_csv_file,
}

-- The format as which a file in a format is read.
abbrev pub read_as : CsvFormat → CsvFormat
read_as pwdnow_csv = chrome
read_as robo_form = keeper_csv
read_as enpass_csv = passbolt_csv
read_as f = f

-- The headers that the exporters write.
abbrev header_text : CsvFormat → List ℕ
header_text pwdnow_csv = text "name,url,username,password,notes,otp_secret,folder"
header_text bitwarden_csv =
    text
      "folder,favorite,type,name,notes,fields,reprompt,login_uri,login_username,login_password,login_totp"
header_text one_password_csv = text "Title,Username,Password,URL,Notes,OTPAuth"
header_text nord_pass =
    text "name,url,username,password,note,cardholder_name,card_number,expiry_date,cvv,notes,type"
header_text last_pass = text "url,username,password,totp,extra,name,grouping,fav"
header_text chrome = text "name,url,username,password,note"
header_text kee_pass_csv = text "\"Account\",\"Login Name\",\"Password\",\"Web Site\",\"Comments\""
header_text keeper_csv = text "Folder,Title,Login,Password,Website,Notes,Shared,Two-Factor"
header_text robo_form = text "Name,Url,Login,Pwd,Note,Folder"
header_text zoho_csv = text "Secret Name,Account Name,Password,Comments,Url,Tags"
header_text passbolt_csv = text "Title,Username,Password,URL,Description"
header_text enpass_csv = text "Title,URL,Username,Password,Notes,One-Time Password"

-- The importer that reads a format.
abbrev reader : CsvFormat → Importer
reader pwdnow_csv = by_chrome
reader bitwarden_csv = by_bitwarden_csv
reader one_password_csv = by_one_password_csv
reader nord_pass = by_nord_pass
reader last_pass = by_last_pass
reader chrome = by_chrome
reader kee_pass_csv = by_kee_pass_csv
reader keeper_csv = by_keeper_csv
reader robo_form = by_keeper_csv
reader zoho_csv = by_zoho
reader passbolt_csv = by_passbolt
reader enpass_csv = by_passbolt

reader-eq : (f : CsvFormat) → importer_for (lowered (header_text f)) ≡ reader f
unfolding importer_for
reader-eq pwdnow_csv = refl
reader-eq bitwarden_csv = refl
reader-eq one_password_csv = refl
reader-eq nord_pass = refl
reader-eq last_pass = refl
reader-eq chrome = refl
reader-eq kee_pass_csv = refl
reader-eq keeper_csv = refl
reader-eq robo_form = refl
reader-eq zoho_csv = refl
reader-eq passbolt_csv = refl
reader-eq enpass_csv = refl

header_text_ascii : (f : CsvFormat) → is_ascii (header_text f) ≡ true
header_text_ascii pwdnow_csv = refl
header_text_ascii bitwarden_csv = refl
header_text_ascii one_password_csv = refl
header_text_ascii nord_pass = refl
header_text_ascii last_pass = refl
header_text_ascii chrome = refl
header_text_ascii kee_pass_csv = refl
header_text_ascii keeper_csv = refl
header_text_ascii robo_form = refl
header_text_ascii zoho_csv = refl
header_text_ascii passbolt_csv = refl
header_text_ascii enpass_csv = refl

module _ (browser : Browser) (folders : List Folder) where
  import_by-reader :
      (f : CsvFormat) (s : List ℕ)
      → import_by browser (reader f) s ≡ import_as browser (read_as f) s
  import_by-reader pwdnow_csv s = refl
  import_by-reader bitwarden_csv s = refl
  import_by-reader one_password_csv s = refl
  import_by-reader nord_pass s = refl
  import_by-reader last_pass s = refl
  import_by-reader chrome s = refl
  import_by-reader kee_pass_csv s = refl
  import_by-reader keeper_csv s = refl
  import_by-reader robo_form s = refl
  import_by-reader zoho_csv s = refl
  import_by-reader passbolt_csv s = refl
  import_by-reader enpass_csv s = refl

  first_line-export_as :
      (f : CsvFormat) (cs : List Credential)
      → first_line (export_as browser folders f cs) ≡ header_text f
  unfolding first_line export_to_pwdnow_csv export_to_bitwarden_csv export_to_one_password_csv
      export_to_nord_pass export_to_last_pass export_to_chrome export_to_kee_pass_csv
      export_to_keeper_csv export_to_robo_form export_to_zoho_csv export_to_passbolt_csv
      export_to_enpass_csv
  first_line-export_as pwdnow_csv [] = refl
  first_line-export_as pwdnow_csv (c ∷ cs) = refl
  first_line-export_as bitwarden_csv [] = refl
  first_line-export_as bitwarden_csv (c ∷ cs) = refl
  first_line-export_as one_password_csv [] = refl
  first_line-export_as one_password_csv (c ∷ cs) = refl
  first_line-export_as nord_pass [] = refl
  first_line-export_as nord_pass (c ∷ cs) = refl
  first_line-export_as last_pass [] = refl
  first_line-export_as last_pass (c ∷ cs) = refl
  first_line-export_as chrome [] = refl
  first_line-export_as chrome (c ∷ cs) = refl
  first_line-export_as kee_pass_csv [] = refl
  first_line-export_as kee_pass_csv (c ∷ cs) = refl
  first_line-export_as keeper_csv [] = refl
  first_line-export_as keeper_csv (c ∷ cs) = refl
  first_line-export_as robo_form [] = refl
  first_line-export_as robo_form (c ∷ cs) = refl
  first_line-export_as zoho_csv [] = refl
  first_line-export_as zoho_csv (c ∷ cs) = refl
  first_line-export_as passbolt_csv [] = refl
  first_line-export_as passbolt_csv (c ∷ cs) = refl
  first_line-export_as enpass_csv [] = refl
  first_line-export_as enpass_csv (c ∷ cs) = refl

  -- The first line of an export says which importer reads it.
  import_from_csv_file-export_as_read :
      (f : CsvFormat) (cs : List Credential)
      → import_from_csv_file browser (export_as browser folders f cs)
        ≡ import_as browser (read_as f) (export_as browser folders f cs)
  unfolding import_from_csv_file
  import_from_csv_file-export_as_read f cs =
      let s = export_as browser folders f cs in
      ap (λ h. import_by browser (importer_for (browser.to_lower h)) s) (first_line-export_as f cs)
      ∙ ap (λ h. import_by browser (importer_for h) s)
          (browser.to_lower_ascii (header_text f) (header_text_ascii f))
      ∙ ap (λ i. import_by browser i s) (reader-eq f)
      ∙ import_by-reader f s

  -- Reading an exported file by its first line: for each format whose exports are read by its own
  -- importer (nine of the twelve: not PWDnow CSV, RoboForm and Enpass CSV), if no field has a
  -- line break, importing the file gives back every credential in order, with a new id, its
  -- name trimmed, its URL, user name, password and description, and of the one-time password
  -- and the folder what the format keeps.
  pub import_from_csv_file-export_as :
      (f : CsvFormat) (cs : List Credential)
      → AllUnbroken browser folders cs
      → read_as f ≡ f
      → (import_from_csv_file browser (export_as browser folders f cs)).credentials
        ≡ all_restored browser folders f 0 cs
  import_from_csv_file-export_as f cs unbroken own =
      let s = export_as browser folders f cs in
      ap (λ (r : ImportResult). r.credentials) (import_from_csv_file-export_as_read f cs)
      ∙ ap (λ g. (import_as browser g s).credentials) own
      ∙ import_as-export_as browser folders f cs unbroken
