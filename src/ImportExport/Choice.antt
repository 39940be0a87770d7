-- ===== src/ImportExport/Choice.antt =====
-- The choice of an importer for a CSV file: the branch of importFromFile for the extension `csv`
-- (web/src/utils/importExport.ts), with importTrueKey.
pub mod Own
use pwdnow_password_manager.Prelude.{
  ℕ, ◌+◌, List, [], ◌∷◌, ◌++◌, Bool, true, false, ◌&&◌, ◌||◌, not, Option, none, some,
  if◌then◌else◌, or_else, length,
}
use pwdnow_password_manager.Text.{text, text_eq, trim, starts_with, contains}
use pwdnow_password_manager.Types.{Credential}
use pwdnow_password_manager.ImportExport.Csv.{parse_csv, split_lines, without_mark}
use pwdnow_password_manager.ImportExport.Import.{
  Browser, ImportResult, index_of, value_at, is_empty, is_none, otp_secret_of, headers_of,
}
use pwdnow_password_manager.ImportExport.Import.Formats.{
  import_chrome, import_firefox, import_last_pass, import_one_password_csv, import_bitwarden_csv,
  import_nord_pass, import_kee_pass_csv, import_keeper_csv, import_robo_form, import_m_secure,
  import_zoho, import_passbolt,
}

pub data Importer : Type 0 where
  by_firefox by_bitwarden_csv by_last_pass by_one_password_csv by_keeper_csv by_nord_pass
        by_kee_pass_csv :
      Importer
  by_robo_form by_zoho by_passbolt by_m_secure by_true_key by_chrome : Importer

-- The chain of tests on the first line, in small letters.
unfoldable pub importer_for : List ℕ → Importer
unfolding contains starts_with
importer_for first =
    let has = λ (part : List ℕ). contains part first in
    if has (text "httprealm") || has (text "formactionorigin")
    then by_firefox
    else if has (text "login_uri") || has (text "login_username")
    then by_bitwarden_csv
    else if has (text "grouping") || (has (text "extra") && has (text "fav"))
    then by_last_pass
    else if starts_with (text "\"url\"") first
        || starts_with (text "url,username") first
        || starts_with (text "\"url\",") first
    then by_last_pass
    else if has (text "otpauth") || (has (text "title") && has (text "otpauth"))
    then by_one_password_csv
    else if has (text "login_url") || has (text "login,password") || has (text ",login,")
    then by_keeper_csv
    else if has (text "cardholder") || has (text "cvv")
    then by_nord_pass
    else if has (text "\"account\"") || has (text "login name")
    then by_kee_pass_csv
    else if has (text "login") && has (text "pwd")
    then by_robo_form
    else if has (text "secret name") || has (text "account name")
    then by_zoho
    else if has (text "title") && has (text "username") && has (text "password") && has (text "url")
    then by_passbolt
    else if has (text "account type") || has (text "2fa key")
    then by_m_secure
    else if has (text "autologin") || (has (text "kind") && has (text "two_factor"))
    then by_true_key
    else by_chrome

-- `text.replace(/^\uFEFF/, '').split(/\r?\n/)[0]`
unfoldable pub first_of_lines : List (List ℕ) → List ℕ
first_of_lines [] = []
first_of_lines (l ∷ ls) = l

unfoldable pub first_line : List ℕ → List ℕ
unfolding split_lines first_of_lines
first_line s = first_of_lines (split_lines (without_mark s))

module _ (browser : Browser) where
  -- The positions of True Key's columns.
  unfoldable pub true_key_credential : List (List ℕ) → ℕ → List (List ℕ) → Credential
  unfolding index_of trim
  true_key_credential headers n row =
      let value = λ (name : List ℕ). value_at (index_of name headers) row in
      record {
        id = browser.uuid n;
        service = trim (value (text "name"));
        url = value (text "url");
        username = value (text "username");
        password = some (value (text "password"));
        status = text "active";
        status_color = text "#22c55e";
        logo = [];
        folder_id = [];
        tags = some [];
        otp_secret = otp_secret_of browser (value (text "totp"));
        description = if is_empty (value (text "extra")) then none else some (value (text "extra"));
        credential_type = none;
      }

  abbrev pub true_key_skips : List (List ℕ) → List (List ℕ) → Bool
  true_key_skips headers row =
      let kind = value_at (index_of (text "kind") headers) row in
      (not (is_empty kind) && not (text_eq (browser.to_lower kind) (text "login")))
      || is_empty (trim (value_at (index_of (text "name") headers) row))

  unfoldable pub true_key_rows : List (List ℕ) → ℕ → List (List (List ℕ)) → List Credential
  unfolding index_of trim true_key_credential
  true_key_rows headers n [] = []
  true_key_rows headers n (row ∷ rows) =
      let skipped = true_key_rows headers n rows in
      let kept = true_key_rows headers (n + 1) rows in
      if true_key_skips headers row then skipped else true_key_credential headers n row ∷ kept

  unfoldable pub import_true_key : List ℕ → ImportResult
  unfolding parse_csv true_key_rows
  import_true_key s = record {
    credentials = elim (parse_csv s) [
      | [] ↦ []
      | (headers ∷ rows) ↦ true_key_rows (headers_of browser headers) 0 rows
    ];
    detected_format = text "truekey-csv";
  }

  abbrev pub import_by : Importer → List ℕ → ImportResult
  import_by by_firefox s = import_firefox browser s
  import_by by_bitwarden_csv s = import_bitwarden_csv browser s
  import_by by_last_pass s = import_last_pass browser s
  import_by by_one_password_csv s = import_one_password_csv browser s
  import_by by_keeper_csv s = import_keeper_csv browser s
  import_by by_nord_pass s = import_nord_pass browser s
  import_by by_kee_pass_csv s = import_kee_pass_csv browser s
  import_by by_robo_form s = import_robo_form browser s
  import_by by_zoho s = import_zoho browser s
  import_by by_passbolt s = import_passbolt browser s
  import_by by_m_secure s = import_m_secure browser s
  import_by by_true_key s = import_true_key s
  import_by by_chrome s = import_chrome browser s

  -- importFromFile for a CSV file with the given text
  unfoldable pub import_from_csv_file : List ℕ → ImportResult
  unfolding importer_for first_line
  import_from_csv_file s = import_by (importer_for (browser.to_lower (first_line s))) s
