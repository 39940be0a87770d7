-- ===== src/ImportExport/Import/Formats.antt =====
-- The importers of CSV files, each the columns it looks for.
use pwdnow_password_manager.Prelude.{ℕ, List, [], ◌∷◌, none, some}
use pwdnow_password_manager.Text.{text}
use pwdnow_password_manager.ImportExport.Import.{
  Browser, ColMap, ImportResult, no_columns, csv_import,
}

abbrev pub chrome_columns : ColMap
chrome_columns = record no_columns {
  title = some (text "name" ∷ []);
  url = some (text "url" ∷ []);
  username = some (text "username" ∷ []);
  password = some (text "password" ∷ []);
  notes = some (text "note" ∷ []);
}

abbrev pub import_chrome : Browser → List ℕ → ImportResult
import_chrome browser s = csv_import browser s chrome_columns (text "chrome-csv") none

abbrev pub firefox_columns : ColMap
firefox_columns = record no_columns {
  url = some (text "url" ∷ []);
  username = some (text "username" ∷ []);
  password = some (text "password" ∷ []);
  notes = some (text "httprealm" ∷ []);
}

abbrev pub import_firefox : Browser → List ℕ → ImportResult
import_firefox browser s = csv_import browser s firefox_columns (text "firefox-csv") none

abbrev pub safari_columns : ColMap
safari_columns = record no_columns {
  title = some (text "title" ∷ text "name" ∷ []);
  url = some (text "url" ∷ text "website" ∷ []);
  username = some (text "username" ∷ []);
  password = some (text "password" ∷ []);
}

abbrev pub import_safari : Browser → List ℕ → ImportResult
import_safari browser s = csv_import browser s safari_columns (text "safari-csv") none

abbrev pub last_pass_columns : ColMap
last_pass_columns = record no_columns {
  title = some (text "name" ∷ []);
  url = some (text "url" ∷ []);
  username = some (text "username" ∷ []);
  password = some (text "password" ∷ []);
  notes = some (text "extra" ∷ text "notes" ∷ []);
  otp = some (text "totp" ∷ []);
  folder = some (text "grouping" ∷ []);
}

abbrev pub import_last_pass : Browser → List ℕ → ImportResult
import_last_pass browser s = csv_import browser s last_pass_columns (text "lastpass-csv") none

abbrev pub one_password_csv_columns : ColMap
one_password_csv_columns = record no_columns {
  title = some (text "title" ∷ []);
  url = some (text "url" ∷ []);
  username = some (text "username" ∷ []);
  password = some (text "password" ∷ []);
  notes = some (text "notes" ∷ []);
  otp = some (text "otpauth" ∷ []);
}

abbrev pub import_one_password_csv : Browser → List ℕ → ImportResult
import_one_password_csv browser s =
    csv_import browser s one_password_csv_columns (text "1password-csv") none

abbrev pub bitwarden_csv_columns : ColMap
bitwarden_csv_columns = record no_columns {
  title = some (text "name" ∷ []);
  url = some (text "login_uri" ∷ []);
  username = some (text "login_username" ∷ []);
  password = some (text "login_password" ∷ []);
  notes = some (text "notes" ∷ []);
  otp = some (text "login_totp" ∷ []);
  folder = some (text "folder" ∷ []);
}

abbrev pub import_bitwarden_csv : Browser → List ℕ → ImportResult
import_bitwarden_csv browser s =
    csv_import browser s bitwarden_csv_columns (text "bitwarden-csv") (some (text "login"))

abbrev pub nord_pass_columns : ColMap
nord_pass_columns = record no_columns {
  title = some (text "name" ∷ []);
  url = some (text "url" ∷ []);
  username = some (text "username" ∷ []);
  password = some (text "password" ∷ []);
  notes = some (text "note" ∷ text "notes" ∷ []);
}

abbrev pub import_nord_pass : Browser → List ℕ → ImportResult
import_nord_pass browser s =
    csv_import browser s nord_pass_columns (text "nordpass-csv") (some (text "login"))

abbrev pub kee_pass_csv_columns : ColMap
kee_pass_csv_columns = record no_columns {
  title = some (text "account" ∷ text "title" ∷ text "name" ∷ []);
  url = some (text "web site" ∷ text "url" ∷ []);
  username = some (text "login name" ∷ text "username" ∷ []);
  password = some (text "password" ∷ []);
  notes = some (text "comments" ∷ []);
}

abbrev pub import_kee_pass_csv : Browser → List ℕ → ImportResult
import_kee_pass_csv browser s = csv_import browser s kee_pass_csv_columns (text "keepass-csv") none

abbrev pub keeper_csv_columns : ColMap
keeper_csv_columns = record no_columns {
  folder = some (text "folder" ∷ []);
  title = some (text "title" ∷ []);
  username = some (text "login" ∷ text "username" ∷ []);
  password = some (text "password" ∷ []);
  url = some (text "website" ∷ []);
  notes = some (text "notes" ∷ []);
  otp = some (text "two-factor" ∷ text "otp secret" ∷ []);
}

abbrev pub import_keeper_csv : Browser → List ℕ → ImportResult
import_keeper_csv browser s = csv_import browser s keeper_csv_columns (text "keeper-csv") none

abbrev pub dashlane_csv_columns : ColMap
dashlane_csv_columns = record no_columns {
  title = some (text "name" ∷ text "title" ∷ []);
  url = some (text "url" ∷ text "domain" ∷ []);
  username = some (text "login" ∷ text "email" ∷ text "username" ∷ []);
  password = some (text "password" ∷ []);
  notes = some (text "note" ∷ []);
}

abbrev pub import_dashlane_csv : Browser → List ℕ → ImportResult
import_dashlane_csv browser s = csv_import browser s dashlane_csv_columns (text "dashlane-csv") none

abbrev pub robo_form_columns : ColMap
robo_form_columns = record no_columns {
  title = some (text "name" ∷ []);
  url = some (text "url" ∷ []);
  username = some (text "login" ∷ text "username" ∷ []);
  password = some (text "pwd" ∷ text "password" ∷ []);
  notes = some (text "note" ∷ []);
  folder = some (text "folder" ∷ []);
}

abbrev pub import_robo_form : Browser → List ℕ → ImportResult
import_robo_form browser s = csv_import browser s robo_form_columns (text "roboform-csv") none

abbrev pub m_secure_columns : ColMap
m_secure_columns = record no_columns {
  title = some (text "description" ∷ text "title" ∷ text "name" ∷ []);
  url = some (text "website" ∷ text "url" ∷ text "web" ∷ []);
  username = some (text "username" ∷ text "login" ∷ text "email" ∷ []);
  password = some (text "password" ∷ []);
  notes = some (text "notes" ∷ text "note" ∷ []);
  otp = some (text "2fa key" ∷ text "otp" ∷ text "totp" ∷ []);
  folder = some (text "account type" ∷ text "type" ∷ text "group" ∷ text "category" ∷ []);
}

abbrev pub import_m_secure : Browser → List ℕ → ImportResult
import_m_secure browser s = csv_import browser s m_secure_columns (text "msecure-csv") none

abbrev pub zoho_columns : ColMap
zoho_columns = record no_columns {
  title = some (text "secret name" ∷ text "title" ∷ text "name" ∷ []);
  url = some (text "url" ∷ text "website" ∷ []);
  username = some (text "account name" ∷ text "username" ∷ text "user name" ∷ []);
  password = some (text "password" ∷ []);
  notes = some (text "comments" ∷ text "notes" ∷ []);
}

abbrev pub import_zoho : Browser → List ℕ → ImportResult
import_zoho browser s = csv_import browser s zoho_columns (text "zoho-csv") none

abbrev pub passbolt_columns : ColMap
passbolt_columns = record no_columns {
  title = some (text "title" ∷ []);
  url = some (text "url" ∷ []);
  username = some (text "username" ∷ []);
  password = some (text "password" ∷ []);
  notes = some (text "description" ∷ text "note" ∷ []);
}

abbrev pub import_passbolt : Browser → List ℕ → ImportResult
import_passbolt browser s = csv_import browser s passbolt_columns (text "passbolt-csv") none

abbrev pub enpass_csv_columns : ColMap
enpass_csv_columns = record no_columns {
  title = some (text "title" ∷ []);
  url = some (text "url" ∷ text "website" ∷ []);
  username = some (text "username" ∷ text "email" ∷ text "login" ∷ []);
  password = some (text "password" ∷ []);
  notes = some (text "notes" ∷ []);
  otp = some (text "one-time password" ∷ text "totp" ∷ []);
}

abbrev pub import_enpass_csv : Browser → List ℕ → ImportResult
import_enpass_csv browser s = csv_import browser s enpass_csv_columns (text "enpass-csv") none

abbrev pub pwdnow_csv_columns : ColMap
pwdnow_csv_columns = record no_columns {
  title = some (text "name" ∷ []);
  url = some (text "url" ∷ []);
  username = some (text "username" ∷ []);
  password = some (text "password" ∷ []);
  notes = some (text "notes" ∷ []);
  otp = some (text "otp_secret" ∷ []);
  folder = some (text "folder" ∷ []);
}

abbrev pub import_pwdnow_csv : Browser → List ℕ → ImportResult
import_pwdnow_csv browser s = csv_import browser s pwdnow_csv_columns (text "pwdnow-csv") none
