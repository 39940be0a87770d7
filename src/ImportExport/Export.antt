-- ===== src/ImportExport/Export.antt =====
-- Writing CSV files for other managers: the exporters of web/src/utils/importExport.ts.
pub mod Files
pub mod Formats
pub mod Written
use pwdnow_password_manager.Prelude.{
  ℕ, List, [], ◌∷◌, ◌++◌, Option, none, some, or_else, map, if◌then◌else◌,
}
use pwdnow_password_manager.Text.{text, text_eq, join}
use pwdnow_password_manager.Types.{Folder, Credential}
use pwdnow_password_manager.ImportExport.Csv.{csv_escape, quoted, double_quotes}
use pwdnow_password_manager.ImportExport.Import.{Browser, is_empty}

-- `folderMap.get(id)`, of the map built from the folders: the last one with an id counts.
abbrev pub label_of : List ℕ → List Folder → Option (List ℕ)
label_of id [] = none
label_of id (f ∷ fs) = elim (label_of id fs) [
  | some label ↦ some label
  | none ↦ if text_eq f.id id then some f.label else none
]

abbrev pub folder_cell : List Folder → Credential → List ℕ
folder_cell folders c =
    if is_empty c.folder_id then [] else or_else (label_of c.folder_id folders) []

abbrev pub build_otp_uri : Browser → List ℕ → List ℕ → List ℕ
build_otp_uri browser service secret =
    text "otpauth://totp/"
    ++ browser.encode_uri_component service
    ++ text "?secret="
    ++ secret
    ++ text "&digits=6&period=30"

-- `c.otpSecret ? csvEscape(buildOtpUri(…)) : ''`
abbrev pub otp_value : Browser → Credential → List ℕ
otp_value browser c =
    if is_empty (or_else c.otp_secret [])
    then []
    else build_otp_uri browser c.service (or_else c.otp_secret [])

abbrev pub otp_cell : Browser → Credential → List ℕ
otp_cell browser c =
    if is_empty (or_else c.otp_secret []) then [] else csv_escape (some (otp_value browser c))

-- `[header, ...rows].join('\n')`, each row `cells.join(',')`.
abbrev pub csv_file : List ℕ → (Credential → List (List ℕ)) → List Credential → List ℕ
csv_file header cells cs = join 10 (header ∷ map (λ c. join 0x2c (cells c)) cs)

abbrev pub pwdnow_csv_cells : Credential → List (List ℕ)
pwdnow_csv_cells c =
    csv_escape (some c.service)
    ∷ csv_escape (some c.url)
    ∷ csv_escape (some c.username)
    ∷ csv_escape c.password
    ∷ csv_escape c.description
    ∷ csv_escape c.otp_secret
    ∷ csv_escape (some c.folder_id)
    ∷ []

unfoldable pub export_to_pwdnow_csv : List Credential → List ℕ
unfolding join double_quotes
export_to_pwdnow_csv cs =
    csv_file (text "name,url,username,password,notes,otp_secret,folder") pwdnow_csv_cells cs

abbrev pub bitwarden_csv_cells : Browser → List Folder → Credential → List (List ℕ)
bitwarden_csv_cells browser folders c =
    csv_escape (some (folder_cell folders c))
    ∷ text "0"
    ∷ text "login"
    ∷ csv_escape (some c.service)
    ∷ csv_escape c.description
    ∷ []
    ∷ text "0"
    ∷ csv_escape (some c.url)
    ∷ csv_escape (some c.username)
    ∷ csv_escape c.password
    ∷ otp_cell browser c
    ∷ []

unfoldable pub export_to_bitwarden_csv : Browser → List Folder → List Credential → List ℕ
unfolding join double_quotes
export_to_bitwarden_csv browser folders cs =
    csv_file
      (text
        "folder,favorite,type,name,notes,fields,reprompt,login_uri,login_username,login_password,login_totp")
      (bitwarden_csv_cells browser folders) cs

abbrev pub one_password_csv_cells : Browser → Credential → List (List ℕ)
one_password_csv_cells browser c =
    csv_escape (some c.service)
    ∷ csv_escape (some c.username)
    ∷ csv_escape c.password
    ∷ csv_escape (some c.url)
    ∷ csv_escape c.description
    ∷ otp_cell browser c
    ∷ []

unfoldable pub export_to_one_password_csv : Browser → List Credential → List ℕ
unfolding join double_quotes
export_to_one_password_csv browser cs =
    csv_file (text "Title,Username,Password,URL,Notes,OTPAuth") (one_password_csv_cells browser) cs

abbrev pub nord_pass_cells : Credential → List (List ℕ)
nord_pass_cells c =
    csv_escape (some c.service)
    ∷ csv_escape (some c.url)
    ∷ csv_escape (some c.username)
    ∷ csv_escape (some (or_else c.password []))
    ∷ csv_escape c.description
    ∷ []
    ∷ []
    ∷ []
    ∷ []
    ∷ []
    ∷ text "login"
    ∷ []

unfoldable pub export_to_nord_pass : List Credential → List ℕ
unfolding join double_quotes
export_to_nord_pass cs =
    csv_file
      (text
        "name,url,username,password,note,cardholder_name,card_number,expiry_date,cvv,notes,type")
      nord_pass_cells cs

abbrev pub last_pass_cells : Browser → Credential → List (List ℕ)
last_pass_cells browser c =
    csv_escape (some c.url)
    ∷ csv_escape (some c.username)
    ∷ csv_escape c.password
    ∷ otp_cell browser c
    ∷ csv_escape c.description
    ∷ csv_escape (some c.service)
    ∷ []
    ∷ text "0"
    ∷ []

unfoldable pub export_to_last_pass : Browser → List Credential → List ℕ
unfolding join double_quotes
export_to_last_pass browser cs =
    csv_file (text "url,username,password,totp,extra,name,grouping,fav") (last_pass_cells browser)
      cs

abbrev pub chrome_cells : Credential → List (List ℕ)
chrome_cells c =
    csv_escape (some c.service)
    ∷ csv_escape (some c.url)
    ∷ csv_escape (some c.username)
    ∷ csv_escape (some (or_else c.password []))
    ∷ csv_escape c.description
    ∷ []

unfoldable pub export_to_chrome : List Credential → List ℕ
unfolding join double_quotes
export_to_chrome cs = csv_file (text "name,url,username,password,note") chrome_cells cs

abbrev pub kee_pass_csv_cells : Credential → List (List ℕ)
kee_pass_csv_cells c =
    quoted c.service
    ∷ quoted c.username
    ∷ quoted (or_else c.password [])
    ∷ quoted c.url
    ∷ quoted (or_else c.description [])
    ∷ []

unfoldable pub export_to_kee_pass_csv : List Credential → List ℕ
unfolding join double_quotes
export_to_kee_pass_csv cs =
    csv_file (text "\"Account\",\"Login Name\",\"Password\",\"Web Site\",\"Comments\"")
      kee_pass_csv_cells cs

abbrev pub keeper_csv_cells : Browser → List Folder → Credential → List (List ℕ)
keeper_csv_cells browser folders c =
    csv_escape (some (folder_cell folders c))
    ∷ csv_escape (some c.service)
    ∷ csv_escape (some c.username)
    ∷ csv_escape c.password
    ∷ csv_escape (some c.url)
    ∷ csv_escape c.description
    ∷ text "FALSE"
    ∷ otp_cell browser c
    ∷ []

unfoldable pub export_to_keeper_csv : Browser → List Folder → List Credential → List ℕ
unfolding join double_quotes
export_to_keeper_csv browser folders cs =
    csv_file (text "Folder,Title,Login,Password,Website,Notes,Shared,Two-Factor")
      (keeper_csv_cells browser folders) cs

abbrev pub robo_form_cells : List Folder → Credential → List (List ℕ)
robo_form_cells folders c =
    csv_escape (some c.service)
    ∷ csv_escape (some c.url)
    ∷ csv_escape (some c.username)
    ∷ csv_escape c.password
    ∷ csv_escape c.description
    ∷ csv_escape (some (folder_cell folders c))
    ∷ []

unfoldable pub export_to_robo_form : List Folder → List Credential → List ℕ
unfolding join double_quotes
export_to_robo_form folders cs =
    csv_file (text "Name,Url,Login,Pwd,Note,Folder") (robo_form_cells folders) cs

abbrev pub zoho_csv_cells : Credential → List (List ℕ)
zoho_csv_cells c =
    csv_escape (some c.service)
    ∷ csv_escape (some c.username)
    ∷ csv_escape c.password
    ∷ csv_escape c.description
    ∷ csv_escape (some c.url)
    ∷ []
    ∷ []

unfoldable pub export_to_zoho_csv : List Credential → List ℕ
unfolding join double_quotes
export_to_zoho_csv cs =
    csv_file (text "Secret Name,Account Name,Password,Comments,Url,Tags") zoho_csv_cells cs

abbrev pub passbolt_csv_cells : Credential → List (List ℕ)
passbolt_csv_cells c =
    csv_escape (some c.service)
    ∷ csv_escape (some c.username)
    ∷ csv_escape c.password
    ∷ csv_escape (some c.url)
    ∷ csv_escape c.description
    ∷ []

unfoldable pub export_to_passbolt_csv : List Credential → List ℕ
unfolding join double_quotes
export_to_passbolt_csv cs =
    csv_file (text "Title,Username,Password,URL,Description") passbolt_csv_cells cs

abbrev pub enpass_csv_cells : Browser → Credential → List (List ℕ)
enpass_csv_cells browser c =
    csv_escape (some c.service)
    ∷ csv_escape (some c.url)
    ∷ csv_escape (some c.username)
    ∷ csv_escape c.password
    ∷ csv_escape c.description
    ∷ otp_cell browser c
    ∷ []

unfoldable pub export_to_enpass_csv : Browser → List Credential → List ℕ
unfolding join double_quotes
export_to_enpass_csv browser cs =
    csv_file (text "Title,URL,Username,Password,Notes,One-Time Password") (enpass_csv_cells browser)
      cs
