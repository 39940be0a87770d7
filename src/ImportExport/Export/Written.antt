-- ===== src/ImportExport/Export/Written.antt =====
-- What each exporter writes is read back.
use pwdnow_password_manager.Prelude.{List, [], ◌∷◌, ◌≡◌, refl, some, or_else, map}
use pwdnow_password_manager.Text.{text, join, is_space}
use pwdnow_password_manager.Types.{Folder, Credential}
use pwdnow_password_manager.ImportExport.Csv.{parse_line, parse_csv}
use pwdnow_password_manager.ImportExport.Csv.RoundTrip.{csv_escape-IsCell, quoted-IsCell}
use pwdnow_password_manager.ImportExport.Import.{Browser}
use pwdnow_password_manager.ImportExport.Export.{
  folder_cell, export_to_pwdnow_csv, export_to_bitwarden_csv, export_to_one_password_csv,
  export_to_nord_pass, export_to_last_pass, export_to_chrome, export_to_kee_pass_csv,
  export_to_keeper_csv, export_to_robo_form, export_to_zoho_csv, export_to_passbolt_csv,
  export_to_enpass_csv,
}
use pwdnow_password_manager.ImportExport.Export.Files.{
  IsUnbroken, IsLong, AllLong, plain-IsCell, otp_cell-IsCell, parse_csv-csv_file,
}
use pwdnow_password_manager.ImportExport.Export.Formats.{
  CsvFormat, pwdnow_csv, bitwarden_csv, one_password_csv, nord_pass, last_pass, chrome,
  kee_pass_csv, keeper_csv, robo_form, zoho_csv, passbolt_csv, enpass_csv, export_as, cells_of,
  values_of, headers_in,
}

module _ (browser : Browser) (folders : List Folder) where
  cells_of-IsLong :
      (f : CsvFormat) (c : Credential)
      → IsUnbroken browser folders c
      → IsLong (cells_of browser folders f c) (values_of browser folders f c)
  cells_of-IsLong pwdnow_csv c u = (
    csv_escape-IsCell (some c.service) u.service,
    (
      csv_escape-IsCell (some c.url) u.url,
      (
        csv_escape-IsCell (some c.username) u.username,
        (
          csv_escape-IsCell (c.password) u.password,
          (
            csv_escape-IsCell (c.description) u.description,
            (
              csv_escape-IsCell (c.otp_secret) u.otp,
              (csv_escape-IsCell (some c.folder_id) u.folder_id, tt),
            ),
          ),
        ),
      ),
    ),
  )
  cells_of-IsLong bitwarden_csv c u = (
    csv_escape-IsCell (some (folder_cell folders c)) u.folder,
    (
      plain-IsCell (text "0") refl refl refl,
      (
        plain-IsCell (text "login") refl refl refl,
        (
          csv_escape-IsCell (some c.service) u.service,
          (
            csv_escape-IsCell (c.description) u.description,
            (
              plain-IsCell ([]) refl refl refl,
              (
                plain-IsCell (text "0") refl refl refl,
                (
                  csv_escape-IsCell (some c.url) u.url,
                  (
                    csv_escape-IsCell (some c.username) u.username,
                    (
                      csv_escape-IsCell (c.password) u.password,
                      (otp_cell-IsCell browser c u.otp_uri, tt),
                    ),
                  ),
                ),
              ),
            ),
          ),
        ),
      ),
    ),
  )
  cells_of-IsLong one_password_csv c u = (
    csv_escape-IsCell (some c.service) u.service,
    (
      csv_escape-IsCell (some c.username) u.username,
      (
        csv_escape-IsCell (c.password) u.password,
        (
          csv_escape-IsCell (some c.url) u.url,
          (
            csv_escape-IsCell (c.description) u.description,
            (otp_cell-IsCell browser c u.otp_uri, tt),
          ),
        ),
      ),
    ),
  )
  cells_of-IsLong nord_pass c u = (
    csv_escape-IsCell (some c.service) u.service,
    (
      csv_escape-IsCell (some c.url) u.url,
      (
        csv_escape-IsCell (some c.username) u.username,
        (
          csv_escape-IsCell (some (or_else c.password [])) u.password,
          (
            csv_escape-IsCell (c.description) u.description,
            (
              plain-IsCell ([]) refl refl refl,
              (
                plain-IsCell ([]) refl refl refl,
                (
                  plain-IsCell ([]) refl refl refl,
                  (
                    plain-IsCell ([]) refl refl refl,
                    (
                      plain-IsCell ([]) refl refl refl,
                      (plain-IsCell (text "login") refl refl refl, tt),
                    ),
                  ),
                ),
              ),
            ),
          ),
        ),
      ),
    ),
  )
  cells_of-IsLong last_pass c u = (
    csv_escape-IsCell (some c.url) u.url,
    (
      csv_escape-IsCell (some c.username) u.username,
      (
        csv_escape-IsCell (c.password) u.password,
        (
          otp_cell-IsCell browser c u.otp_uri,
          (
            csv_escape-IsCell (c.description) u.description,
            (
              csv_escape-IsCell (some c.service) u.service,
              (plain-IsCell ([]) refl refl refl, (plain-IsCell (text "0") refl refl refl, tt)),
            ),
          ),
        ),
      ),
    ),
  )
  cells_of-IsLong chrome c u = (
    csv_escape-IsCell (some c.service) u.service,
    (
      csv_escape-IsCell (some c.url) u.url,
      (
        csv_escape-IsCell (some c.username) u.username,
        (
          csv_escape-IsCell (some (or_else c.password [])) u.password,
          (csv_escape-IsCell (c.description) u.description, tt),
        ),
      ),
    ),
  )
  cells_of-IsLong kee_pass_csv c u = (
    quoted-IsCell (c.service) u.service,
    (
      quoted-IsCell (c.username) u.username,
      (
        quoted-IsCell (or_else c.password []) u.password,
        (quoted-IsCell (c.url) u.url, (quoted-IsCell (or_else c.description []) u.description, tt)),
      ),
    ),
  )
  cells_of-IsLong keeper_csv c u = (
    csv_escape-IsCell (some (folder_cell folders c)) u.folder,
    (
      csv_escape-IsCell (some c.service) u.service,
      (
        csv_escape-IsCell (some c.username) u.username,
        (
          csv_escape-IsCell (c.password) u.password,
          (
            csv_escape-IsCell (some c.url) u.url,
            (
              csv_escape-IsCell (c.description) u.description,
              (
                plain-IsCell (text "FALSE") refl refl refl,
                (otp_cell-IsCell browser c u.otp_uri, tt),
              ),
            ),
          ),
        ),
      ),
    ),
  )
  cells_of-IsLong robo_form c u = (
    csv_escape-IsCell (some c.service) u.service,
    (
      csv_escape-IsCell (some c.url) u.url,
      (
        csv_escape-IsCell (some c.username) u.username,
        (
          csv_escape-IsCell (c.password) u.password,
          (
            csv_escape-IsCell (c.description) u.description,
            (csv_escape-IsCell (some (folder_cell folders c)) u.folder, tt),
          ),
        ),
      ),
    ),
  )
  cells_of-IsLong zoho_csv c u = (
    csv_escape-IsCell (some c.service) u.service,
    (
      csv_escape-IsCell (some c.username) u.username,
      (
        csv_escape-IsCell (c.password) u.password,
        (
          csv_escape-IsCell (c.description) u.description,
          (csv_escape-IsCell (some c.url) u.url, (plain-IsCell ([]) refl refl refl, tt)),
        ),
      ),
    ),
  )
  cells_of-IsLong passbolt_csv c u = (
    csv_escape-IsCell (some c.service) u.service,
    (
      csv_escape-IsCell (some c.username) u.username,
      (
        csv_escape-IsCell (c.password) u.password,
        (
          csv_escape-IsCell (some c.url) u.url,
          (csv_escape-IsCell (c.description) u.description, tt),
        ),
      ),
    ),
  )
  cells_of-IsLong enpass_csv c u = (
    csv_escape-IsCell (some c.service) u.service,
    (
      csv_escape-IsCell (some c.url) u.url,
      (
        csv_escape-IsCell (some c.username) u.username,
        (
          csv_escape-IsCell (c.password) u.password,
          (
            csv_escape-IsCell (c.description) u.description,
            (otp_cell-IsCell browser c u.otp_uri, tt),
          ),
        ),
      ),
    ),
  )

  abbrev pub AllUnbroken : List Credential → Type 0
  AllUnbroken [] = Unit
  AllUnbroken (c ∷ cs) = IsUnbroken browser folders c × AllUnbroken cs

  cells_of-AllLong :
      (f : CsvFormat) (cs : List Credential)
      → AllUnbroken cs
      → AllLong (cells_of browser folders f) (values_of browser folders f) cs
  cells_of-AllLong f [] h = tt
  cells_of-AllLong f (c ∷ cs) h = (cells_of-IsLong f c h.0, cells_of-AllLong f cs h.1)

-- Reading back what an exporter wrote, for each of the twelve formats: if no field has a line break, the
-- parser gives the header's names and then for each credential its row of values, in order,
-- whatever commas and quotes the fields have.
pub parse_csv-export_as :
    (browser : Browser) (folders : List Folder) (f : CsvFormat) (cs : List Credential)
    → AllUnbroken browser folders cs
    → parse_csv (export_as browser folders f cs)
      ≡ headers_in f ∷ map (values_of browser folders f) cs
unfolding export_to_pwdnow_csv export_to_bitwarden_csv export_to_one_password_csv
    export_to_nord_pass export_to_last_pass export_to_chrome export_to_kee_pass_csv
    export_to_keeper_csv export_to_robo_form export_to_zoho_csv export_to_passbolt_csv
    export_to_enpass_csv parse_line is_space join
parse_csv-export_as browser folders pwdnow_csv cs h =
    parse_csv-csv_file 110 (text "ame,url,username,password,notes,otp_secret,folder")
      (headers_in pwdnow_csv) (cells_of browser folders pwdnow_csv)
      (values_of browser folders pwdnow_csv) cs refl (refl, refl) refl
      (cells_of-AllLong browser folders pwdnow_csv cs h)
parse_csv-export_as browser folders bitwarden_csv cs h =
    parse_csv-csv_file 102
      (text
        "older,favorite,type,name,notes,fields,reprompt,login_uri,login_username,login_password,login_totp")
      (headers_in bitwarden_csv) (cells_of browser folders bitwarden_csv)
      (values_of browser folders bitwarden_csv) cs refl (refl, refl) refl
      (cells_of-AllLong browser folders bitwarden_csv cs h)
parse_csv-export_as browser folders one_password_csv cs h =
    parse_csv-csv_file 84 (text "itle,Username,Password,URL,Notes,OTPAuth")
      (headers_in one_password_csv) (cells_of browser folders one_password_csv)
      (values_of browser folders one_password_csv) cs refl (refl, refl) refl
      (cells_of-AllLong browser folders one_password_csv cs h)
parse_csv-export_as browser folders nord_pass cs h =
    parse_csv-csv_file 110
      (text "ame,url,username,password,note,cardholder_name,card_number,expiry_date,cvv,notes,type")
      (headers_in nord_pass) (cells_of browser folders nord_pass)
      (values_of browser folders nord_pass) cs refl (refl, refl) refl
      (cells_of-AllLong browser folders nord_pass cs h)
parse_csv-export_as browser folders last_pass cs h =
    parse_csv-csv_file 117 (text "rl,username,password,totp,extra,name,grouping,fav")
      (headers_in last_pass) (cells_of browser folders last_pass)
      (values_of browser folders last_pass) cs refl (refl, refl) refl
      (cells_of-AllLong browser folders last_pass cs h)
parse_csv-export_as browser folders chrome cs h =
    parse_csv-csv_file 110 (text "ame,url,username,password,note") (headers_in chrome)
      (cells_of browser folders chrome) (values_of browser folders chrome) cs refl (refl, refl) refl
      (cells_of-AllLong browser folders chrome cs h)
parse_csv-export_as browser folders kee_pass_csv cs h =
    parse_csv-csv_file 34 (text "Account\",\"Login Name\",\"Password\",\"Web Site\",\"Comments\"")
      (headers_in kee_pass_csv) (cells_of browser folders kee_pass_csv)
      (values_of browser folders kee_pass_csv) cs refl (refl, refl) refl
      (cells_of-AllLong browser folders kee_pass_csv cs h)
parse_csv-export_as browser folders keeper_csv cs h =
    parse_csv-csv_file 70 (text "older,Title,Login,Password,Website,Notes,Shared,Two-Factor")
      (headers_in keeper_csv) (cells_of browser folders keeper_csv)
      (values_of browser folders keeper_csv) cs refl (refl, refl) refl
      (cells_of-AllLong browser folders keeper_csv cs h)
parse_csv-export_as browser folders robo_form cs h =
    parse_csv-csv_file 78 (text "ame,Url,Login,Pwd,Note,Folder") (headers_in robo_form)
      (cells_of browser folders robo_form) (values_of browser folders robo_form) cs refl
      (refl, refl) refl (cells_of-AllLong browser folders robo_form cs h)
parse_csv-export_as browser folders zoho_csv cs h =
    parse_csv-csv_file 83 (text "ecret Name,Account Name,Password,Comments,Url,Tags")
      (headers_in zoho_csv) (cells_of browser folders zoho_csv) (values_of browser folders zoho_csv)
      cs refl (refl, refl) refl (cells_of-AllLong browser folders zoho_csv cs h)
parse_csv-export_as browser folders passbolt_csv cs h =
    parse_csv-csv_file 84 (text "itle,Username,Password,URL,Description") (headers_in passbolt_csv)
      (cells_of browser folders passbolt_csv) (values_of browser folders passbolt_csv) cs refl
      (refl, refl) refl (cells_of-AllLong browser folders passbolt_csv cs h)
parse_csv-export_as browser folders enpass_csv cs h =
    parse_csv-csv_file 84 (text "itle,URL,Username,Password,Notes,One-Time Password")
      (headers_in enpass_csv) (cells_of browser folders enpass_csv)
      (values_of browser folders enpass_csv) cs refl (refl, refl) refl
      (cells_of-AllLong browser folders enpass_csv cs h)
