-- ===== src/ImportExport/Examples.antt =====
-- The theorems on web/src/utils/importExport.ts at concrete inputs.
use pwdnow_password_manager.Prelude.{arith, ok, [], ◌∷◌, ◌≡◌, refl, none, some, map}
use pwdnow_password_manager.Text.{text, TextCodec, is_plain}
use pwdnow_password_manager.Types.{Folder, Credential}
use pwdnow_password_manager.ImportExport.Import.{Browser, ascii_lower}
use pwdnow_password_manager.ImportExport.Export.Files.{IsUnbroken}
use pwdnow_password_manager.ImportExport.Export.Formats.{bitwarden_csv, chrome, export_as}
use pwdnow_password_manager.ImportExport.Restored.{import_as, all_restored, import_as-export_as}
use pwdnow_password_manager.ImportExport.Choice.{import_from_csv_file}
use pwdnow_password_manager.ImportExport.Choice.Own.{import_from_csv_file-export_as}
use pwdnow_password_manager.ImportExport.Zip.{
  crc32, LocalDate, create_single_file_zip, extract_from_zip,
}
use pwdnow_password_manager.ImportExport.Zip.RoundTrip.{extract_from_zip-create_single_file_zip}
use pwdnow_password_manager.ImportExport.Zip.Total.{IsOutcome, extract_from_zip-IsOutcome}

abbrev browser : Browser
browser = record {
  to_lower = map ascii_lower;
  to_lower_ascii = λ s h. refl;
  secret_of = λ uri. none;
  encode_uri_component = λ s. s;
  uuid = λ n. n ∷ [];
}

abbrev work : Folder
work = record { id = text "f"; label = text "Work, mostly"; description = none }

abbrev account : Credential
account = record {
  id = text "1";
  service = text "Mail, inc";
  url = text "https://mail.example";
  username = text "me";
  password = some (0x22 ∷ text ",pa");
  status = text "active";
  status_color = [];
  logo = [];
  folder_id = text "f";
  tags = none;
  otp_secret = some (text "GEZDGNBV");
  description = none;
  credential_type = none;
}

account-IsUnbroken : IsUnbroken browser (work ∷ []) account
account-IsUnbroken = record {
  service = refl;
  url = refl;
  username = refl;
  password = refl;
  description = refl;
  otp = refl;
  folder_id = refl;
  folder = refl;
  otp_uri = refl;
}

import_as-export_as_example :
    (import_as browser chrome
      (export_as browser (work ∷ []) chrome (account ∷ account ∷ []))).credentials
    ≡ all_restored browser (work ∷ []) chrome 0 (account ∷ account ∷ [])
import_as-export_as_example =
    import_as-export_as browser (work ∷ []) chrome (account ∷ account ∷ [])
      (account-IsUnbroken, (account-IsUnbroken, tt))

import_from_csv_file-export_as_example :
    (import_from_csv_file browser
      (export_as browser (work ∷ []) bitwarden_csv (account ∷ account ∷ []))).credentials
    ≡ all_restored browser (work ∷ []) bitwarden_csv 0 (account ∷ account ∷ [])
import_from_csv_file-export_as_example =
    import_from_csv_file-export_as browser (work ∷ []) bitwarden_csv (account ∷ account ∷ [])
      (account-IsUnbroken, (account-IsUnbroken, tt)) refl

-- The check value of the polynomial.
crc32_check : crc32 (text "123456789") ≡ 0xCBF43926
unfolding crc32
crc32_check = refl

abbrev same_text : TextCodec
same_text = record { encode = λ s. s; decode = λ s. s; decode-encode = λ s h. refl }

abbrev noon : LocalDate
noon = record { year = 2025; month = 3; day = 14; hours = 12; minutes = 30; seconds = 5 }

extract_from_zip-create_single_file_zip_example :
    extract_from_zip same_text
      (create_single_file_zip same_text noon (text "export.data") (1 ∷ 2 ∷ []))
      (text "export.data")
    ≡ ok (some (1 ∷ 2 ∷ []))
unfolding is_plain
extract_from_zip-create_single_file_zip_example =
    extract_from_zip-create_single_file_zip same_text noon (text "export.data") (1 ∷ 2 ∷ []) refl
      (omega arith) (omega arith)

-- A local header that breaks off.
extract_from_zip-IsOutcome_example :
    IsOutcome (extract_from_zip same_text (0x50 ∷ 0x4B ∷ 3 ∷ 4 ∷ 0 ∷ 0 ∷ []) (text "export.data"))
extract_from_zip-IsOutcome_example =
    extract_from_zip-IsOutcome same_text (0x50 ∷ 0x4B ∷ 3 ∷ 4 ∷ 0 ∷ 0 ∷ []) (text "export.data")
