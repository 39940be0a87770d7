-- ===== src/ImportExport/Import.antt =====
-- Reading other managers' CSV files: csvImport of web/src/utils/importExport.ts and the importers
-- that call it. The browser's toLowerCase and URL, and the UUIDs, are parameters.
pub mod Formats
pub mod Headers
use pwdnow_password_manager.Prelude.{
  ℕ, zero, suc, ◌+◌, ◌≡◌, List, [], ◌∷◌, ◌++◌, Bool, true, false, ◌&&◌, ◌||◌, not, Option, none,
  some, ltb, leb, ◌==◌, if◌then◌else◌, or_else, length, map, all,
}
use pwdnow_password_manager.Text.{text, text_eq, is_space, trim, trim_start}
use pwdnow_password_manager.Types.{Credential, CredentialType}
use pwdnow_password_manager.ImportExport.Csv.{parse_csv}

abbrev pub ascii_lower : ℕ → ℕ
ascii_lower c = if leb 65 c && leb c 90 then c + 32 else c

-- `secret_of` is `new URL(uri).searchParams.get('secret')`. `encode_uri_component` is
-- encodeURIComponent on well-formed texts; on a lone surrogate the browser throws, which is left out.
pub record Browser : Type 0 where
  pub to_lower : List ℕ → List ℕ
  pub to_lower_ascii : (s : List ℕ) → all (λ c. ltb c 128) s ≡ true → to_lower s ≡ map ascii_lower s
  pub secret_of : List ℕ → Option (List ℕ)
  pub encode_uri_component : List ℕ → List ℕ
  pub uuid : ℕ → List ℕ

pub record ColMap : Type 0 where
  pub title : Option (List (List ℕ))
  pub url : Option (List (List ℕ))
  pub username : Option (List (List ℕ))
  pub password : Option (List (List ℕ))
  pub notes : Option (List (List ℕ))
  pub otp : Option (List (List ℕ))
  pub folder : Option (List (List ℕ))

abbrev pub no_columns : ColMap
no_columns = record {
  title = none;
  url = none;
  username = none;
  password = none;
  notes = none;
  otp = none;
  folder = none;
}

-- `headers.findIndex(h => h === name)`, and the cell of a row.
unfoldable pub index_of : List ℕ → List (List ℕ) → Option ℕ
index_of name [] = none
index_of name (h ∷ hs) =
    if text_eq h name
    then some 0
    else (elim (index_of name hs) [ none ↦ none | some i ↦ some (suc i) ])

abbrev pub cell : List (List ℕ) → ℕ → Option (List ℕ)
cell [] i = none
cell (c ∷ cs) zero = some c
cell (c ∷ cs) (suc i) = cell cs i

-- `i >= 0 ? (row[i] ?? '') : ''`
abbrev pub value_at : Option ℕ → List (List ℕ) → List ℕ
value_at none row = []
value_at (some i) row = or_else (cell row i) []

abbrev pub is_empty : List ℕ → Bool
is_empty [] = true
is_empty (c ∷ s) = false

abbrev pub is_none : {A : Type 0} → Option A → Bool
is_none none = true
is_none (some a) = false

pub record ImportResult : Type 0 where
  pub credentials : List Credential
  pub detected_format : List ℕ

-- The columns found.
pub record Columns : Type 0 where
  pub title : Option ℕ
  pub url : Option ℕ
  pub username : Option ℕ
  pub password : Option ℕ
  pub notes : Option ℕ
  pub otp : Option ℕ
  pub folder : Option ℕ
  pub kind : Option ℕ

module _ (browser : Browser) where
  unfoldable pub find_col : List (List ℕ) → List (List ℕ) → Option ℕ
  unfolding index_of
  find_col headers [] = none
  find_col headers (n ∷ ns) =
      let later = find_col headers ns in
      elim (index_of (browser.to_lower n) headers) [ none ↦ later | some i ↦ some i ]

  abbrev pub headers_of : List (List ℕ) → List (List ℕ)
  headers_of row = map (λ h. trim (browser.to_lower h)) row

  unfoldable pub columns_of : ColMap → List (List ℕ) → Columns
  unfolding find_col index_of
  columns_of m headers = record {
    title =
        find_col headers
          (or_else m.title (text "title" ∷ text "name" ∷ text "account" ∷ text "label" ∷ []));
    url = find_col headers (
        or_else m.url
          (text "url" ∷ text "website" ∷ text "web site" ∷ text "login_uri" ∷ text "uri" ∷ []));
    username = find_col headers (
        or_else m.username (
          text "username"
          ∷ text "login"
          ∷ text "login name"
          ∷ text "user name"
          ∷ text "email"
          ∷ text "login_username"
          ∷ []));
    password =
        find_col headers
          (or_else m.password (text "password" ∷ text "pwd" ∷ text "login_password" ∷ []));
    notes = find_col headers (
        or_else m.notes
          (text "notes" ∷ text "note" ∷ text "extra" ∷ text "comment" ∷ text "comments" ∷ []));
    otp = find_col headers (
        or_else m.otp
          (text "totp" ∷ text "otpauth" ∷ text "otp" ∷ text "two-factor" ∷ text "login_totp" ∷ []));
    folder =
        find_col headers (
          or_else m.folder (text "folder" ∷ text "group" ∷ text "grouping" ∷ text "category" ∷ []));
    kind = index_of (text "type") headers;
  }

  -- `typeFilter` says to leave the row out.
  abbrev pub is_filtered : Option (List ℕ) → Columns → List (List ℕ) → Bool
  is_filtered none cols row = false
  is_filtered (some wanted) cols row =
      let kind = value_at cols.kind row in
      not (is_empty kind) && not (text_eq (browser.to_lower kind) wanted)

  abbrev pub otp_secret_of : List ℕ → Option (List ℕ)
  otp_secret_of raw = if is_empty raw then none else some (or_else (browser.secret_of raw) raw)

  -- The credential of a row; `n` UUIDs were drawn before.
  abbrev pub credential_of : Columns → ℕ → List (List ℕ) → Credential
  credential_of cols n row =
      let title = trim (value_at cols.title row) in
      let folder = value_at cols.folder row in
      record {
        id = browser.uuid n;
        service = if is_empty title then text "Untitled" else title;
        url = value_at cols.url row;
        username = value_at cols.username row;
        password = some (value_at cols.password row);
        status = text "active";
        status_color = text "#22c55e";
        logo = [];
        folder_id = [];
        tags = some (if is_empty folder then [] else folder ∷ []);
        otp_secret = otp_secret_of (value_at cols.otp row);
        description = if is_none cols.notes then none else some (value_at cols.notes row);
        credential_type = none;
      }

  abbrev pub is_skipped : Option (List ℕ) → Columns → List (List ℕ) → Bool
  is_skipped filter cols row =
      is_filtered filter cols row
      || (is_empty (trim (value_at cols.title row))
          && is_none cols.username
          && is_none cols.password)

  -- The loop over the rows after the headers.
  unfoldable pub import_rows :
      Option (List ℕ) → Columns → ℕ → List (List (List ℕ)) → List Credential
  unfolding trim trim_start
  import_rows filter cols n [] = []
  import_rows filter cols n (row ∷ rows) =
      let skipped = import_rows filter cols n rows in
      let kept = import_rows filter cols (n + 1) rows in
      if is_skipped filter cols row then skipped else credential_of cols n row ∷ kept

  unfoldable pub csv_import : List ℕ → ColMap → List ℕ → Option (List ℕ) → ImportResult
  unfolding parse_csv columns_of import_rows
  csv_import s m format filter = record {
    credentials = elim (parse_csv s) [
      | [] ↦ []
      | (headers ∷ rows) ↦ import_rows filter (columns_of m (headers_of headers)) 0 rows
    ];
    detected_format = format;
  }
