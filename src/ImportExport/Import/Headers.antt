-- ===== src/ImportExport/Import/Headers.antt =====
-- The columns that an importer finds under ASCII headers: no browser is needed to name them.
use pwdnow_password_manager.Prelude.{
  ℕ, List, [], ◌∷◌, Bool, true, ◌&&◌, ◌≡◌, refl, ◌∙◌, ap, Option, none, some, or_else, map, all,
  ltb, &&_true, arith,
}
use pwdnow_password_manager.Text.{text, trim}
use pwdnow_password_manager.ImportExport.Import.{
  Browser, ColMap, Columns, ascii_lower, index_of, find_col, headers_of, columns_of,
}

abbrev pub is_ascii : List ℕ → Bool
is_ascii s = all (λ c. ltb c 128) s

abbrev pub lowered : List ℕ → List ℕ
lowered s = map ascii_lower s

-- The first of the names that is a header.
unfoldable pub first_of : List (List ℕ) → List (List ℕ) → Option ℕ
unfolding index_of
first_of headers [] = none
first_of headers (n ∷ ns) =
    let later = first_of headers ns in
    elim (index_of (lowered n) headers) [ none ↦ later | some i ↦ some i ]

find_col-ascii :
    (browser : Browser) (headers names : List (List ℕ))
    → all is_ascii names ≡ true
    → find_col browser headers names ≡ first_of headers names
unfolding find_col first_of index_of
find_col-ascii browser headers [] h = refl
find_col-ascii browser headers (n ∷ ns) h =
    let (this, others) = &&_true (is_ascii n) (all is_ascii ns) h in
    ap (λ m. elim (index_of m headers) [ none ↦ find_col browser headers ns | some i ↦ some i ])
      (browser.to_lower_ascii n this)
    ∙ ap (λ later. elim (index_of (lowered n) headers) [ none ↦ later | some i ↦ some i ])
        (find_col-ascii browser headers ns others)

pub headers_of-ascii :
    (browser : Browser) (row : List (List ℕ))
    → all is_ascii row ≡ true
    → headers_of browser row ≡ map (λ h. trim (lowered h)) row
headers_of-ascii browser [] h = refl
headers_of-ascii browser (c ∷ cs) h =
    let (this, others) = &&_true (is_ascii c) (all is_ascii cs) h in
    rw (browser.to_lower_ascii c this)
      (ap (λ r. trim (lowered c) ∷ r) (headers_of-ascii browser cs others))

-- The names an importer looks for in a column, the usual ones where it says nothing.
abbrev pub ascii_columns : ColMap → List (List ℕ) → Columns
ascii_columns m headers = record {
  title =
      first_of headers
        (or_else m.title (text "title" ∷ text "name" ∷ text "account" ∷ text "label" ∷ []));
  url = first_of headers (
      or_else m.url
        (text "url" ∷ text "website" ∷ text "web site" ∷ text "login_uri" ∷ text "uri" ∷ []));
  username = first_of headers (
      or_else m.username (
        text "username"
        ∷ text "login"
        ∷ text "login name"
        ∷ text "user name"
        ∷ text "email"
        ∷ text "login_username"
        ∷ []));
  password =
      first_of headers
        (or_else m.password (text "password" ∷ text "pwd" ∷ text "login_password" ∷ []));
  notes = first_of headers (
      or_else m.notes
        (text "notes" ∷ text "note" ∷ text "extra" ∷ text "comment" ∷ text "comments" ∷ []));
  otp = first_of headers (
      or_else m.otp
        (text "totp" ∷ text "otpauth" ∷ text "otp" ∷ text "two-factor" ∷ text "login_totp" ∷ []));
  folder =
      first_of headers
        (or_else m.folder (text "folder" ∷ text "group" ∷ text "grouping" ∷ text "category" ∷ []));
  kind = index_of (text "type") headers;
}

-- Every name the importer gives is ASCII.
abbrev pub has_ascii_names : ColMap → Bool
has_ascii_names m =
    all is_ascii (or_else m.title [])
    && all is_ascii (or_else m.url [])
    && all is_ascii (or_else m.username [])
    && all is_ascii (or_else m.password [])
    && all is_ascii (or_else m.notes [])
    && all is_ascii (or_else m.otp [])
    && all is_ascii (or_else m.folder [])

usual :
    (browser : Browser) (headers : List (List ℕ)) (given : Option (List (List ℕ)))
    (names : List (List ℕ))
    → all is_ascii (or_else given []) ≡ true
    → all is_ascii names ≡ true
    → find_col browser headers (or_else given names) ≡ first_of headers (or_else given names)
usual browser headers none names h h' = find_col-ascii browser headers names h'
usual browser headers (some given) names h h' = find_col-ascii browser headers given h

pub columns_of-ascii :
    (browser : Browser) (m : ColMap) (headers : List (List ℕ))
    → has_ascii_names m ≡ true
    → columns_of browser m headers ≡ ascii_columns m headers
unfolding columns_of
columns_of-ascii browser m headers h =
    let given = usual browser headers in
    rw
      (
        given m.title (text "title" ∷ text "name" ∷ text "account" ∷ text "label" ∷ [])
            (ground arith) refl,
        given m.url
            (text "url" ∷ text "website" ∷ text "web site" ∷ text "login_uri" ∷ text "uri" ∷ [])
            (ground arith) refl,
        given m.username
            (text "username"
              ∷ text "login"
              ∷ text "login name"
              ∷ text "user name"
              ∷ text "email"
              ∷ text "login_username"
              ∷ [])
            (ground arith) refl,
        given m.password (text "password" ∷ text "pwd" ∷ text "login_password" ∷ []) (ground arith)
            refl,
        given m.notes
            (text "notes" ∷ text "note" ∷ text "extra" ∷ text "comment" ∷ text "comments" ∷ [])
            (ground arith) refl,
        given m.otp
            (text "totp" ∷ text "otpauth" ∷ text "otp" ∷ text "two-factor" ∷ text "login_totp" ∷ [])
            (ground arith) refl,
        given m.folder (text "folder" ∷ text "group" ∷ text "grouping" ∷ text "category" ∷ [])
            (ground arith) refl,
      )
      refl
