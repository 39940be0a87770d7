-- ===== src/ImportExport/Export/Files.antt =====
-- Reading a file that an exporter has written.
use pwdnow_password_manager.Prelude.{
  ℕ, List, [], ◌∷◌, true, false, ◌≡◌, refl, ◌∙◌, ap, some, or_else, map, any, ◌==◌, Bool-cases, inl,
  inr,
}
use pwdnow_password_manager.Text.{join}
use pwdnow_password_manager.Types.{Folder, Credential}
use pwdnow_password_manager.ImportExport.Csv.{parse_line, parse_csv, without_mark}
use pwdnow_password_manager.ImportExport.Csv.RoundTrip.{
  IsCell, IsRow, IsLine, AllLines, is_unbroken, csv_escape-IsCell, parse_line-plain,
  parse_line-join, join-IsLine, parse_csv-join,
}
use pwdnow_password_manager.ImportExport.Import.{Browser, is_empty}
use pwdnow_password_manager.ImportExport.Export.{csv_file, folder_cell, otp_value, otp_cell}

-- No field that an exporter writes has a line break.
pub record IsUnbroken (browser : Browser) (folders : List Folder) (c : Credential) : Type 0 where
  pub service : is_unbroken c.service ≡ true
  pub url : is_unbroken c.url ≡ true
  pub username : is_unbroken c.username ≡ true
  pub password : is_unbroken (or_else c.password []) ≡ true
  pub description : is_unbroken (or_else c.description []) ≡ true
  pub otp : is_unbroken (or_else c.otp_secret []) ≡ true
  pub folder_id : is_unbroken c.folder_id ≡ true
  pub folder : is_unbroken (folder_cell folders c) ≡ true
  pub otp_uri : is_unbroken (otp_value browser c) ≡ true

pub plain-IsCell :
    (v : List ℕ)
    → any (λ d. d == 0x2c) v ≡ false
    → any (λ d. d == 0x22) v ≡ false
    → is_unbroken v ≡ true
    → IsCell v v
plain-IsCell v no_comma no_quote unbroken =
    (λ tail end. parse_line-plain [] v tail no_comma no_quote end, unbroken)

pub otp_cell-IsCell :
    (browser : Browser) (c : Credential)
    → is_unbroken (otp_value browser c) ≡ true
    → IsCell (otp_cell browser c) (otp_value browser c)
otp_cell-IsCell browser c unbroken = elim (Bool-cases (is_empty (or_else c.otp_secret []))) [
  | inl without ↦ rw (without) (plain-IsCell [] refl refl refl)
  | inr there ↦
      let escaped = csv_escape-IsCell (some (otp_value browser c)) unbroken in
      rw (there) (rw there at escaped)
]

-- At least two cells, with their values.
abbrev pub IsLong : List (List ℕ) → List (List ℕ) → Type 0
IsLong [] vs = ⊥
IsLong (c ∷ []) vs = ⊥
IsLong (c ∷ c' ∷ cs) [] = ⊥
IsLong (c ∷ c' ∷ cs) (v ∷ vs) = IsRow (c ∷ c' ∷ cs) (v ∷ vs)

parse_line-IsLong :
    (cells values : List (List ℕ))
    → IsLong cells values
    → parse_line false [] (join 0x2c cells) ≡ values
parse_line-IsLong [] values h = absurd h
parse_line-IsLong (c ∷ []) values h = absurd h
parse_line-IsLong (c ∷ c' ∷ cs) [] h = absurd h
parse_line-IsLong (c ∷ c' ∷ cs) (v ∷ vs) h = parse_line-join c (c' ∷ cs) v vs h

join-IsLong : (cells values : List (List ℕ)) → IsLong cells values → IsLine (join 0x2c cells)
join-IsLong [] values h = absurd h
join-IsLong (c ∷ []) values h = absurd h
join-IsLong (c ∷ c' ∷ cs) [] h = absurd h
join-IsLong (c ∷ c' ∷ cs) (v ∷ vs) h = join-IsLine c c' cs (v ∷ vs) h

-- Every credential's cells say its values.
abbrev pub AllLong :
    (Credential → List (List ℕ)) → (Credential → List (List ℕ)) → List Credential → Type 0
AllLong cells values [] = Unit
AllLong cells values (c ∷ cs) = IsLong (cells c) (values c) × AllLong cells values cs

all_lines :
    (cells values : Credential → List (List ℕ)) (cs : List Credential)
    → AllLong cells values cs
    → AllLines (map (λ c. join 0x2c (cells c)) cs)
all_lines cells values [] h = tt
all_lines cells values (c ∷ cs) h =
    (join-IsLong (cells c) (values c) h.0, all_lines cells values cs h.1)

parsed_rows :
    (cells values : Credential → List (List ℕ)) (cs : List Credential)
    → AllLong cells values cs
    → map (parse_line false []) (map (λ c. join 0x2c (cells c)) cs) ≡ map values cs
parsed_rows cells values [] h = refl
parsed_rows cells values (c ∷ cs) h =
    rw (parse_line-IsLong (cells c) (values c) h.0)
      (ap (λ r. values c ∷ r) (parsed_rows cells values cs h.1))

unmarked :
    (k : ℕ) (header : List ℕ) (lines : List (List ℕ))
    → (k == 0xfeff) ≡ false
    → without_mark (join 10 ((k ∷ header) ∷ lines)) ≡ join 10 ((k ∷ header) ∷ lines)
unfolding join
unmarked k header [] h = rw h refl
unmarked k header (l ∷ lines) h = rw h refl

pub parse_csv-csv_file :
    (k : ℕ) (header : List ℕ) (headers : List (List ℕ)) (cells values : Credential → List (List ℕ))
    (cs : List Credential)
    → (k == 0xfeff) ≡ false
    → IsLine (k ∷ header)
    → parse_line false [] (k ∷ header) ≡ headers
    → AllLong cells values cs
    → parse_csv (csv_file (k ∷ header) cells cs) ≡ headers ∷ map values cs
parse_csv-csv_file k header headers cells values cs plain line read rows =
    let lines = map (λ c. join 0x2c (cells c)) cs in
    parse_csv-join (k ∷ header) lines (line, all_lines cells values cs rows)
      (unmarked k header lines plain)
    ∙ rw (read) (ap (λ r. headers ∷ r) (parsed_rows cells values cs rows))
