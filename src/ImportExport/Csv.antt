-- ===== src/ImportExport/Csv.antt =====
-- Comma-separated values: parseCSV and csvEscape of web/src/utils/importExport.ts.
pub mod RoundTrip
use pwdnow_password_manager.Prelude.{
  ℕ, List, [], ◌∷◌, ◌++◌, Bool, true, false, ◌&&◌, ◌||◌, not, Option, none, some, ◌==◌,
  if◌then◌else◌, or_else, all, keep, map,
}
use pwdnow_password_manager.Text.{is_space, includes, push_front}

-- `text.startsWith('\uFEFF') ? text.slice(1) : text`
abbrev pub without_mark : List ℕ → List ℕ
without_mark [] = []
without_mark (c ∷ s) = if c == 0xfeff then s else c ∷ s

abbrev starts_line : List ℕ → Bool
starts_line [] = false
starts_line (c ∷ s) = c == 10

-- `s.split(/\r?\n/)`: the rest from a `\n` on begins with an empty part.
unfoldable pub split_lines : List ℕ → List (List ℕ)
split_lines [] = [] ∷ []
split_lines (c ∷ s) =
    let rest = split_lines s in
    if c == 10 then [] ∷ rest else if c == 13 && starts_line s then rest else push_front c rest

-- `!line.trim()`: nothing but white space.
abbrev pub is_blank : List ℕ → Bool
is_blank line = all is_space line

-- The loop over a line from a character on, with `inQuote` and `cur`: the cells still to come.
unfoldable pub parse_line : Bool → List ℕ → List ℕ → List (List ℕ)
parse_line in_quote cur [] = cur ∷ []
parse_line in_quote cur (ch ∷ []) =
    if ch == 0x22
    then cur ∷ []
    else if ch == 0x2c && not in_quote
    then cur ∷ [] ∷ []
    else (cur ++ ch ∷ []) ∷ []
parse_line in_quote cur (ch ∷ next ∷ s) =
    let escaped = parse_line in_quote (cur ++ 0x22 ∷ []) s in
    let toggled = parse_line (not in_quote) cur (next ∷ s) in
    let cut = parse_line in_quote [] (next ∷ s) in
    let more = parse_line in_quote (cur ++ ch ∷ []) (next ∷ s) in
    if ch == 0x22
    then (if in_quote && next == 0x22 then escaped else toggled)
    else if ch == 0x2c && not in_quote
    then cur ∷ cut
    else more

unfoldable pub parse_csv : List ℕ → List (List (List ℕ))
unfolding split_lines parse_line
parse_csv text =
    map (parse_line false []) (keep (λ line. not (is_blank line)) (split_lines (without_mark text)))

-- `s.replace(/"/g, '""')`
unfoldable pub double_quotes : List ℕ → List ℕ
double_quotes [] = []
double_quotes (c ∷ s) = if c == 0x22 then c ∷ c ∷ double_quotes s else c ∷ double_quotes s

abbrev pub quoted : List ℕ → List ℕ
quoted s = 0x22 ∷ double_quotes s ++ 0x22 ∷ []

abbrev pub csv_escape : Option (List ℕ) → List ℕ
csv_escape val =
    let s = or_else val [] in
    if includes 0x2c s || includes 0x22 s || includes 10 s || includes 13 s then quoted s else s
