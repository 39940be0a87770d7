-- ===== src/ImportExport/Csv/RoundTrip.antt =====
-- Reading the cells of a written row.
use pwdnow_password_manager.Prelude.{
  ℕ, List, [], ◌∷◌, ◌++◌, Bool, true, false, ◌&&◌, ◌||◌, not, Option, ◌==◌, or_else, all, any, keep,
  map, ◌≡◌, refl, ◌∙◌, sym, ap, append_assoc, append-nil, arith, Bool-cases, inl, inr, ==_iff,
}
use pwdnow_password_manager.Text.{is_space, includes, join}
use pwdnow_password_manager.ImportExport.Csv.{
  without_mark, split_lines, is_blank, parse_line, parse_csv, double_quotes, quoted, csv_escape,
}

-- What may follow a cell: the end of the line or a comma.
abbrev pub IsEnd : List ℕ → Type 0
IsEnd [] = Unit
IsEnd (c ∷ s) = c ≡ 0x2c

pub parse_line-plain :
    (cur v tail : List ℕ)
    → any (λ d. d == 0x2c) v ≡ false
    → any (λ d. d == 0x22) v ≡ false
    → IsEnd tail
    → parse_line false cur (v ++ tail) ≡ parse_line false (cur ++ v) tail
unfolding parse_line
parse_line-plain cur [] tail no_comma no_quote end =
    ap (λ c. parse_line false c tail) (sym (append-nil cur))
parse_line-plain cur (c ∷ []) [] no_comma no_quote end = ground arith
parse_line-plain cur (c ∷ []) (t ∷ tail) no_comma no_quote end = ground arith
parse_line-plain cur (c ∷ d ∷ v) tail no_comma no_quote end =
    let plain : (c == 0x22) ≡ false = ground arith in
    let kept : (c == 0x2c) ≡ false = ground arith in
    rw (plain, kept)
      (parse_line-plain (cur ++ c ∷ []) (d ∷ v) tail (ground arith) (ground arith) end
        ∙ ap (λ r. parse_line false r tail) (append_assoc cur (c ∷ []) (d ∷ v)))

parse_line-other :
    (cur : List ℕ) (c : ℕ) (s : List ℕ)
    → (c == 0x22) ≡ false
    → parse_line true cur (c ∷ s) ≡ parse_line true (cur ++ c ∷ []) s
unfolding parse_line
parse_line-other cur c [] other = ground arith
parse_line-other cur c (d ∷ s) other = ground arith

parse_line-comma : (cur s : List ℕ) → parse_line false cur (0x2c ∷ s) ≡ cur ∷ parse_line false [] s
unfolding parse_line
parse_line-comma cur [] = refl
parse_line-comma cur (d ∷ s) = refl

-- Within quotes, up to the closing quote.
parse_line-quoted :
    (cur v tail : List ℕ)
    → IsEnd tail
    → parse_line true cur (double_quotes v ++ 0x22 ∷ tail) ≡ parse_line false (cur ++ v) tail
unfolding parse_line double_quotes
parse_line-quoted cur [] [] end = ap (λ c. c ∷ []) (sym (append-nil cur))
parse_line-quoted cur [] (t ∷ tail) end =
    let other : (t == 0x22) ≡ false = ground arith in
    rw (other) (ap (λ c. parse_line false c (t ∷ tail)) (sym (append-nil cur)))
parse_line-quoted cur (c ∷ v) tail end = elim (Bool-cases (c == 0x22)) [
  | inl quote ↦
      let e = (==_iff c 0x22).0 quote in
      rw (quote, quote)
        (parse_line-quoted (cur ++ 0x22 ∷ []) v tail end
          ∙ ap (λ r. parse_line false r tail)
              (append_assoc cur (0x22 ∷ []) v ∙ ap (λ d. cur ++ d ∷ v) (sym e)))
  | inr other ↦ rw (other) (
      parse_line-other cur c (double_quotes v ++ 0x22 ∷ tail) other
      ∙ parse_line-quoted (cur ++ c ∷ []) v tail end
      ∙ ap (λ r. parse_line false r tail) (append_assoc cur (c ∷ []) v))
]

parse_line_opened :
    (w t : List ℕ) → parse_line false [] (0x22 ∷ w ++ 0x22 ∷ t) ≡ parse_line true [] (w ++ 0x22 ∷ t)
unfolding parse_line
parse_line_opened [] t = refl
parse_line_opened (d ∷ w) t = refl

-- Reading a quoted cell, and an escaped one.
pub parse_line-quoted_cell :
    (v tail : List ℕ)
    → IsEnd tail
    → parse_line false [] (quoted v ++ tail) ≡ parse_line false v tail
parse_line-quoted_cell v tail end =
    ap (λ r. parse_line false [] (0x22 ∷ r)) (append_assoc (double_quotes v) (0x22 ∷ []) tail)
    ∙ parse_line_opened (double_quotes v) tail
    ∙ parse_line-quoted [] v tail end

pub parse_line-csv_escape :
    (v : Option (List ℕ)) (tail : List ℕ)
    → IsEnd tail
    → parse_line false [] (csv_escape v ++ tail) ≡ parse_line false (or_else v []) tail
parse_line-csv_escape v tail end =
    let s = or_else v [] in
    elim (Bool-cases (includes 0x2c s || includes 0x22 s || includes 10 s || includes 13 s)) [
      | inl special ↦ rw (special) (parse_line-quoted_cell s tail end)
      | inr plain ↦ rw (plain) (parse_line-plain [] s tail (ground arith) (ground arith) end)
    ]

-- No line break.
abbrev pub is_unbroken : List ℕ → Bool
is_unbroken s = all (λ c. not (c == 10) && not (c == 13)) s

is_unbroken-double_quotes :
    (v : List ℕ) → is_unbroken v ≡ true → is_unbroken (double_quotes v) ≡ true
unfolding double_quotes
is_unbroken-double_quotes [] h = refl
is_unbroken-double_quotes (c ∷ v) h = ground (arith, is_unbroken-double_quotes v)

is_unbroken-append :
    (v w : List ℕ) → is_unbroken v ≡ true → is_unbroken w ≡ true → is_unbroken (v ++ w) ≡ true
is_unbroken-append [] w h h' = h'
is_unbroken-append (c ∷ v) w h h' = ground (arith, is_unbroken-append v w)

is_unbroken-csv_escape :
    (v : Option (List ℕ)) → is_unbroken (or_else v []) ≡ true → is_unbroken (csv_escape v) ≡ true
is_unbroken-csv_escape v h =
    let s = or_else v [] in
    let whole =
      is_unbroken-append (double_quotes s) (0x22 ∷ []) (is_unbroken-double_quotes s h) refl in
    elim (Bool-cases (includes 0x2c s || includes 0x22 s || includes 10 s || includes 13 s)) [
      | inl special ↦ rw (special) whole
      | inr plain ↦ rw (plain) h
    ]

-- The cell is unbroken and read back as the value.
abbrev pub IsCell : List ℕ → List ℕ → Type 0
IsCell cell value =
    ((tail : List ℕ)
      → IsEnd tail
      → parse_line false [] (cell ++ tail) ≡ parse_line false value tail)
    × (is_unbroken cell ≡ true)

pub csv_escape-IsCell :
    (v : Option (List ℕ)) → is_unbroken (or_else v []) ≡ true → IsCell (csv_escape v) (or_else v [])
csv_escape-IsCell v h = (parse_line-csv_escape v, is_unbroken-csv_escape v h)

pub quoted-IsCell : (v : List ℕ) → is_unbroken v ≡ true → IsCell (quoted v) v
quoted-IsCell v h = (
  parse_line-quoted_cell v,
  is_unbroken-append (double_quotes v) (0x22 ∷ []) (is_unbroken-double_quotes v h) refl,
)

-- The cells of a row and their values.
abbrev pub IsRow : List (List ℕ) → List (List ℕ) → Type 0
IsRow [] [] = Unit
IsRow [] (v ∷ vs) = ⊥
IsRow (c ∷ cs) [] = ⊥
IsRow (c ∷ cs) (v ∷ vs) = IsCell c v × IsRow cs vs

pub parse_line-join :
    (c : List ℕ) (cs : List (List ℕ)) (v : List ℕ) (vs : List (List ℕ))
    → IsRow (c ∷ cs) (v ∷ vs)
    → parse_line false [] (join 0x2c (c ∷ cs)) ≡ v ∷ vs
unfolding join parse_line
parse_line-join c [] v [] row = ap (parse_line false []) (sym (append-nil c)) ∙ row.0.0 [] tt
parse_line-join c [] v (v' ∷ vs) row = absurd row.1
parse_line-join c (c' ∷ cs) v [] row = absurd row.1
parse_line-join c (c' ∷ cs) v (v' ∷ vs) row =
    row.0.0 (0x2c ∷ join 0x2c (c' ∷ cs)) refl
    ∙ parse_line-comma v (join 0x2c (c' ∷ cs))
    ∙ ap (λ r. v ∷ r) (parse_line-join c' cs v' vs row.1)

is_unbroken-join : (cs vs : List (List ℕ)) → IsRow cs vs → is_unbroken (join 0x2c cs) ≡ true
unfolding join
is_unbroken-join [] vs row = refl
is_unbroken-join (c ∷ []) [] row = absurd row
is_unbroken-join (c ∷ []) (v ∷ vs) row = row.0.1
is_unbroken-join (c ∷ c' ∷ cs) [] row = absurd row
is_unbroken-join (c ∷ c' ∷ cs) (v ∷ vs) row =
    is_unbroken-append c (0x2c ∷ join 0x2c (c' ∷ cs)) row.0.1 (is_unbroken-join (c' ∷ cs) vs row.1)

comma_not_blank : (v w : List ℕ) → is_blank (v ++ 0x2c ∷ w) ≡ false
unfolding is_space
comma_not_blank [] w = refl
comma_not_blank (c ∷ v) w = ground (arith, comma_not_blank v w)

-- A line that is read as it was written.
abbrev pub IsLine : List ℕ → Type 0
IsLine line = (is_unbroken line ≡ true) × (is_blank line ≡ false)

pub join-IsLine :
    (c c' : List ℕ) (cs vs : List (List ℕ))
    → IsRow (c ∷ c' ∷ cs) vs
    → IsLine (join 0x2c (c ∷ c' ∷ cs))
unfolding join
join-IsLine c c' cs vs row =
    (is_unbroken-join (c ∷ c' ∷ cs) vs row, comma_not_blank c (join 0x2c (c' ∷ cs)))

split_lines-line :
    (line rest : List ℕ)
    → is_unbroken line ≡ true
    → split_lines (line ++ 10 ∷ rest) ≡ line ∷ split_lines rest
unfolding split_lines
split_lines-line [] rest h = refl
split_lines-line (c ∷ line) rest h = ground (arith, split_lines-line line rest)

split_lines_last : (line : List ℕ) → is_unbroken line ≡ true → split_lines line ≡ line ∷ []
unfolding split_lines
split_lines_last [] h = refl
split_lines_last (c ∷ line) h = ground (arith, split_lines_last line)

abbrev pub AllLines : List (List ℕ) → Type 0
AllLines [] = Unit
AllLines (l ∷ ls) = IsLine l × AllLines ls

split_lines-join :
    (l : List ℕ) (ls : List (List ℕ)) → AllLines (l ∷ ls) → split_lines (join 10 (l ∷ ls)) ≡ l ∷ ls
unfolding join
split_lines-join l [] h = split_lines_last l h.0.0
split_lines-join l (l' ∷ ls) h =
    split_lines-line l (join 10 (l' ∷ ls)) h.0.0 ∙ ap (λ r. l ∷ r) (split_lines-join l' ls h.1)

keep_lines : (ls : List (List ℕ)) → AllLines ls → keep (λ line. not (is_blank line)) ls ≡ ls
keep_lines [] h = refl
keep_lines (l ∷ ls) h = rw (h.0.1) (ap (λ r. l ∷ r) (keep_lines ls h.1))

-- Lines without line breaks, none of them blank, are read one by one.
pub parse_csv-join :
    (l : List ℕ) (ls : List (List ℕ))
    → AllLines (l ∷ ls)
    → without_mark (join 10 (l ∷ ls)) ≡ join 10 (l ∷ ls)
    → parse_csv (join 10 (l ∷ ls)) ≡ map (parse_line false []) (l ∷ ls)
unfolding parse_csv
parse_csv-join l ls h unmarked =
    ap (λ t. map (parse_line false []) (keep (λ line. not (is_blank line)) (split_lines t)))
      unmarked
    ∙ ap (λ t. map (parse_line false []) (keep (λ line. not (is_blank line)) t))
        (split_lines-join l ls h)
    ∙ ap (map (parse_line false [])) (keep_lines (l ∷ ls) h)
