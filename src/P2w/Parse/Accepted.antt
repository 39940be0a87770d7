-- ===== src/P2w/Parse/Accepted.antt =====
-- What holds of every vault that the parser accepts.
use pwdnow_password_manager.Prelude.{
  ℕ, ◌≤◌, ◌≡◌, refl, ◌⊎◌, inl, inr, List, [], ◌∷◌, true, false, not, ◌&&◌, Option, none, some, ok,
  arith, if◌then◌else◌, length, take, keep, map, All, All-concat, length-take, length-append,
}
use pwdnow_password_manager.Text.{TextCodec, text, trim}
use pwdnow_password_manager.Types.{Credential, Folder}
use pwdnow_password_manager.P2w.Format.{ff_id, fe_id}
use pwdnow_password_manager.P2w.Fields.{FieldMap, str_f}
use pwdnow_password_manager.P2w.Parse.Steps.{
  parse_meta-eq-ok, parse_folder-eq-ok, parse_entry-eq-ok, parse_record-eq-ok, handle_record-eq-ok,
  round_parser, parse_loop_inv, parse_payload-eq-ok,
}
use pwdnow_password_manager.P2w.Parse.{
  Parser, Round, start, is_valid_id, is_empty, or_undefined, or_default, clean_tags, counts_match,
  parse_folder, fields_folder, entry_credential, parse_entry, parse_record, handle_record, finish,
  parse_payload,
}

-- An optional text: absent, or of 1 to n units.
abbrev pub Within : ℕ → Option (List ℕ) → Type 0
Within n none = Unit
Within n (some s) = (1 ≤ length s) × (length s ≤ n)

pub record FolderIsClean (f : Folder) : Type 0 where
  pub id_valid : is_valid_id f.id ≡ true
  pub label_short : length f.label ≤ 256
  pub description_short : Within 1024 f.description

abbrev pub TagIsClean : List ℕ → Type 0
TagIsClean t = (1 ≤ length t) × (length t ≤ 64)

-- A list of tags that is present and clean, and a password that is present and short.
abbrev pub TagsAreClean : Option (List (List ℕ)) → Type 0
TagsAreClean none = ⊥
TagsAreClean (some ts) = All TagIsClean ts

abbrev pub PasswordIsShort : Option (List ℕ) → Type 0
PasswordIsShort none = ⊥
PasswordIsShort (some s) = length s ≤ 4096

pub record CredentialIsClean (uuid : ℕ → List ℕ) (c : Credential) : Type 0 where
  pub id_valid : (is_valid_id c.id ≡ true) ⊎ ((n : ℕ) × (c.id ≡ uuid n))
  pub service_short : length c.service ≤ 256
  pub url_short : length c.url ≤ 2048
  pub username_short : length c.username ≤ 256
  pub password_short : PasswordIsShort c.password
  pub status_short : (1 ≤ length c.status) × (length c.status ≤ 32)
  pub folder_id_short : length c.folder_id ≤ 64
  pub tags_clean : TagsAreClean c.tags
  pub otp_secret_short : Within 256 c.otp_secret
  pub description_short : Within 10000 c.description

length-take_le : {A : Type 0} (n : ℕ) (xs : List A) → length (take n xs) ≤ n
length-take_le n xs = omega (arith, length-take n xs)

or_undefined-Within : (n : ℕ) (s : List ℕ) → length s ≤ n → Within n (or_undefined s)
or_undefined-Within n [] h = tt
or_undefined-Within n (c ∷ s) h = omega arith

or_default_short :
    (n : ℕ) (s d : List ℕ)
    → length s ≤ n
    → (1 ≤ length d) × (length d ≤ n)
    → (1 ≤ length (or_default s d)) × (length (or_default s d) ≤ n)
or_default_short n [] d h k = k
or_default_short n (c ∷ s) d h k = omega arith

keep-TagIsClean :
    (ts : List (List ℕ))
    → All TagIsClean (keep (λ t. not (is_empty t)) (map (λ t. take 64 (trim t)) ts))
keep-TagIsClean [] = tt
keep-TagIsClean (t ∷ ts) =
    tag-TagIsClean (take 64 (trim t)) (length-take_le 64 (trim t)) _ (keep-TagIsClean ts)
  where
    tag-TagIsClean :
        (s : List ℕ)
        → length s ≤ 64
        → (r : List (List ℕ)) → All TagIsClean r
        → All TagIsClean (if not (is_empty s) then s ∷ r else r)
    tag-TagIsClean [] h r k = k
    tag-TagIsClean (c ∷ s) h r k = ((omega arith, h), k)

module _ (codec : TextCodec) (uuid : ℕ → List ℕ) where
  default_id :
      (s : List ℕ) (n : ℕ)
      → (is_empty s ≡ true) ⊎ (is_valid_id s ≡ true)
      → (is_valid_id (or_default s (uuid n)) ≡ true) ⊎ ((k : ℕ) × (or_default s (uuid n) ≡ uuid k))
  default_id [] n h = inr (n, refl)
  default_id (c ∷ s) n (inl h) = cc
  default_id (c ∷ s) n (inr h) = inl h

  -- The invariant of the loop.
  record IsClean (p : Parser) : Type 0 where
    credentials_clean : All (CredentialIsClean uuid) p.credentials
    folders_clean : All FolderIsClean p.folders
    credentials_few : length p.credentials ≤ 50000
    folders_few : length p.folders ≤ 5000

  entry_credential-IsClean :
      (m : FieldMap) (n : ℕ)
      → (is_empty (str_f codec m fe_id) ≡ true) ⊎ (is_valid_id (str_f codec m fe_id) ≡ true)
      → CredentialIsClean uuid (entry_credential codec uuid m n)
  unfolding entry_credential clean_tags
  entry_credential-IsClean m n id = record {
    id_valid = default_id (str_f codec m fe_id) n id;
    service_short = length-take_le 256 _;
    url_short = length-take_le 2048 _;
    username_short = length-take_le 256 _;
    password_short = length-take_le 4096 _;
    status_short = or_default_short 32 _ (text "active") (length-take_le 32 _) (omega arith);
    folder_id_short = length-take_le 64 _;
    tags_clean = keep-TagIsClean _;
    otp_secret_short = or_undefined-Within 256 _ (length-take_le 256 _);
    description_short = or_undefined-Within 10000 _ (length-take_le 10000 _);
  }

  fields_folder-IsClean :
      (m : FieldMap)
      → is_valid_id (str_f codec m ff_id) ≡ true
      → FolderIsClean (fields_folder codec uuid m)
  unfolding fields_folder
  fields_folder-IsClean m valid = record {
    id_valid = valid;
    label_short = length-take_le 256 _;
    description_short = or_undefined-Within 1024 _ (length-take_le 1024 _);
  }

  -- `if (id && !valid) throw`
  id_checked :
      (s : List ℕ)
      → (not (is_empty s) && not (is_valid_id s)) ≡ false
      → (is_empty s ≡ true) ⊎ (is_valid_id s ≡ true)
  id_checked s h = ground arith

  parse_folder-IsClean :
      (m : FieldMap) (p : Parser) {p' : Parser}
      → IsClean p
      → parse_folder codec uuid m p ≡ ok p'
      → IsClean p'
  parse_folder-IsClean m p c e =
      let (in_order, valid, few, eq) = parse_folder-eq-ok codec uuid m p e in
      rw eq (record {
        credentials_clean = c.credentials_clean;
        folders_clean =
            All-concat FolderIsClean p.folders c.folders_clean (fields_folder-IsClean m valid);
        credentials_few = c.credentials_few;
        folders_few = omega (arith, length-append p.folders (fields_folder codec uuid m ∷ []));
      })

  parse_entry-IsClean :
      (m : FieldMap) (p : Parser) {p' : Parser}
      → IsClean p
      → parse_entry codec uuid m p ≡ ok p'
      → IsClean p'
  parse_entry-IsClean m p c e =
      let (in_order, valid, few, eq) = parse_entry-eq-ok codec uuid m p e in
      let entry = entry_credential codec uuid m (length p.credentials) in
      rw eq (record {
        credentials_clean =
            All-concat (CredentialIsClean uuid) p.credentials c.credentials_clean
              (entry_credential-IsClean m _ valid);
        folders_clean = c.folders_clean;
        credentials_few = omega (arith, length-append p.credentials (entry ∷ []));
        folders_few = c.folders_few;
      })

  parse_record-IsClean :
      (rtype : ℕ) (body : List ℕ) (p : Parser) {p' : Parser}
      → IsClean p
      → parse_record codec uuid rtype body p ≡ ok p'
      → IsClean p'
  parse_record-IsClean rtype body p c e =
      let (m, parsed) = parse_record-eq-ok codec uuid rtype body p e in
      elim parsed [
        | inl (_, meta) ↦
            let (in_order, few, few', eq) = parse_meta-eq-ok codec uuid m p meta in
            rw eq (record {
              credentials_clean = c.credentials_clean;
              folders_clean = c.folders_clean;
              credentials_few = c.credentials_few;
              folders_few = c.folders_few;
            })
        | inr (inl (_, folder)) ↦ parse_folder-IsClean m p c folder
        | inr (inr (_, entry)) ↦ parse_entry-IsClean m p c entry
      ]

  handle_record-IsClean :
      (rtype : ℕ) (body : List ℕ) (left : ℕ) (p : Parser) (round : Round)
      → IsClean p
      → handle_record codec uuid rtype body left p ≡ ok round
      → IsClean (round_parser round)
  handle_record-IsClean rtype body left p round c e =
      elim (handle_record-eq-ok codec uuid rtype body p left e) [
        | inl (_, _, _, eq) ↦ rw eq (moved c)
        | inr (inl (_, _, eq)) ↦ rw eq (moved c)
        | inr (inr (p', parsed, eq)) ↦ rw eq (parse_record-IsClean rtype body p c parsed)
      ]
    where
      moved : {s : ℕ} → IsClean p → IsClean (record p { state = s })
      moved h = record {
        credentials_clean = h.credentials_clean;
        folders_clean = h.folders_clean;
        credentials_few = h.credentials_few;
        folders_few = h.folders_few;
      }

  counts_match-eq : (o : Option ℕ) (n : ℕ) → counts_match o n ≡ true → o ≡ some n
  counts_match-eq none n h = cc
  counts_match-eq (some m) n h = ground arith

  -- What `finish` lets through: META was read, and its counts are the numbers of records.
  finish-eq-ok :
      (p : Parser) {creds : List Credential} {folds : List Folder}
      → finish p ≡ ok (creds, folds)
      → (creds ≡ p.credentials)
        × (folds ≡ p.folders)
        × (p.meta_creds ≡ some (length creds))
        × (p.meta_folds ≡ some (length folds))
  unfolding finish
  finish-eq-ok p e = ground (
    arith,
    counts_match-eq p.meta_creds (length p.credentials),
    counts_match-eq p.meta_folds (length p.folders),
  )

  finish-IsClean :
      (p : Parser) {creds : List Credential} {folds : List Folder}
      → IsClean p
      → finish p ≡ ok (creds, folds)
      → All (CredentialIsClean uuid) creds
        × All FolderIsClean folds
        × (length creds ≤ 50000)
        × (length folds ≤ 5000)
  finish-IsClean p c e =
      let (creds_eq, folds_eq, _, _) = finish-eq-ok p e in
      (
        rw creds_eq c.credentials_clean,
        rw folds_eq c.folders_clean,
        rw creds_eq c.credentials_few,
        rw folds_eq c.folders_few,
      )

  -- Every vault that the parser accepts is clean: each folder's id matches the pattern and its
  -- texts are within their limits; each credential's id matches the pattern or was generated, and
  -- all its texts and tags are within their limits; there are at most 50000 credentials and 5000
  -- folders.
  pub parse_payload-IsClean :
      (bytes_of : List ℕ) (creds : List Credential) (folds : List Folder)
      → parse_payload codec uuid bytes_of ≡ ok (creds, folds)
      → All (CredentialIsClean uuid) creds
        × All FolderIsClean folds
        × (length creds ≤ 50000)
        × (length folds ≤ 5000)
  parse_payload-IsClean bytes_of creds folds e =
      let (fuel, r, p, looped, e') = parse_payload-eq-ok codec uuid bytes_of e in
      finish-IsClean p
        (parse_loop_inv codec uuid IsClean handle_record-IsClean fuel r start start_clean looped) e'
    where
      start_clean : IsClean start
      start_clean = record {
        credentials_clean = tt;
        folders_clean = tt;
        credentials_few = omega arith;
        folders_few = omega arith;
      }
