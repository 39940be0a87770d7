-- ===== src/P2w/RoundTrip/Records.antt =====
-- Parsing one record of a built payload.
use pwdnow_password_manager.Prelude.{
  ℕ, suc, ◌+◌, ◌^◌, ◌≤◌, ◌<◌, ◌≡◌, refl, true, false, List, [], ◌∷◌, ◌++◌, Option, none, some, ok,
  err, length, All, ◌>>=◌, ap, ◌∙◌, arith, append_assoc, ◌==◌, if◌then◌else◌, length-append,
  or_else,
}
use pwdnow_password_manager.Text.{TextCodec, is_plain}
use pwdnow_password_manager.Types.{
  Folder, Credential, CredentialType, login, passkey, secure_note, payment_card,
}
use pwdnow_password_manager.P2w.Format.{
  fail_msg, r_meta, r_folder, r_entry, ff_id, ff_label, ff_desc, fm_ncreds, fm_nfolds, fe_id,
  fe_svc, fe_url, fe_user, fe_pass, fe_notes, fe_otp, fe_folid, fe_status, fe_tags, fe_type,
}
use pwdnow_password_manager.P2w.Reader
use pwdnow_password_manager.P2w.Reader.{BufReader}
use pwdnow_password_manager.P2w.Reader.Views.{
  Sees, Sees-remaining, Sees-advance, u8_lem, u32_lem, bytes_lem,
}
use pwdnow_password_manager.P2w.Writer.Contents.{be32}
use pwdnow_password_manager.P2w.Fields.{FieldMap, get, str_f}
use pwdnow_password_manager.P2w.Fields.Written.{Fits, row, Row, row_bytes}
use pwdnow_password_manager.P2w.Fields.RoundTrip.{
  read_fields-row, str_f-present, u32_f-be32, find, tags_below, distinct,
}
use pwdnow_password_manager.P2w.Build.{type_name, type_field, or_empty}
use pwdnow_password_manager.P2w.Parse.{
  Parser, parse_meta, fields_folder, parse_folder, entry_credential, parse_entry, parse_record,
  handle_record, parse_loop, next_round, parse_type, is_valid_id, or_default, is_empty,
}
use pwdnow_password_manager.P2w.RoundTrip.Items.{
  meta_items, folder_items, entry_items, joined_tags, body_of, restore_folder, restore_credential,
  FolderIsPlain, CredentialIsPlain,
}
use pwdnow_password_manager.P2w.RoundTrip.Built.{record_bytes, FolderFits, EntryFits}

module _ (codec : TextCodec) (uuid : ℕ → List ℕ) where
  -- One round of the loop reads one record.
  pub parse_loop_step :
      (fuel : ℕ) (r : BufReader) (p : Parser) (type : ℕ) (body bs : List ℕ)
      → length body < 2 ^ 32
      → Sees r (record_bytes type body ++ bs)
      → (r' : BufReader) × Sees r' bs
        × (parse_loop codec uuid (suc fuel) r p ≡ (
            handle_record codec uuid type body (Reader.remaining r') p
            >>= next_round (parse_loop codec uuid fuel r')))
  unfolding parse_loop
  parse_loop_step fuel r p type body bs small s =
      let s' = rw (append_assoc (be32 (length body)) body bs) at s in
      let s1 = Sees-advance (type ∷ []) _ s' refl in
      let s2 = Sees-advance (be32 (length body)) (body ++ bs) s1 refl in
      let s3 = Sees-advance body bs s2 refl in
      (
        _,
        s3,
        ground (
          arith,
          u8_lem type _ s',
          u32_lem (length body) (body ++ bs) small s1,
          bytes_lem body bs s2,
          Sees-remaining s',
          Sees-remaining s2,
          length-append body bs,
        ),
      )

  -- A record whose body is a row of fields reaches the parser of its type.
  parse_record-row :
      (type : ℕ) (es : Row) (p : Parser)
      → tags_below es ≡ true
      → distinct es ≡ true
      → All Fits es
      → (m : FieldMap) × ((u : ℕ) → get m u ≡ find es u)
        × (parse_record codec uuid type (row_bytes es) p ≡ (
            if type == r_meta
            then parse_meta m p
            else if type == r_folder
            then parse_folder codec uuid m p
            else if type == r_entry
            then parse_entry codec uuid m p
            else err fail_msg))
  unfolding parse_record
  parse_record-row type es p below d fits =
      let (m, r', read, at_end, found) = read_fields-row es below d fits in
      (m, found, rw (read, at_end))

  pub parse_folder-row :
      (f : Folder) (p : Parser)
      → FolderIsPlain f
      → FolderFits codec f
      → p.state ≤ 2
      → length p.folders + 1 ≤ 5000
      → parse_record codec uuid r_folder (body_of codec (folder_items f)) p
        ≡ ok (record p { folders = p.folders ++ (restore_folder f ∷ []); state = 2 })
  unfolding parse_folder fields_folder restore_folder
  parse_folder-row f p plain fits early few =
      let (m, found, e) = parse_record-row r_folder (row codec (folder_items f)) p refl refl fits in
      let id = str_f-present codec m ff_id (some f.id) plain.id_plain (found ff_id) in
      let label =
        str_f-present codec m ff_label (some f.label) plain.label_plain (found ff_label) in
      let desc =
        str_f-present codec m ff_desc f.description plain.description_plain (found ff_desc) in
      e ∙ rw (id, label, desc, plain.id_valid) (ground arith)

  parse_type-type_name : (t : Option CredentialType) → parse_type (or_else (type_field t) []) ≡ t
  unfolding parse_type
  parse_type-type_name none = refl
  parse_type-type_name (some login) = refl
  parse_type-type_name (some passkey) = refl
  parse_type-type_name (some secure_note) = refl
  parse_type-type_name (some payment_card) = refl

  type_field-plain : (t : Option CredentialType) → is_plain (or_else (type_field t) []) ≡ true
  unfolding is_plain type_name
  type_field-plain none = refl
  type_field-plain (some login) = refl
  type_field-plain (some passkey) = refl
  type_field-plain (some secure_note) = refl
  type_field-plain (some payment_card) = refl

  or_empty-eq : (s : Option (List ℕ)) → or_else (or_empty s) [] ≡ or_else s []
  or_empty-eq none = refl
  or_empty-eq (some s) = refl

  valid_id-or_default :
      (s d : List ℕ) → is_valid_id s ≡ true → (or_default s d ≡ s) × (is_empty s ≡ false)
  unfolding is_valid_id
  valid_id-or_default [] d h = cc
  valid_id-or_default (c ∷ s) d h = (refl, refl)

  -- The entry that was written is the credential, as far as the format keeps it.
  entry_credential-row :
      (c : Credential) (m : FieldMap) (n : ℕ)
      → CredentialIsPlain c
      → ((u : ℕ) → get m u ≡ find (row codec (entry_items c)) u)
      → (str_f codec m fe_id ≡ c.id) × (entry_credential codec uuid m n ≡ restore_credential c)
  unfolding entry_credential restore_credential
  entry_credential-row c m n plain found =
      let read = str_f-present codec m in
      let id = read fe_id (some c.id) plain.id_plain (found fe_id) in
      let svc = read fe_svc (some c.service) plain.service_plain (found fe_svc) in
      let url = read fe_url (some c.url) plain.url_plain (found fe_url) in
      let user = read fe_user (some c.username) plain.username_plain (found fe_user) in
      let pass =
        read fe_pass (or_empty c.password) (rw (or_empty-eq c.password) plain.password_plain)
          (found fe_pass)
        ∙ or_empty-eq c.password in
      let notes = read fe_notes c.description plain.description_plain (found fe_notes) in
      let otp = read fe_otp c.otp_secret plain.otp_secret_plain (found fe_otp) in
      let folid = read fe_folid (some c.folder_id) plain.folder_id_plain (found fe_folid) in
      let status = read fe_status (some c.status) plain.status_plain (found fe_status) in
      let tags = read fe_tags (joined_tags c.tags) plain.tags_plain (found fe_tags) in
      let type =
        ap parse_type (
          read fe_type (type_field c.credential_type) (type_field-plain c.credential_type)
            (found fe_type))
        ∙ parse_type-type_name c.credential_type in
      (
        id,
        rw (id, svc, url, user, pass, notes, otp, folid, status, tags, type)
            (rw ((valid_id-or_default c.id (uuid n) plain.id_valid).0)),
      )

  pub parse_entry-row :
      (c : Credential) (p : Parser)
      → CredentialIsPlain c
      → EntryFits codec c
      → p.state ≤ 3
      → length p.credentials + 1 ≤ 50000
      → parse_record codec uuid r_entry (body_of codec (entry_items c)) p
        ≡ ok (record p { credentials = p.credentials ++ (restore_credential c ∷ []); state = 3 })
  unfolding parse_entry
  parse_entry-row c p plain fits early few =
      let (m, found, e) = parse_record-row r_entry (row codec (entry_items c)) p refl refl fits in
      let (id, entry) = entry_credential-row c m (length p.credentials) plain found in
      e
      ∙ rw (id, entry, plain.id_valid, (valid_id-or_default c.id [] plain.id_valid).1)
          (ground arith)

  pub parse_meta-row :
      (date : List ℕ) (n k : ℕ) (p : Parser)
      → All Fits (row codec (meta_items date n k))
      → n ≤ 50000
      → k ≤ 5000
      → p.state ≡ 0
      → parse_record codec uuid r_meta (body_of codec (meta_items date n k)) p
        ≡ ok (record p { meta_creds = some n; meta_folds = some k; state = 1 })
  unfolding parse_meta
  parse_meta-row date n k p fits n_le k_le at_start =
      let (m, found, e) =
        parse_record-row r_meta (row codec (meta_items date n k)) p refl refl fits in
      let creds = u32_f-be32 m fm_ncreds n (omega arith) (found fm_ncreds) in
      let folds = u32_f-be32 m fm_nfolds k (omega arith) (found fm_nfolds) in
      e ∙ rw (creds, folds, at_start) (ground arith)
