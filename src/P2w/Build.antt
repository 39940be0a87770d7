-- ===== src/P2w/Build.antt =====
-- Building the payload: the records of web/src/utils/p2wFormat.ts behind the magic word.
use pwdnow_password_manager.Prelude.{
  ℕ, ◌+◌, ◌-◌, List, [], ◌∷◌, Option, none, some, length, ltb, if◌then◌else◌, ok, err, ◌>>=◌,
}
use pwdnow_password_manager.Text.{TextCodec, text, join}
use pwdnow_password_manager.Types.{
  Folder, Credential, CredentialType, login, passkey, secure_note, payment_card,
}
use pwdnow_password_manager.P2w.Format.{
  Outcome, quota_exceeded, prf_magic, r_meta, r_folder, r_entry, r_padding, r_end, fm_app_name,
  fm_app_ver, fm_timestamp, fm_ncreds, fm_nfolds, ff_id, ff_label, ff_desc, fe_id, fe_svc, fe_url,
  fe_user, fe_pass, fe_notes, fe_otp, fe_folid, fe_status, fe_tags, fe_type,
}
use pwdnow_password_manager.P2w.Writer
use pwdnow_password_manager.P2w.Writer.{BufWriter}
use pwdnow_password_manager.P2w.Fields.{write_str_field, write_u32_field, end_fields}
use pwdnow_password_manager.P2w.Padding.{get_padding_target}

unfoldable pub write_record : BufWriter → ℕ → List ℕ → BufWriter
write_record w type body = Writer.write (Writer.u32 (Writer.u8 w type) (length body)) body

-- The string that stands for a credential type.
unfoldable pub type_name : CredentialType → List ℕ
type_name login = text "login"
type_name passkey = text "passkey"
type_name secure_note = text "secure_note"
type_name payment_card = text "payment_card"

-- `s ?? ''`
abbrev pub or_empty : Option (List ℕ) → Option (List ℕ)
or_empty none = some []
or_empty (some s) = some s

-- `c.credentialType` as a string
abbrev pub type_field : Option CredentialType → Option (List ℕ)
type_field none = none
type_field (some t) = some (type_name t)

-- `random n` is what crypto.getRandomValues puts into an array of n bytes, `none` if it throws.
unfoldable pub write_padding : (ℕ → Option (List ℕ)) → BufWriter → ℕ → Outcome BufWriter
write_padding random w padding_len =
    if ltb 5 padding_len
    then elim (random (padding_len - 5)) [
      | none ↦ err quota_exceeded
      | some body ↦ ok (write_record w r_padding body)
    ]
    else ok w

module _ (codec : TextCodec) where
  -- `export_date` is the text of `exportDate.toISOString()`.
  unfoldable pub encode_meta : List ℕ → ℕ → ℕ → Outcome (List ℕ)
  encode_meta export_date n_creds n_folds = do
    w1 ← write_str_field codec Writer.new fm_app_name (some (text "PWDnow"))
    w2 ← write_str_field codec w1 fm_app_ver (some (text "1"))
    w3 ← write_str_field codec w2 fm_timestamp (some export_date)
    let w4 = write_u32_field w3 fm_ncreds n_creds
    let w5 = write_u32_field w4 fm_nfolds n_folds
    ok (Writer.to_uint8_array (end_fields w5))

  unfoldable pub encode_folder : Folder → Outcome (List ℕ)
  encode_folder f = do
    w1 ← write_str_field codec Writer.new ff_id (some f.id)
    w2 ← write_str_field codec w1 ff_label (some f.label)
    w3 ← write_str_field codec w2 ff_desc f.description
    ok (Writer.to_uint8_array (end_fields w3))

  -- `if (c.tags?.length) writeStrField(w, FE_TAGS, c.tags.join('\x1f'))`
  unfoldable pub write_tags : BufWriter → Option (List (List ℕ)) → Outcome BufWriter
  write_tags w none = ok w
  write_tags w (some []) = ok w
  write_tags w (some (t ∷ ts)) = write_str_field codec w fe_tags (some (join 0x1f (t ∷ ts)))

  unfoldable pub encode_entry : Credential → Outcome (List ℕ)
  unfolding write_tags
  encode_entry c = do
    w1 ← write_str_field codec Writer.new fe_id (some c.id)
    w2 ← write_str_field codec w1 fe_svc (some c.service)
    w3 ← write_str_field codec w2 fe_url (some c.url)
    w4 ← write_str_field codec w3 fe_user (some c.username)
    w5 ← write_str_field codec w4 fe_pass (or_empty c.password)
    w6 ← write_str_field codec w5 fe_notes c.description
    w7 ← write_str_field codec w6 fe_otp c.otp_secret
    w8 ← write_str_field codec w7 fe_folid (some c.folder_id)
    w9 ← write_str_field codec w8 fe_status (some c.status)
    w10 ← write_tags w9 c.tags
    w11 ← write_str_field codec w10 fe_type (type_field c.credential_type)
    ok (Writer.to_uint8_array (end_fields w11))

  -- The loops `for (const f of folders)` and `for (const c of credentials)`.
  unfoldable pub write_folders : BufWriter → List Folder → Outcome BufWriter
  write_folders w [] = ok w
  write_folders w (f ∷ fs) =
      encode_folder f >>= λ body. write_folders (write_record w r_folder body) fs

  unfoldable pub write_entries : BufWriter → List Credential → Outcome BufWriter
  write_entries w [] = ok w
  write_entries w (c ∷ cs) =
      encode_entry c >>= λ body. write_entries (write_record w r_entry body) cs

  unfoldable pub build_payload :
      (ℕ → Option (List ℕ)) → List Credential → List Folder → List ℕ → Outcome (List ℕ)
  unfolding write_padding
  build_payload random credentials folders export_date = do
    let w0 = Writer.write Writer.new prf_magic
    meta ← encode_meta export_date (length credentials) (length folders)
    w1 ← write_folders (write_record w0 r_meta meta) folders
    w2 ← write_entries w1 credentials
    let current_len = w2.len + 5
    let padding_len = get_padding_target current_len - current_len
    w3 ← write_padding random w2 padding_len
    ok (Writer.to_uint8_array (Writer.u32 (Writer.u8 w3 r_end) 0))
