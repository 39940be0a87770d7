-- ===== src/P2w/RoundTrip/Items.antt =====
-- The rows of fields that the encoders write, and what the format keeps of a folder and of a
-- credential.
use pwdnow_password_manager.Prelude.{
  ℕ, ◌≡◌, refl, List, [], ◌∷◌, true, Option, none, some, ok, take, or_else, All,
}
use pwdnow_password_manager.Text.{TextCodec, text, join, is_plain}
use pwdnow_password_manager.Types.{Folder, Credential}
use pwdnow_password_manager.P2w.Format.{
  fm_app_name, fm_app_ver, fm_timestamp, fm_ncreds, fm_nfolds, ff_id, ff_label, ff_desc, fe_id,
  fe_svc, fe_url, fe_user, fe_pass, fe_notes, fe_otp, fe_folid, fe_status, fe_tags, fe_type,
}
use pwdnow_password_manager.P2w.Writer
use pwdnow_password_manager.P2w.Writer.Contents.{new-Holds}
use pwdnow_password_manager.P2w.Fields.{write_str_field}
use pwdnow_password_manager.P2w.Fields.Written.{
  Item, str, num, row, row_bytes, Fits, encode_items-row,
}
use pwdnow_password_manager.P2w.Build.{
  encode_meta, encode_folder, encode_entry, write_tags, or_empty, type_field,
}
use pwdnow_password_manager.P2w.Parse.{
  is_valid_id, or_undefined, or_default, split_tags, clean_tags,
}

abbrev pub meta_items : List ℕ → ℕ → ℕ → List Item
meta_items date n m =
    str fm_app_name (some (text "PWDnow"))
    ∷ str fm_app_ver (some (text "1"))
    ∷ str fm_timestamp (some date)
    ∷ num fm_ncreds n
    ∷ num fm_nfolds m
    ∷ []

abbrev pub folder_items : Folder → List Item
folder_items f =
    str ff_id (some f.id) ∷ str ff_label (some f.label) ∷ str ff_desc f.description ∷ []

-- The text of the tags field, if it is written.
abbrev pub joined_tags : Option (List (List ℕ)) → Option (List ℕ)
joined_tags none = none
joined_tags (some []) = none
joined_tags (some (t ∷ ts)) = some (join 0x1f (t ∷ ts))

abbrev pub entry_items : Credential → List Item
entry_items c =
    str fe_id (some c.id)
    ∷ str fe_svc (some c.service)
    ∷ str fe_url (some c.url)
    ∷ str fe_user (some c.username)
    ∷ str fe_pass (or_empty c.password)
    ∷ str fe_notes c.description
    ∷ str fe_otp c.otp_secret
    ∷ str fe_folid (some c.folder_id)
    ∷ str fe_status (some c.status)
    ∷ str fe_tags (joined_tags c.tags)
    ∷ str fe_type (type_field c.credential_type)
    ∷ []

-- The body of a record: the bytes of its row.
abbrev pub body_of : TextCodec → List Item → List ℕ
body_of codec is = row_bytes (row codec is)

module _ (codec : TextCodec) where
  pub encode_meta-row :
      (date : List ℕ) (n m : ℕ) {out : List ℕ}
      → encode_meta codec date n m ≡ ok out
      → (out ≡ body_of codec (meta_items date n m)) × All Fits (row codec (meta_items date n m))
  unfolding encode_meta
  encode_meta-row date n m e = encode_items-row codec Writer.new (meta_items date n m) new-Holds e

  pub encode_folder-row :
      (f : Folder) {out : List ℕ}
      → encode_folder codec f ≡ ok out
      → (out ≡ body_of codec (folder_items f)) × All Fits (row codec (folder_items f))
  unfolding encode_folder
  encode_folder-row f e = encode_items-row codec Writer.new (folder_items f) new-Holds e

  write_tags-joined :
      (w : Writer.BufWriter) (ts : Option (List (List ℕ)))
      → write_tags codec w ts ≡ write_str_field codec w fe_tags (joined_tags ts)
  unfolding write_tags write_str_field
  write_tags-joined w none = refl
  write_tags-joined w (some []) = refl
  write_tags-joined w (some (t ∷ ts)) = refl

  pub encode_entry-row :
      (c : Credential) {out : List ℕ}
      → encode_entry codec c ≡ ok out
      → (out ≡ body_of codec (entry_items c)) × All Fits (row codec (entry_items c))
  unfolding encode_entry
  encode_entry-row c e =
      encode_items-row codec Writer.new (entry_items c) new-Holds (simp write_tags-joined at e)

-- What the format keeps of a folder.
unfoldable pub restore_folder : Folder → Folder
restore_folder f = record {
  id = f.id;
  label = take 256 f.label;
  description = or_undefined (take 1024 (or_else f.description []));
}

-- What the format keeps of a credential: its texts up to their limits. The status colour is reset
-- and the logo dropped, an absent password comes back empty and an empty status as "active".
unfoldable pub restore_credential : Credential → Credential
restore_credential c = record {
  id = c.id;
  service = take 256 c.service;
  url = take 2048 c.url;
  username = take 256 c.username;
  password = some (take 4096 (or_else c.password []));
  status = or_default (take 32 c.status) (text "active");
  status_color = text "#22c55e";
  logo = [];
  folder_id = take 64 c.folder_id;
  tags = some (clean_tags (split_tags (or_else (joined_tags c.tags) [])));
  otp_secret = or_undefined (take 256 (or_else c.otp_secret []));
  description = or_undefined (take 10000 (or_else c.description []));
  credential_type = c.credential_type;
}

-- A folder that the importer takes: its id matches the pattern, and its texts can be encoded.
pub record FolderIsPlain (f : Folder) : Type 0 where
  pub id_valid : is_valid_id f.id ≡ true
  pub id_plain : is_plain f.id ≡ true
  pub label_plain : is_plain f.label ≡ true
  pub description_plain : is_plain (or_else f.description []) ≡ true

pub record CredentialIsPlain (c : Credential) : Type 0 where
  pub id_valid : is_valid_id c.id ≡ true
  pub id_plain : is_plain c.id ≡ true
  pub service_plain : is_plain c.service ≡ true
  pub url_plain : is_plain c.url ≡ true
  pub username_plain : is_plain c.username ≡ true
  pub password_plain : is_plain (or_else c.password []) ≡ true
  pub status_plain : is_plain c.status ≡ true
  pub folder_id_plain : is_plain c.folder_id ≡ true
  pub tags_plain : is_plain (or_else (joined_tags c.tags) []) ≡ true
  pub otp_secret_plain : is_plain (or_else c.otp_secret []) ≡ true
  pub description_plain : is_plain (or_else c.description []) ≡ true
