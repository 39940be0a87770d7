-- ===== src/P2w/Parse.antt =====
-- Parsing the payload: `parsePayload` of web/src/utils/p2wFormat.ts.
pub mod Errors
pub mod Steps
pub mod Accepted
use pwdnow_password_manager.Prelude.{
  ℕ, zero, suc, ◌+◌, List, [], ◌∷◌, ◌++◌, Bool, true, false, ◌&&◌, ◌||◌, not, Option, none, some,
  length, take, all, keep, map, ltb, leb, ◌==◌, if◌then◌else◌, ok, err, ◌>>=◌,
}
use pwdnow_password_manager.Text.{TextCodec, text, text_eq, includes, split, trim}
use pwdnow_password_manager.Types.{
  Folder, Credential, CredentialType, login, passkey, secure_note, payment_card,
}
use pwdnow_password_manager.P2w.Format.{
  Outcome, fail_msg, out_of_fuel, prf_magic, r_meta, r_folder, r_entry, r_padding, r_end, fm_ncreds,
  fm_nfolds, ff_id, ff_label, ff_desc, fe_id, fe_svc, fe_url, fe_user, fe_pass, fe_notes, fe_otp,
  fe_folid, fe_status, fe_tags, fe_type,
}
use pwdnow_password_manager.P2w.Reader
use pwdnow_password_manager.P2w.Reader.{BufReader}
use pwdnow_password_manager.P2w.Fields.{FieldMap, read_fields, str_f, u32_f}
use pwdnow_password_manager.P2w.Build.{type_name}

-- The local variables of `parsePayload`. `none` is the source's -1 for a count not yet read;
-- `state` is 0 START, 1 META, 2 FOLDERS, 3 ENTRIES, 4 PADDING, 5 END.
pub record Parser : Type 0 where
  pub credentials : List Credential
  pub folders : List Folder
  pub meta_creds : Option ℕ
  pub meta_folds : Option ℕ
  pub state : ℕ

abbrev pub start : Parser
start = record { credentials = []; folders = []; meta_creds = none; meta_folds = none; state = 0 }

-- /^[a-zA-Z0-9_-]{1,64}$/
unfoldable pub is_id_char : ℕ → Bool
is_id_char c =
    (leb b'a' c && leb c b'z')
    || (leb b'A' c && leb c b'Z')
    || (leb b'0' c && leb c b'9')
    || c == b'_'
    || c == b'-'

unfoldable pub is_valid_id : List ℕ → Bool
unfolding is_id_char
is_valid_id id = all is_id_char id && leb 1 (length id) && leb (length id) 64

-- `s || undefined`
abbrev pub or_undefined : List ℕ → Option (List ℕ)
or_undefined [] = none
or_undefined (c ∷ s) = some (c ∷ s)

-- `s || d`
abbrev pub or_default : List ℕ → List ℕ → List ℕ
or_default [] d = d
or_default (c ∷ s) d = c ∷ s

abbrev pub is_empty : List ℕ → Bool
is_empty [] = true
is_empty (c ∷ s) = false

-- `validTypes.includes(rawType) ? rawType : undefined`
unfoldable pub parse_type : List ℕ → Option CredentialType
unfolding type_name
parse_type raw =
    if text_eq raw (type_name login)
    then some login
    else if text_eq raw (type_name passkey)
    then some passkey
    else if text_eq raw (type_name secure_note)
    then some secure_note
    else if text_eq raw (type_name payment_card)
    then some payment_card
    else none

-- The tags of `tagStr`: split at the unit separator, or at commas in older files.
unfoldable pub split_tags : List ℕ → List (List ℕ)
split_tags [] = []
split_tags (c ∷ s) = if includes 0x1f (c ∷ s) then split 0x1f (c ∷ s) else split b',' (c ∷ s)

-- `tags.map(t => t.trim().slice(0, 64)).filter(Boolean)`
unfoldable pub clean_tags : List (List ℕ) → List (List ℕ)
clean_tags tags = keep (λ t. not (is_empty t)) (map (λ t. take 64 (trim t)) tags)

unfoldable pub parse_meta : FieldMap → Parser → Outcome Parser
parse_meta fields p =
    if p.state == 0
    then (let n = u32_f fields fm_ncreds in
        let m = u32_f fields fm_nfolds in
        if ltb 50000 n || ltb 5000 m
        then err fail_msg
        else ok (record p { meta_creds = some n; meta_folds = some m; state = 1 }))
    else err fail_msg

-- What a round of the loop does after its record: leave the loop, or go on.
pub data Round : Type 0 where
  leave : Parser → Round
  go_on : Parser → Round

-- `metaCreds !== credentials.length || metaFolds !== folders.length`, -1 matching no length
abbrev pub counts_match : Option ℕ → ℕ → Bool
counts_match none n = false
counts_match (some m) n = m == n

unfoldable pub finish : Parser → Outcome (List Credential × List Folder)
finish p =
    if ltb p.state 1
    then err fail_msg
    else if counts_match p.meta_creds (length p.credentials)
        && counts_match p.meta_folds (length p.folders)
    then ok (p.credentials, p.folders)
    else err fail_msg

-- `break` or the next round
abbrev pub next_round : (Parser → Outcome Parser) → Round → Outcome Parser
next_round loop (leave p) = ok p
next_round loop (go_on p) = loop p

-- `uuid n` is what `generateUUID()` returns when n credentials have been read.
module _ (codec : TextCodec) (uuid : ℕ → List ℕ) where
  -- The folder of a folder record's fields.
  unfoldable pub fields_folder : FieldMap → Folder
  fields_folder fields = record {
    id = str_f codec fields ff_id;
    label = take 256 (str_f codec fields ff_label);
    description = or_undefined (take 1024 (str_f codec fields ff_desc));
  }

  unfoldable pub parse_folder : FieldMap → Parser → Outcome Parser
  parse_folder fields p =
      if ltb 2 p.state
      then err fail_msg
      else if not (is_valid_id (str_f codec fields ff_id))
      then err fail_msg
      else if ltb 5000 (length p.folders + 1)
      then err fail_msg
      else ok (record p { folders = p.folders ++ (fields_folder fields ∷ []); state = 2 })

  -- The credential of an entry's fields; `n` credentials have been read before it.
  unfoldable pub entry_credential : FieldMap → ℕ → Credential
  entry_credential fields n = record {
    id = or_default (str_f codec fields fe_id) (uuid n);
    service = take 256 (str_f codec fields fe_svc);
    url = take 2048 (str_f codec fields fe_url);
    username = take 256 (str_f codec fields fe_user);
    password = some (take 4096 (str_f codec fields fe_pass));
    status = or_default (take 32 (str_f codec fields fe_status)) (text "active");
    status_color = text "#22c55e";
    logo = [];
    folder_id = take 64 (str_f codec fields fe_folid);
    tags = some (clean_tags (split_tags (str_f codec fields fe_tags)));
    otp_secret = or_undefined (take 256 (str_f codec fields fe_otp));
    description = or_undefined (take 10000 (str_f codec fields fe_notes));
    credential_type = parse_type (str_f codec fields fe_type);
  }

  unfoldable pub parse_entry : FieldMap → Parser → Outcome Parser
  parse_entry fields p =
      let id = str_f codec fields fe_id in
      if ltb 3 p.state
      then err fail_msg
      else if not (is_empty id) && not (is_valid_id id)
      then err fail_msg
      else if ltb 50000 (length p.credentials + 1)
      then err fail_msg
      else ok (record p {
        credentials = p.credentials ++ (entry_credential fields (length p.credentials) ∷ []);
        state = 3;
      })

  -- A record with fields: META, FOLDER or ENTRY; any other type is refused.
  unfoldable pub parse_record : ℕ → List ℕ → Parser → Outcome Parser
  parse_record rtype body p = do
    (fields, body_reader) ← read_fields (Reader.new body)
    if ltb 0 (Reader.remaining body_reader)
        then err fail_msg
        else if rtype == r_meta
        then parse_meta fields p
        else if rtype == r_folder
        then parse_folder fields p
        else if rtype == r_entry
        then parse_entry fields p
        else err fail_msg

  unfoldable pub handle_record : ℕ → List ℕ → ℕ → Parser → Outcome Round
  handle_record rtype body left p =
      if rtype == r_end
      then (if ltb p.state 1
          then err fail_msg
          else if ltb 0 left
          then err fail_msg
          else ok (leave (record p { state = 5 })))
      else if rtype == r_padding
      then (if ltb p.state 1 then err fail_msg else ok (go_on (record p { state = 4 })))
      else parse_record rtype body p >>= λ p'. ok (go_on p')

  -- `while (r.remaining() > 0)`
  unfoldable pub parse_loop : ℕ → BufReader → Parser → Outcome Parser
  parse_loop zero r p = err out_of_fuel
  parse_loop (suc fuel) r p =
      if Reader.remaining r == 0
      then ok p
      else if ltb (Reader.remaining r) 5
      then err fail_msg
      else do
        (rtype, r1) ← Reader.u8 r
        (rlen, r2) ← Reader.u32 r1
        if ltb (Reader.remaining r2) rlen then err fail_msg else do
          (body, r3) ← Reader.bytes rlen r2
          round ← handle_record rtype body (Reader.remaining r3) p
          next_round (parse_loop fuel r3) round

  -- Each round reads five bytes at least, so the bytes that remain bound the rounds.
  unfoldable pub parse_payload : List ℕ → Outcome (List Credential × List Folder)
  parse_payload bytes_of =
      let r = Reader.new bytes_of in
      if ltb (Reader.remaining r) 4 then err fail_msg else do
        (magic, r1) ← Reader.bytes 4 r
        if text_eq prf_magic magic
            then parse_loop (suc (Reader.remaining r1)) r1 start >>= finish
            else err fail_msg
