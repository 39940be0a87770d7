-- ===== src/P2w/Examples.antt =====
-- The theorems on web/src/utils/p2wFormat.ts at concrete inputs.
use pwdnow_password_manager.Prelude.{
  ℕ, zero, suc, ◌+◌, ◌-◌, ◌^◌, ◌<◌, ◌≤◌, ◌≡◌, refl, ap, sym, ◌∙◌, inl, inr, List, [], ◌∷◌, ◌++◌,
  Option, none, some, length, length-append, length-replicate, replicate, take, take-append, map,
  All, true, ◌↔◌, Bool, ◌&&◌, or_else, if◌then◌else◌, ltb, Result, ok, err, arith,
}
use pwdnow_password_manager.Text.{TextCodec, text, is_plain, join}
use pwdnow_password_manager.Types.{Folder, Credential, login}
use pwdnow_password_manager.P2w.Format.{prf_magic, r_meta, r_end, Failure, fail_msg}
use pwdnow_password_manager.P2w.Writer
use pwdnow_password_manager.P2w.Reader
use pwdnow_password_manager.P2w.Reader.{BufReader}
use pwdnow_password_manager.P2w.Fields.{read_fields}
use pwdnow_password_manager.P2w.Fields.Written.{Row}
use pwdnow_password_manager.P2w.Fields.Errors.{ReadsOrExceeds, read_fields-ReadsOrExceeds}
use pwdnow_password_manager.P2w.Parse.Errors.{IsExpected, parse_payload-IsExpected}
use pwdnow_password_manager.P2w.Parse.Accepted.{
  CredentialIsClean, FolderIsClean, parse_payload-IsClean,
}
use pwdnow_password_manager.P2w.File.Comparison.{timing_safe_eq_iff}
use pwdnow_password_manager.P2w.File.Ciphers.{length-double_encrypt}
use pwdnow_password_manager.P2w.File.Layout.{NoncesAreSized, sealed-length}
use pwdnow_password_manager.P2w.File.Export.{
  sealed-opened, import_from_p2w-export_to_p2w, import_from_p2w-over_budget,
}
use pwdnow_password_manager.P2w.Fields.{write_str_field, write_u32_field, end_fields, u32_f, get}
use pwdnow_password_manager.P2w.Build.{
  type_name, write_record, encode_meta, encode_folder, write_tags, encode_entry, write_folders,
  write_entries, write_padding, build_payload,
}
use pwdnow_password_manager.P2w.Padding.{get_padding_target}
use pwdnow_password_manager.P2w.Padding.Buckets.{IsBucket, get_padding_target-IsBucket}
use pwdnow_password_manager.P2w.Parse.{
  parse_payload, parse_loop, handle_record, parse_record, parse_meta, finish, is_valid_id,
}
use pwdnow_password_manager.P2w.RoundTrip.{parse_payload-build_payload}
use pwdnow_password_manager.P2w.RoundTrip.Built.{
  vault_bytes, length-build_payload, build_payload_quota,
}
use pwdnow_password_manager.P2w.RoundTrip.Items.{
  restore_folder, restore_credential, FolderIsPlain, CredentialIsPlain,
}
use pwdnow_password_manager.P2w.File.{
  Crypto, DerivedKeys, Nonces, KdfParams, default_params, timing_safe_eq, seal_payload,
  build_header, double_encrypt, export_to_p2w, import_from_p2w,
}

-- A codec that writes a code unit as it is.
abbrev plain_codec : TextCodec
plain_codec = record { encode = λ s. s; decode = λ s. s; decode-encode = λ s h. refl }

-- Keys that are the salt, a MAC that counts the bytes, and ciphers that append a tag.
abbrev toy_keys : List ℕ → DerivedKeys
toy_keys salt = record { k_xcha = salt; k_aes = salt; k_mac = salt }

replicate_bytes : (n b : ℕ) → b < 256 → All (λ x. x < 256) (replicate n b)
replicate_bytes zero b h = tt
replicate_bytes (suc n) b h = (h, replicate_bytes n b h)

abbrev tag : List ℕ
tag = replicate 16 0

without_tag : (plain : List ℕ) → take (length (plain ++ tag) - 16) (plain ++ tag) ≡ plain
without_tag plain =
    let e : length (plain ++ tag) - 16 ≡ length plain = omega (arith, length-append plain tag) in
    ap (λ n. take n (plain ++ tag)) e ∙ take-append plain tag

abbrev toy_crypto : Crypto
toy_crypto = record {
  derive_keys_v1 = λ passphrase salt iters. toy_keys salt;
  derive_keys_v2 = λ passphrase salt m t p. toy_keys salt;
  mac_v1 = λ key bytes. replicate 64 1;
  mac_v2 = λ key bytes. replicate 64 2;
  aes_encrypt = λ key nonce aad plain. plain ++ tag;
  aes_decrypt = λ key nonce aad ct. some (take (length ct - 16) ct);
  aes_decrypt-aes_encrypt = λ key nonce aad plain. ap some (without_tag plain);
  aes_encrypt_length = λ key nonce aad plain. length-append plain tag;
  xchacha_encrypt = λ key nonce aad plain. plain ++ tag;
  xchacha_decrypt = λ key nonce aad ct. some (take (length ct - 16) ct);
  xchacha_decrypt-xchacha_encrypt = λ key nonce aad plain. ap some (without_tag plain);
  xchacha_encrypt_length = λ key nonce aad plain. length-append plain tag;
  mac_v1_bytes = λ key bytes. replicate_bytes 64 1 (omega arith);
  mac_v2_bytes = λ key bytes. replicate_bytes 64 2 (omega arith);
  mac_v2_length = λ key bytes. length-replicate {A = ℕ} 64 2;
}

abbrev uuid : ℕ → List ℕ
uuid n = text "generated"

-- getRandomValues, with and without its quota
abbrev random : ℕ → Option (List ℕ)
random n = some (replicate n 0)

abbrev work : Folder
work = record { id = text "f-1"; label = text "Work"; description = none }

abbrev mail : Credential
mail = record {
  id = text "c_1";
  service = text "Mail";
  url = text "https://mail.example";
  username = text "ann";
  password = some (text "s3cret");
  status = text "active";
  status_color = text "#000000";
  logo = text "x";
  folder_id = text "f-1";
  tags = some (text "home" ∷ text "main" ∷ []);
  otp_secret = none;
  description = some (text "note");
  credential_type = some login;
}

abbrev date : List ℕ
date = text "2025-01-01T00:00:00.000Z"

abbrev returned_or : {A : Type 0} → A → Result Failure A → A
returned_or d (ok a) = a
returned_or d (err e) = d

abbrev payload : List ℕ
payload = returned_or [] (build_payload plain_codec random (mail ∷ []) (work ∷ []) date)

payload_built : build_payload plain_codec random (mail ∷ []) (work ∷ []) date ≡ ok payload
unfolding Writer.append Writer.u8 Writer.u16 Writer.u32 Writer.write write_str_field write_u32_field
    end_fields write_record encode_meta encode_folder write_tags encode_entry write_folders
    write_entries write_padding build_payload join type_name get_padding_target
    Writer.to_uint8_array
payload_built = refl

CredentialIsPlain-mail : CredentialIsPlain mail
unfolding is_valid_id is_plain join
CredentialIsPlain-mail = record {
  id_valid = refl;
  id_plain = refl;
  service_plain = refl;
  url_plain = refl;
  username_plain = refl;
  password_plain = refl;
  status_plain = refl;
  folder_id_plain = refl;
  tags_plain = refl;
  otp_secret_plain = refl;
  description_plain = refl;
}

FolderIsPlain-work : FolderIsPlain work
unfolding is_valid_id is_plain
FolderIsPlain-work = record {
  id_valid = refl;
  id_plain = refl;
  label_plain = refl;
  description_plain = refl;
}

filled : (n : ℕ) (pad : List ℕ) → random n ≡ some pad → length pad ≡ n
filled n pad e = let eq : replicate n 0 ≡ pad = cc in ap length (sym eq) ∙ length-replicate n 0

payload-length : length payload ≡ 65536
unfolding get_padding_target join type_name
payload-length =
    (length-build_payload plain_codec random (mail ∷ []) (work ∷ []) date {out = payload} filled
      payload_built).0

payload_small : length payload < 2 ^ 32
payload_small = omega (arith, payload-length)

mail_IsPlain : All CredentialIsPlain (mail ∷ [])
mail_IsPlain = (CredentialIsPlain-mail, tt)

work_IsPlain : All FolderIsPlain (work ∷ [])
work_IsPlain = (FolderIsPlain-work, tt)

payload_parses :
    parse_payload plain_codec uuid payload
    ≡ ok (map restore_credential (mail ∷ []), map restore_folder (work ∷ []))
payload_parses =
    parse_payload-build_payload plain_codec uuid random (mail ∷ []) (work ∷ []) date mail_IsPlain
      work_IsPlain (omega arith) (omega arith) payload_built payload_small

parse_payload-build_payload_example :
    parse_payload plain_codec uuid payload
    ≡ ok (map restore_credential (mail ∷ []), map restore_folder (work ∷ []))
parse_payload-build_payload_example =
    parse_payload-build_payload plain_codec uuid random (mail ∷ []) (work ∷ []) date mail_IsPlain
      work_IsPlain (omega arith) (omega arith) payload_built payload_small

length-build_payload_example :
    (length payload
      ≡ get_padding_target (length (vault_bytes plain_codec (mail ∷ []) (work ∷ []) date) + 5))
    × IsBucket (length payload)
length-build_payload_example =
    length-build_payload plain_codec random (mail ∷ []) (work ∷ []) date filled payload_built

-- getRandomValues with its quota, and a credential with long notes.
abbrev limited : ℕ → Option (List ℕ)
limited n = if ltb 65536 n then none else some (replicate n 0)

limited_quota : (n : ℕ) → 65536 < n → limited n ≡ none
limited_quota n h = ground arith

abbrev long_notes : List Credential
long_notes = record mail { description = some (replicate 65500 97) } ∷ []

build_payload_quota_example :
    ¬ ((out : List ℕ) × (build_payload plain_codec limited long_notes [] date ≡ ok out))
unfolding join type_name
build_payload_quota_example =
    build_payload_quota plain_codec limited long_notes [] date limited_quota (omega arith)
      (omega arith)

parse_payload-IsClean_example :
    All (CredentialIsClean uuid) (map restore_credential (mail ∷ []))
    × All FolderIsClean (map restore_folder (work ∷ []))
    × (1 ≤ 50000)
    × (1 ≤ 5000)
parse_payload-IsClean_example =
    parse_payload-IsClean plain_codec uuid payload (map restore_credential (mail ∷ []))
      (map restore_folder (work ∷ [])) payload_parses

parse_payload-IsExpected_example :
    IsExpected (parse_payload plain_codec uuid (0xb7 ∷ 0xa2 ∷ 0x4f ∷ 0x03 ∷ 1 ∷ 0 ∷ 0 ∷ 0 ∷ 9 ∷ []))
parse_payload-IsExpected_example =
    parse_payload-IsExpected plain_codec uuid (0xb7 ∷ 0xa2 ∷ 0x4f ∷ 0x03 ∷ 1 ∷ 0 ∷ 0 ∷ 0 ∷ 9 ∷ [])

-- Exporting with the least parameters, and with the default ones.
abbrev nonces : Nonces
nonces = record { salt = replicate 32 5; xcha_nonce = replicate 24 6; aes_nonce = replicate 12 7 }

abbrev least : KdfParams
least = record { log2_m = 12; t = 1; p = 1 }

abbrev passphrase : List ℕ
passphrase = text "correct horse"

NoncesAreSized-nonces : NoncesAreSized nonces
NoncesAreSized-nonces = record { salt_length = refl; xcha_length = refl; aes_length = refl }

abbrev exported : Option KdfParams → List ℕ
exported options =
    seal_payload toy_crypto passphrase nonces (or_else options default_params) payload

exported_eq :
    export_to_p2w plain_codec toy_crypto random nonces date
      (mail ∷ [])
      (work ∷ [])
      passphrase
      (some least)
    ≡ ok (exported (some least))
unfolding export_to_p2w
exported_eq = rw payload_built refl

exported_default :
    export_to_p2w plain_codec toy_crypto random nonces date (mail ∷ []) (work ∷ []) passphrase none
    ≡ ok (exported none)
unfolding export_to_p2w
exported_default = rw payload_built refl

exported_small : length (exported (some least)) < 2 ^ 32
exported_small = omega (
  arith,
  payload-length,
  length-double_encrypt toy_crypto payload (toy_keys (replicate 32 5)) (replicate 12 7)
      (replicate 24 6) (some (build_header nonces least)),
  sealed-length toy_crypto passphrase payload nonces least NoncesAreSized-nonces,
)

exported_imports :
    import_from_p2w plain_codec toy_crypto uuid (exported (some least)) passphrase
    ≡ ok (map restore_credential (mail ∷ []), map restore_folder (work ∷ []))
exported_imports =
    import_from_p2w-export_to_p2w plain_codec toy_crypto uuid random nonces date (mail ∷ [])
      (work ∷ []) passphrase least NoncesAreSized-nonces (omega arith) (omega arith) mail_IsPlain
      work_IsPlain (omega arith) (omega arith) exported_eq exported_small

import_from_p2w-export_to_p2w_example :
    import_from_p2w plain_codec toy_crypto uuid (exported (some least)) passphrase
    ≡ ok (map restore_credential (mail ∷ []), map restore_folder (work ∷ []))
import_from_p2w-export_to_p2w_example =
    import_from_p2w-export_to_p2w plain_codec toy_crypto uuid random nonces date (mail ∷ [])
      (work ∷ []) passphrase least NoncesAreSized-nonces (omega arith) (omega arith) mail_IsPlain
      work_IsPlain (omega arith) (omega arith) exported_eq exported_small

import_from_p2w-over_budget_example :
    import_from_p2w plain_codec toy_crypto uuid (exported none) passphrase ≡ err fail_msg
import_from_p2w-over_budget_example =
    import_from_p2w-over_budget plain_codec toy_crypto uuid random nonces date (mail ∷ [])
      (work ∷ []) passphrase none NoncesAreSized-nonces (inl (omega arith)) exported_default
      passphrase

-- The file of an empty vault without padding.
abbrev small_payload : List ℕ
small_payload = prf_magic ++ r_meta ∷ 0 ∷ 0 ∷ 0 ∷ 0 ∷ r_end ∷ 0 ∷ 0 ∷ 0 ∷ 0 ∷ []

abbrev small_file : List ℕ
small_file = seal_payload toy_crypto passphrase nonces least small_payload

small_payload_parses : parse_payload plain_codec uuid small_payload ≡ ok ([], [])
unfolding parse_payload parse_loop handle_record parse_record parse_meta finish read_fields
    Reader.remaining Reader.bytes Reader.u8 Reader.u32 u32_f get
small_payload_parses = refl

unfoldable are_bytes : List ℕ → Bool
are_bytes [] = true
are_bytes (b ∷ bs) = ltb b 256 && are_bytes bs

small_file_imports : import_from_p2w plain_codec toy_crypto uuid small_file passphrase ≡ ok ([], [])
unfolding double_encrypt
small_file_imports =
    sealed-opened plain_codec toy_crypto uuid passphrase small_payload nonces least
      NoncesAreSized-nonces
      ((omega arith, omega arith), (omega arith, omega arith), (omega arith, omega arith))
      (omega arith) (omega arith) (omega arith)
    ∙ small_payload_parses

timing_safe_eq_iff_example :
    (timing_safe_eq (text "ab") (text "ac") ≡ true) ↔ (text "ab" ≡ text "ac")
timing_safe_eq_iff_example =
    timing_safe_eq_iff (text "ab") (text "ac") (omega arith, (omega arith, tt))
      (omega arith, (omega arith, tt))

get_padding_target-IsBucket_example :
    IsBucket (get_padding_target 65409)
    × (65409 + 128 ≤ get_padding_target 65409)
    × (get_padding_target 65409 ≤ 262144)
get_padding_target-IsBucket_example =
    get_padding_target-IsBucket 65409 262144 (inr (inl refl)) (omega arith)

read_fields-ReadsOrExceeds_example : ReadsOrExceeds (read_fields (Reader.new (1 ∷ 0 ∷ 9 ∷ 7 ∷ [])))
read_fields-ReadsOrExceeds_example = read_fields-ReadsOrExceeds (Reader.new (1 ∷ 0 ∷ 9 ∷ 7 ∷ []))

abbrev fields : Row
fields = (1, some (5 ∷ 6 ∷ [])) ∷ (2, none) ∷ (3, some (7 ∷ [])) ∷ []
