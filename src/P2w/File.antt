-- ===== src/P2w/File.antt =====
-- The encrypted file: `exportToP2W`, `importFromP2W` and the readers of the plaintext header of
-- web/src/utils/p2wFormat.ts. Key derivation, the ciphers and the MACs are the parameter `Crypto`.
pub mod Comparison
pub mod Ciphers
pub mod Conditions
pub mod Layout
pub mod Import
pub mod Export
use Prim.Native.Nat.{bit_or, bit_xor}
use pwdnow_password_manager.Prelude.{
  ℕ, zero, suc, ◌+◌, ◌-◌, ◌*◌, ◌/◌, ◌%◌, List, [], ◌∷◌, ◌++◌, Bool, true, false, ◌&&◌, ◌||◌, not,
  Option, none, some, length, get_or, slice, replicate, ltb, ◌==◌, if◌then◌else◌, ok, err, ◌>>=◌,
  or_else, All, ◌≡◌, ◌<◌,
}
use pwdnow_password_manager.Text.{TextCodec, text_eq}
use pwdnow_password_manager.Types.{Folder, Credential}
use pwdnow_password_manager.P2w.Format.{
  Outcome, fail_msg, not_p2w, truncated, invalid_params, nz_stub, nz_stub_size, p2w_magic,
  format_version, cipher_suite_v1, cipher_suite_v2, pbkdf2_min_iters, pbkdf2_max_iters,
  argon2_min_log2_m, argon2_max_log2_m, argon2_min_t, argon2_max_t, argon2_min_p, argon2_max_p,
  argon2_default_log2_m, argon2_default_t, argon2_default_p, hdr_version, hdr_suite, hdr_flags,
  hdr_created, hdr_salt, hdr_kdf_parm, hdr_xnonce, hdr_anonce, hdr_size, header_mac_size,
  file_mac_size, payload_len_size, fixed_overhead,
}
use pwdnow_password_manager.P2w.Build.{build_payload}
use pwdnow_password_manager.P2w.Parse.{parse_payload}

-- The keys of a file (`DerivedKeys`).
pub record DerivedKeys : Type 0 where
  pub k_xcha : List ℕ
  pub k_aes : List ℕ
  pub k_mac : List ℕ

-- What the third-party and browser cryptography supplies. The ciphers AES-GCM and
-- XChaCha20-Poly1305 take a key, a nonce and the associated data, which the legacy suite does not
-- have; `none` of a decryption is an authentication failure. Each adds a tag of 16 bytes. A MAC is
-- 64 bytes.
pub record Crypto : Type 0 where
  pub derive_keys_v1 : List ℕ → List ℕ → ℕ → DerivedKeys
  pub derive_keys_v2 : List ℕ → List ℕ → ℕ → ℕ → ℕ → DerivedKeys
  pub mac_v1 : List ℕ → List ℕ → List ℕ
  pub mac_v2 : List ℕ → List ℕ → List ℕ
  pub aes_encrypt : List ℕ → List ℕ → Option (List ℕ) → List ℕ → List ℕ
  pub aes_decrypt : List ℕ → List ℕ → Option (List ℕ) → List ℕ → Option (List ℕ)
  pub aes_decrypt-aes_encrypt :
      (key nonce : List ℕ) (aad : Option (List ℕ)) (plain : List ℕ)
      → aes_decrypt key nonce aad (aes_encrypt key nonce aad plain) ≡ some plain
  pub aes_encrypt_length :
      (key nonce : List ℕ) (aad : Option (List ℕ)) (plain : List ℕ)
      → length (aes_encrypt key nonce aad plain) ≡ length plain + 16
  pub xchacha_encrypt : List ℕ → List ℕ → Option (List ℕ) → List ℕ → List ℕ
  pub xchacha_decrypt : List ℕ → List ℕ → Option (List ℕ) → List ℕ → Option (List ℕ)
  pub xchacha_decrypt-xchacha_encrypt :
      (key nonce : List ℕ) (aad : Option (List ℕ)) (plain : List ℕ)
      → xchacha_decrypt key nonce aad (xchacha_encrypt key nonce aad plain) ≡ some plain
  pub xchacha_encrypt_length :
      (key nonce : List ℕ) (aad : Option (List ℕ)) (plain : List ℕ)
      → length (xchacha_encrypt key nonce aad plain) ≡ length plain + 16
  pub mac_v1_bytes : (key bytes : List ℕ) → All (λ b. b < 256) (mac_v1 key bytes)
  pub mac_v2_bytes : (key bytes : List ℕ) → All (λ b. b < 256) (mac_v2 key bytes)
  pub mac_v2_length : (key bytes : List ℕ) → length (mac_v2 key bytes) ≡ 64

-- `diff |= a[i] ^ b[i]`, from the front
unfoldable pub diff_loop : ℕ → List ℕ → List ℕ → ℕ
diff_loop diff (a ∷ as') (b ∷ bs) = diff_loop (bit_or diff (bit_xor a b)) as' bs
diff_loop diff _ _ = diff

unfoldable pub timing_safe_eq : List ℕ → List ℕ → Bool
unfolding diff_loop
timing_safe_eq a b = if length a == length b then diff_loop 0 a b == 0 else false

-- `data[i]`, which the callers check to be in range
abbrev pub at : List ℕ → ℕ → ℕ
at file i = get_or file i 0

-- `dv.getUint16(i, false)` and `dv.getUint32(i, false)`
abbrev pub get_uint16 : List ℕ → ℕ → ℕ
get_uint16 file i = at file i * 256 + at file (i + 1)

abbrev pub get_uint32 : List ℕ → ℕ → ℕ
get_uint32 file i =
    at file i * 0x1000000 + at file (i + 1) * 0x10000 + at file (i + 2) * 256 + at file (i + 3)

unfoldable pub is_p2w_file : List ℕ → Bool
is_p2w_file file =
    not (ltb (length file) (nz_stub_size + hdr_size))
    && text_eq (slice 0 2 file) nz_stub
    && text_eq (slice nz_stub_size (nz_stub_size + 4) file) p2w_magic

-- Milliseconds since the epoch.
unfoldable pub read_p2w_timestamp : List ℕ → Option ℕ
unfolding is_p2w_file
read_p2w_timestamp file =
    if is_p2w_file file && at file (nz_stub_size + hdr_suite) == cipher_suite_v1
    then some (
        get_uint32 file (nz_stub_size + hdr_created) * 0x100000000
        + get_uint32 file (nz_stub_size + hdr_created + 4))
    else none

unfoldable pub read_p2w_cipher_suite : List ℕ → Option ℕ
unfolding is_p2w_file
read_p2w_cipher_suite file =
    if is_p2w_file file then some (at file (nz_stub_size + hdr_suite)) else none

-- `options?.kdfParams`
pub record KdfParams : Type 0 where
  pub log2_m : ℕ
  pub t : ℕ
  pub p : ℕ

abbrev pub default_params : KdfParams
default_params = record {
  log2_m = argon2_default_log2_m;
  t = argon2_default_t;
  p = argon2_default_p;
}

-- What crypto.getRandomValues supplies to one export.
pub record Nonces : Type 0 where
  pub salt : List ℕ
  pub xcha_nonce : List ℕ
  pub aes_nonce : List ℕ

abbrev pub out_of_range : ℕ → ℕ → ℕ → Bool
out_of_range lo hi v = ltb v lo || ltb hi v

-- The 96-byte header: the fields in the order of their offsets.
unfoldable pub build_header : Nonces → KdfParams → List ℕ
build_header n k =
    p2w_magic
    ++ (format_version
        ∷ cipher_suite_v2
        ∷ 0
        ∷ 0
        ∷ (replicate 16 0
            ++ (n.salt
                ++ (k.log2_m % 256 ∷ k.t % 256 ∷ k.p % 256 ∷ 0 ∷ (n.xcha_nonce ++ n.aes_nonce)))))

-- `setUint32(0, n, false)`
abbrev pub uint32_bytes : ℕ → List ℕ
uint32_bytes n = n / 0x1000000 % 256 ∷ n / 0x10000 % 256 ∷ n / 256 % 256 ∷ n % 256 ∷ []

abbrev pub cipher_start : ℕ
cipher_start = nz_stub_size + hdr_size + header_mac_size + payload_len_size

abbrev pub payload_len : List ℕ → ℕ
payload_len file = get_uint32 file (nz_stub_size + hdr_size + header_mac_size)

-- The bytes of the encrypted payload.
abbrev pub ciphertext_of : List ℕ → List ℕ
ciphertext_of file = slice cipher_start (cipher_start + payload_len file) file

-- The payload length field agrees with the file's length.
abbrev pub has_right_length : List ℕ → Bool
has_right_length file = cipher_start + payload_len file + file_mac_size == length file

-- The reserved fields of the header are zero.
abbrev pub reserved_zero : List ℕ → Bool
reserved_zero file =
    get_uint16 file (nz_stub_size + hdr_flags) == 0
    && get_uint32 file (nz_stub_size + hdr_created) == 0
    && get_uint32 file (nz_stub_size + hdr_created + 4) == 0

-- The MAC of the file, then that of the header.
unfoldable pub macs_match : (List ℕ → List ℕ → List ℕ) → DerivedKeys → List ℕ → Bool
unfolding timing_safe_eq
macs_match mac keys file =
    let body_end = length file - file_mac_size in
    timing_safe_eq (mac keys.k_mac (slice 0 body_end file)) (slice body_end (length file) file)
    && timing_safe_eq (mac keys.k_mac (slice nz_stub_size (nz_stub_size + hdr_size) file))
        (slice (nz_stub_size + hdr_size) (nz_stub_size + hdr_size + header_mac_size) file)

module _ (crypto : Crypto) where
  -- AES-GCM inside, XChaCha20-Poly1305 outside.
  unfoldable pub double_encrypt : List ℕ → DerivedKeys → List ℕ → List ℕ → Option (List ℕ) → List ℕ
  double_encrypt plaintext keys aes_nonce xcha_nonce aad =
      let inner_ct = crypto.aes_encrypt keys.k_aes aes_nonce aad plaintext in
      crypto.xchacha_encrypt keys.k_xcha xcha_nonce aad inner_ct

  unfoldable pub double_decrypt :
      List ℕ → DerivedKeys → List ℕ → List ℕ → Option (List ℕ) → Option (List ℕ)
  double_decrypt ciphertext keys aes_nonce xcha_nonce aad =
      elim (crypto.xchacha_decrypt keys.k_xcha xcha_nonce aad ciphertext) [
        | none ↦ none
        | some inner_ct ↦ crypto.aes_decrypt keys.k_aes aes_nonce aad inner_ct
      ]

  -- The file of an encrypted payload.
  unfoldable pub seal_payload : List ℕ → Nonces → KdfParams → List ℕ → List ℕ
  unfolding build_header double_encrypt
  seal_payload passphrase n k payload =
      let keys = crypto.derive_keys_v2 passphrase n.salt k.log2_m k.t k.p in
      let header = build_header n k in
      let ciphertext = double_encrypt payload keys n.aes_nonce n.xcha_nonce (some header) in
      let header_mac = crypto.mac_v2 keys.k_mac header in
      let body =
        nz_stub ++ (header ++ (header_mac ++ (uint32_bytes (length ciphertext) ++ ciphertext))) in
      body ++ crypto.mac_v2 keys.k_mac body

module _ (codec : TextCodec) (crypto : Crypto) where
  unfoldable pub export_to_p2w :
      (ℕ → Option (List ℕ))
      → Nonces
      → List ℕ
      → List Credential
      → List Folder
      → List ℕ
      → Option KdfParams
      → Outcome (List ℕ)
  unfolding seal_payload
  export_to_p2w random n date credentials folders passphrase options =
      let k = or_else options default_params in
      if out_of_range argon2_min_log2_m argon2_max_log2_m k.log2_m
        || out_of_range argon2_min_t argon2_max_t k.t
        || out_of_range argon2_min_p argon2_max_p k.p
      then err invalid_params
      else build_payload codec random credentials folders date >>= λ payload.
          ok (seal_payload crypto passphrase n k payload)

  -- `try { doubleDecrypt } catch { throw FAIL_MSG }`, then `parsePayload`
  abbrev pub open_payload : (ℕ → List ℕ) → Option (List ℕ) → Outcome (List Credential × List Folder)
  open_payload uuid none = err fail_msg
  open_payload uuid (some plaintext) = parse_payload codec uuid plaintext

  -- `keys` and `mac` are those of the suite, and `aad` is what its ciphers are bound to.
  unfoldable pub import_body :
      (ℕ → List ℕ)
      → (List ℕ → List ℕ → List ℕ)
      → DerivedKeys
      → Option (List ℕ)
      → List ℕ
      → Outcome (List Credential × List Folder)
  unfolding macs_match double_decrypt
  import_body uuid mac keys aad file =
      if macs_match mac keys file
      then open_payload uuid (
          double_decrypt crypto (ciphertext_of file) keys
            (slice (nz_stub_size + hdr_anonce) (nz_stub_size + hdr_anonce + 12) file)
            (slice (nz_stub_size + hdr_xnonce) (nz_stub_size + hdr_xnonce + 24) file) aad)
      else err fail_msg

  unfoldable pub import_v1 :
      (ℕ → List ℕ) → List ℕ → List ℕ → Outcome (List Credential × List Folder)
  unfolding import_body
  import_v1 uuid file passphrase =
      let salt = slice (nz_stub_size + hdr_salt) (nz_stub_size + hdr_salt + 32) file in
      let iters = get_uint32 file (nz_stub_size + hdr_kdf_parm) in
      if out_of_range pbkdf2_min_iters pbkdf2_max_iters iters
      then err fail_msg
      else if not (has_right_length file)
      then err fail_msg
      else import_body uuid crypto.mac_v1 (crypto.derive_keys_v1 passphrase salt iters) none file

  unfoldable pub import_v2 :
      (ℕ → List ℕ) → List ℕ → List ℕ → Outcome (List Credential × List Folder)
  unfolding import_body
  import_v2 uuid file passphrase =
      let salt = slice (nz_stub_size + hdr_salt) (nz_stub_size + hdr_salt + 32) file in
      let log2_m = at file (nz_stub_size + hdr_kdf_parm) in
      let t = at file (nz_stub_size + hdr_kdf_parm + 1) in
      let p = at file (nz_stub_size + hdr_kdf_parm + 2) in
      let header = slice nz_stub_size (nz_stub_size + hdr_size) file in
      if not (reserved_zero file)
      then err fail_msg
      else if out_of_range argon2_min_log2_m argon2_max_log2_m log2_m
          || out_of_range argon2_min_t argon2_max_t t
          || out_of_range argon2_min_p argon2_max_p p
      then err fail_msg
      else if ltb 16 log2_m || ltb 2 t
      then err fail_msg
      else if not (has_right_length file)
      then err fail_msg
      else import_body uuid crypto.mac_v2 (crypto.derive_keys_v2 passphrase salt log2_m t p)
          (some header) file

  unfoldable pub import_from_p2w :
      (ℕ → List ℕ) → List ℕ → List ℕ → Outcome (List Credential × List Folder)
  unfolding is_p2w_file import_v1 import_v2
  import_from_p2w uuid file passphrase =
      if not (is_p2w_file file)
      then err not_p2w
      else if ltb (length file) fixed_overhead
      then err truncated
      else if not (at file (nz_stub_size + hdr_version) == format_version)
      then err fail_msg
      else if at file (nz_stub_size + hdr_suite) == cipher_suite_v1
      then import_v1 uuid file passphrase
      else if at file (nz_stub_size + hdr_suite) == cipher_suite_v2
      then import_v2 uuid file passphrase
      else err fail_msg
