-- ===== src/P2w/File/Conditions.antt =====
-- What `importFromP2W` (web/src/utils/p2wFormat.ts) asks of a file, in words of its bytes, and what
-- the tests of the source decide.
use pwdnow_password_manager.Prelude.{
  ℕ, ◌+◌, ◌-◌, ◌≤◌, ◌<◌, ◌≡◌, ◌↔◌, refl, ◌⊎◌, List, ◌∷◌, [], Bool, true, false, not, ◌||◌, ◌&&◌,
  Option, none, some, length, slice, drop, All-take, All-drop, ltb, ◌==◌, ok, arith, ==_iff,
  &&_true,
}
use pwdnow_password_manager.Text.{TextCodec, text_eq_iff}
use pwdnow_password_manager.Types.{Folder, Credential}
use pwdnow_password_manager.P2w.Format.{nz_stub, p2w_magic, nz_stub_size, hdr_salt, hdr_kdf_parm}
use pwdnow_password_manager.P2w.Parse.{parse_payload}
use pwdnow_password_manager.P2w.File.{
  DerivedKeys, Crypto, at, get_uint16, get_uint32, is_p2w_file, reserved_zero, macs_match,
  out_of_range,
}
use pwdnow_password_manager.P2w.File.Comparison.{AreBytes, timing_safe_eq_iff}

-- The bytes between two offsets of the header.
abbrev header_field : List ℕ → ℕ → ℕ → List ℕ
header_field file from n = slice (nz_stub_size + from) (nz_stub_size + from + n) file

-- The keys that the passphrase gives under the header's parameters.
abbrev pub keys_v1 : Crypto → List ℕ → List ℕ → DerivedKeys
keys_v1 crypto file passphrase =
    crypto.derive_keys_v1 passphrase (header_field file hdr_salt 32)
      (get_uint32 file (nz_stub_size + hdr_kdf_parm))

abbrev pub keys_v2 : Crypto → List ℕ → List ℕ → DerivedKeys
keys_v2 crypto file passphrase =
    crypto.derive_keys_v2 passphrase (header_field file hdr_salt 32)
      (at file (nz_stub_size + hdr_kdf_parm)) (at file (nz_stub_size + hdr_kdf_parm + 1))
      (at file (nz_stub_size + hdr_kdf_parm + 2))

-- Both authentication codes are in the file, that of the whole file at its end and that of the
-- header behind the header; both layers of the payload decrypt, and the vault is what the
-- plaintext parses to.
pub record IsOpened (codec : TextCodec) (crypto : Crypto) (uuid : ℕ → List ℕ)
    (mac : List ℕ → List ℕ → List ℕ) (keys : DerivedKeys) (aad : Option (List ℕ)) (file : List ℕ)
    (vault : List Credential × List Folder) : Type 0 where
  pub file_mac :
      mac keys.k_mac (slice 0 (length file - 64) file) ≡ slice (length file - 64) (length file) file
  pub header_mac : mac keys.k_mac (slice 2 98 file) ≡ slice 98 162 file
  pub inner : List ℕ
  pub outer_layer :
      crypto.xchacha_decrypt keys.k_xcha
        (slice 62 86 file)
        aad
        (slice 166 (166 + get_uint32 file 162) file)
      ≡ some inner
  pub plaintext : List ℕ
  pub inner_layer : crypto.aes_decrypt keys.k_aes (slice 86 98 file) aad inner ≡ some plaintext
  pub parsed : parse_payload codec uuid plaintext ≡ ok vault

-- A file of the legacy suite.
pub record IsImported1 (codec : TextCodec) (crypto : Crypto) (uuid : ℕ → List ℕ)
    (file passphrase : List ℕ) (vault : List Credential × List Folder) : Type 0 where
  pub suite : at file 7 ≡ 1
  pub iterations : (100000 ≤ get_uint32 file 58) × (get_uint32 file 58 ≤ 2000000)
  pub exact_length : 166 + get_uint32 file 162 + 64 ≡ length file
  pub opened :
      IsOpened codec crypto uuid crypto.mac_v1 (keys_v1 crypto file passphrase) none file vault

-- A file of the current suite.
pub record IsImported2 (codec : TextCodec) (crypto : Crypto) (uuid : ℕ → List ℕ)
    (file passphrase : List ℕ) (vault : List Credential × List Folder) : Type 0 where
  pub suite : at file 7 ≡ 2
  pub flags : get_uint16 file 8 ≡ 0
  pub created : (get_uint32 file 10 ≡ 0) × (get_uint32 file 14 ≡ 0)
  pub memory : (12 ≤ at file 58) × (at file 58 ≤ 16)
  pub time : (1 ≤ at file 59) × (at file 59 ≤ 2)
  pub lanes : (1 ≤ at file 60) × (at file 60 ≤ 4)
  pub exact_length : 166 + get_uint32 file 162 + 64 ≡ length file
  pub opened :
      IsOpened codec crypto uuid crypto.mac_v2
        (keys_v2 crypto file passphrase)
        (some (slice 2 98 file))
        file
        vault

-- A file of either suite.
pub record IsImported (codec : TextCodec) (crypto : Crypto) (uuid : ℕ → List ℕ)
    (file passphrase : List ℕ) (vault : List Credential × List Folder) : Type 0 where
  pub stub : slice 0 2 file ≡ 0x6e ∷ 0x7a ∷ []
  pub magic : slice 2 6 file ≡ p2w_magic
  pub overhead : 230 ≤ length file
  pub version : at file 6 ≡ 1
  pub of_suite :
      IsImported1 codec crypto uuid file passphrase vault
      ⊎ IsImported2 codec crypto uuid file passphrase vault

AreBytes-slice : (i j : ℕ) (xs : List ℕ) → AreBytes xs → AreBytes (slice i j xs)
AreBytes-slice i j xs h =
    All-take (λ b. b < 256) (j - i) (drop i xs) (All-drop (λ b. b < 256) i xs h)

pub is_p2w_file_iff :
    (file : List ℕ)
    → (is_p2w_file file ≡ true)
      ↔ ((98 ≤ length file) × (slice 0 2 file ≡ nz_stub) × (slice 2 6 file ≡ p2w_magic))
unfolding is_p2w_file
is_p2w_file_iff file =
    ground (arith, text_eq_iff (slice 0 2 file) nz_stub, text_eq_iff (slice 2 6 file) p2w_magic)

all_zero_iff : (a b c : ℕ) → ((a == 0 && b == 0 && c == 0) ≡ true) ↔ ((a ≡ 0) × (b ≡ 0) × (c ≡ 0))
all_zero_iff a b c = ground arith

pub reserved_zero_iff :
    (file : List ℕ)
    → (reserved_zero file ≡ true)
      ↔ ((get_uint16 file 8 ≡ 0) × (get_uint32 file 10 ≡ 0) × (get_uint32 file 14 ≡ 0))
reserved_zero_iff file = all_zero_iff (get_uint16 file 8) (get_uint32 file 10) (get_uint32 file 14)

-- For bytes the comparison of the codes decides whether they are in the file.
pub macs_match_iff :
    (mac : List ℕ → List ℕ → List ℕ) (keys : DerivedKeys) (file : List ℕ)
    → ((key bytes : List ℕ) → AreBytes (mac key bytes))
    → AreBytes file
    → (macs_match mac keys file ≡ true) ↔ (
        (mac keys.k_mac (slice 0 (length file - 64) file)
          ≡ slice (length file - 64) (length file) file)
        × (mac keys.k_mac (slice 2 98 file) ≡ slice 98 162 file))
unfolding macs_match
macs_match_iff mac keys file mac_bytes bytes =
    let body_end = length file - 64 in
    let (to, from) =
      timing_safe_eq_iff (mac keys.k_mac (slice 0 body_end file))
        (slice body_end (length file) file) (mac_bytes _ _)
        (AreBytes-slice body_end (length file) file bytes) in
    let (to', from') =
      timing_safe_eq_iff (mac keys.k_mac (slice 2 98 file)) (slice 98 162 file) (mac_bytes _ _)
        (AreBytes-slice 98 162 file bytes) in
    (
      λ h. let (same, same') = &&_true _ _ h in (to same, to' same'),
      λ h. rw (from h.0, from' h.1) refl,
    )

pub out_of_range_iff : (lo hi v : ℕ) → (out_of_range lo hi v ≡ false) ↔ ((lo ≤ v) × (v ≤ hi))
out_of_range_iff lo hi v = ground arith

-- The two checks of the Argon2id parameters together.
abbrev AreInBudget : ℕ → ℕ → ℕ → Type 0
AreInBudget log2_m t p = ((12 ≤ log2_m) × (log2_m ≤ 16)) × ((1 ≤ t) × (t ≤ 2)) × ((1 ≤ p) × (p ≤ 4))

pub budget_iff :
    (log2_m t p : ℕ)
    → (((out_of_range 12 18 log2_m || out_of_range 1 3 t || out_of_range 1 4 p) ≡ false)
        × ((ltb 16 log2_m || ltb 2 t) ≡ false))
      ↔ AreInBudget log2_m t p
budget_iff log2_m t p = ground arith

pub ltb_false→le : (a b : ℕ) → ltb a b ≡ false → b ≤ a
ltb_false→le a b h = ground arith

pub ==→eq : (a b : ℕ) → (a == b) ≡ true → a ≡ b
==→eq a b h = (==_iff a b).0 h

pub not-false : (b : Bool) → not b ≡ false → b ≡ true
not-false b h = ground arith
