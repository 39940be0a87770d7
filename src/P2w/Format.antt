-- ===== src/P2w/Format.antt =====
-- The constants of web/src/utils/p2wFormat.ts, and the errors that its functions throw.
use pwdnow_password_manager.Prelude.{ℕ, ◌+◌, List, [], ◌∷◌, Result}

-- `fail_msg` is FAIL_MSG, `not_p2w` "Not a valid .p2w file.", `truncated` "File is truncated or
-- corrupted.", `invalid_params` "P2W: invalid Argon2id parameters", `past_end` and `tlv_exceeds`
-- the two "P2W parser:" errors, `field_exceeds` "P2W field … exceeds 64 KiB" with its tag, and
-- `quota_exceeded` what the browser's crypto.getRandomValues throws. `out_of_fuel` is no error
-- of the program: it marks a loop of the model that was given too little fuel.
pub data Failure : Type 0 where
  fail_msg not_p2w truncated invalid_params past_end tlv_exceeds quota_exceeded : Failure
  field_exceeds : ℕ → Failure
  out_of_fuel : Failure

abbrev pub Outcome : Type 0 → Type 0
Outcome A = Result Failure A

abbrev pub nz_stub : List ℕ
nz_stub = 0x6e ∷ 0x7a ∷ []

abbrev pub nz_stub_size : ℕ
nz_stub_size = 2

abbrev pub p2w_magic : List ℕ
p2w_magic = 0x50 ∷ 0x32 ∷ 0x57 ∷ 0x01 ∷ []

abbrev pub prf_magic : List ℕ
prf_magic = 0xb7 ∷ 0xa2 ∷ 0x4f ∷ 0x03 ∷ []

abbrev pub format_version : ℕ
format_version = 0x01

abbrev pub cipher_suite_v1 : ℕ
cipher_suite_v1 = 0x01

abbrev pub cipher_suite_v2 : ℕ
cipher_suite_v2 = 0x02

abbrev pub pbkdf2_min_iters : ℕ
pbkdf2_min_iters = 100_000

abbrev pub pbkdf2_max_iters : ℕ
pbkdf2_max_iters = 2_000_000

abbrev pub argon2_min_log2_m : ℕ
argon2_min_log2_m = 12

abbrev pub argon2_max_log2_m : ℕ
argon2_max_log2_m = 18

abbrev pub argon2_min_t : ℕ
argon2_min_t = 1

abbrev pub argon2_max_t : ℕ
argon2_max_t = 3

abbrev pub argon2_min_p : ℕ
argon2_min_p = 1

abbrev pub argon2_max_p : ℕ
argon2_max_p = 4

abbrev pub argon2_default_log2_m : ℕ
argon2_default_log2_m = 18

abbrev pub argon2_default_t : ℕ
argon2_default_t = 1

abbrev pub argon2_default_p : ℕ
argon2_default_p = 1

abbrev pub min_padding_bytes : ℕ
min_padding_bytes = 128

abbrev pub hdr_version : ℕ
hdr_version = 4

abbrev pub hdr_suite : ℕ
hdr_suite = 5

abbrev pub hdr_flags : ℕ
hdr_flags = 6

abbrev pub hdr_created : ℕ
hdr_created = 8

abbrev pub hdr_salt : ℕ
hdr_salt = 24

abbrev pub hdr_kdf_parm : ℕ
hdr_kdf_parm = 56

abbrev pub hdr_xnonce : ℕ
hdr_xnonce = 60

abbrev pub hdr_anonce : ℕ
hdr_anonce = 84

abbrev pub hdr_size : ℕ
hdr_size = 96

abbrev pub header_mac_size : ℕ
header_mac_size = 64

abbrev pub file_mac_size : ℕ
file_mac_size = 64

abbrev pub payload_len_size : ℕ
payload_len_size = 4

abbrev pub fixed_overhead : ℕ
fixed_overhead = 2 + 96 + 64 + 4 + 64

abbrev pub r_meta : ℕ
r_meta = 0x01

abbrev pub r_folder : ℕ
r_folder = 0x10

abbrev pub r_entry : ℕ
r_entry = 0x20

abbrev pub r_padding : ℕ
r_padding = 0xfe

abbrev pub r_end : ℕ
r_end = 0xff

abbrev pub f_end : ℕ
f_end = 0xff

abbrev pub fm_app_name : ℕ
fm_app_name = 0x01

abbrev pub fm_app_ver : ℕ
fm_app_ver = 0x02

abbrev pub fm_timestamp : ℕ
fm_timestamp = 0x03

abbrev pub fm_ncreds : ℕ
fm_ncreds = 0x04

abbrev pub fm_nfolds : ℕ
fm_nfolds = 0x05

abbrev pub ff_id : ℕ
ff_id = 0x01

abbrev pub ff_label : ℕ
ff_label = 0x02

abbrev pub ff_desc : ℕ
ff_desc = 0x03

abbrev pub fe_id : ℕ
fe_id = 0x01

abbrev pub fe_svc : ℕ
fe_svc = 0x02

abbrev pub fe_url : ℕ
fe_url = 0x03

abbrev pub fe_user : ℕ
fe_user = 0x04

abbrev pub fe_pass : ℕ
fe_pass = 0x05

abbrev pub fe_notes : ℕ
fe_notes = 0x06

abbrev pub fe_otp : ℕ
fe_otp = 0x07

abbrev pub fe_folid : ℕ
fe_folid = 0x08

abbrev pub fe_status : ℕ
fe_status = 0x09

abbrev pub fe_tags : ℕ
fe_tags = 0x0a

abbrev pub fe_type : ℕ
fe_type = 0x0b
