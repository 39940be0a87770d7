-- ===== src/Mfa/Examples.antt =====
-- The theorems on web/src/utils/mfa.ts at concrete inputs.
use pwdnow_password_manager.Prelude.{
  ℕ, ◌≤◌, ◌≡◌, ◌≢◌, refl, ap, ◌∙◌, sym, subst, ◌⊎◌, inl, inr, List, [], ◌∷◌, ◌++◌, true, false,
  Option, none, some, ltb, arith, get_or, drop, ◌&&◌,
}
use pwdnow_password_manager.Text.{text, is_space}
use pwdnow_password_manager.Mfa.Base32.{UpperCase, base32_encode, base32_decode}
use pwdnow_password_manager.Mfa.Base32.RoundTrip.{base32_decode-base32_encode}
use pwdnow_password_manager.Mfa.Hotp.{
  Hmac, compute_hotp, decimal_loop, verify_hotp, without_spaces, has_digits,
}
use pwdnow_password_manager.Mfa.Hotp.Lookahead.{IsAnswer, verify_hotp-IsAnswer}
use pwdnow_password_manager.Mfa.Hotp.Codes.{has_digits-compute_hotp}
use pwdnow_password_manager.Mfa.Totp.{consume, has, try_periods, collect, verify_totp}
use pwdnow_password_manager.Mfa.Totp.Once.{Call, call, after_calls, verify_totp-once}
use pwdnow_password_manager.Mfa.EmailCode.{code_of, first_below, generate_email_code}
use pwdnow_password_manager.Mfa.EmailCode.SingleUse.{
  Fate, sent_code, verify_email_code-generate_email_code,
}
use pwdnow_password_manager.Mfa.Config.{
  MfaConfig, cloned, default_mfa, new_meta, register_webauthn, register_passkey,
  register_platform_auth, find_credential, store_counter, authenticate_webauthn,
  authenticate_with_passkey_for_login, refresh_login_hints,
}
use pwdnow_password_manager.Mfa.Config.Counters.{after, after_all, authenticate_webauthn-replayed}
use pwdnow_password_manager.Mfa.Config.Hints.{
  security_key, platform, register_all, authenticate_with_passkey_for_login-register,
  refresh_login_hints-register_all,
}

abbrev browser : UpperCase
browser = record { to_upper = λ s. s; to_upper_upper = λ s h. refl }

-- Its codes are the counters themselves.
abbrev counting : Hmac
counting = record { sign = λ algorithm key message. drop 4 message ++ (0 ∷ []) }

base32_decode-base32_encode_example :
    base32_decode browser (base32_encode (1 ∷ 255 ∷ 128 ∷ [])) ≡ 1 ∷ 255 ∷ 128 ∷ []
base32_decode-base32_encode_example = base32_decode-base32_encode browser (1 ∷ 255 ∷ 128 ∷ []) refl

abbrev secret : List ℕ
secret = text "GEZDGNBV"

abbrev sha1 : List ℕ
sha1 = text "SHA-1"

verify_hotp-IsAnswer_example :
    ((has_digits 6 (without_spaces (text "000 007")) ≡ false)
      × (verify_hotp browser counting secret 5 (text "000 007") 10 sha1 6 ≡ (false, 5)))
    ⊎ IsAnswer browser counting secret sha1 6 5
        (without_spaces (text "000 007"))
        5
        16
        (verify_hotp browser counting secret 5 (text "000 007") 10 sha1 6)
verify_hotp-IsAnswer_example =
    verify_hotp-IsAnswer browser counting secret sha1 6 5 (text "000 007") 10

has_digits-compute_hotp_example :
    has_digits 8 (compute_hotp browser counting secret 5 sha1 8) ≡ true
has_digits-compute_hotp_example =
    has_digits-compute_hotp browser counting secret 5 sha1 8 (omega arith)

abbrev a_call : Call
a_call = record {
  secret = secret;
  token = text "000002";
  algorithm = sha1;
  digits = 6;
  now = 60000;
}

code_of_3 : compute_hotp browser counting secret 3 sha1 6 ≡ text "000003"
unfolding compute_hotp decimal_loop
code_of_3 = refl

accepted_2 : (call browser counting a_call []).0 ≡ true
unfolding compute_hotp decimal_loop verify_totp try_periods consume has collect is_space
accepted_2 = refl

only_2 :
    (q : ℕ) → 2 ≤ q → q ≤ 3 → compute_hotp browser counting secret q sha1 6 ≡ text "000002" → q ≡ 2
only_2 q low high same = elim (two_or_three q low high) [
  | inl e ↦ e
  | inr e ↦
      let three =
        subst (λ r. compute_hotp browser counting secret r sha1 6 ≡ text "000002") e same in
      absurd (differ (ap (λ s. get_or s 5 0) (sym code_of_3 ∙ three)))
]
  where
    two_or_three : (q : ℕ) → 2 ≤ q → q ≤ 3 → (q ≡ 2) ⊎ (q ≡ 3)
    two_or_three q low high = ground arith

    differ : ◌≢◌ {A = ℕ} 51 50
    differ h = omega arith

verify_totp-once_example :
    (call browser counting
      (record a_call { now = 61000 })
      (after_calls browser counting (a_call ∷ []) (call browser counting a_call []).1)).0
    ≡ false
unfolding is_space
verify_totp-once_example =
    verify_totp-once browser counting a_call [] (a_call ∷ []) 61000 2 accepted_2 (omega arith)
      (omega arith, tt) only_2

verify_email_code-generate_email_code_example :
    Fate (text "00 0042") 1000 (sent_code (text "a@b.c") 1000 42)
unfolding generate_email_code first_below
verify_email_code-generate_email_code_example =
    verify_email_code-generate_email_code (4294967295 ∷ 42 ∷ []) (text "a@b.c") (text "00 0042")
      1000 (code_of 42) (sent_code (text "a@b.c") 1000 42).1 refl

abbrev with_one_key : MfaConfig
with_one_key = register_webauthn (new_meta (text "k") (text "key") 1) default_mfa

abbrev counted : MfaConfig
counted = after (text "k") (some 7) with_one_key

authenticate_webauthn-replayed_example :
    authenticate_webauthn (text "k") (some 7) (after_all ((text "k", some 9) ∷ []) counted) ≡ cloned
unfolding authenticate_webauthn find_credential store_counter
authenticate_webauthn-replayed_example =
    authenticate_webauthn-replayed (text "k") 7 7 with_one_key counted ((text "k", some 9) ∷ [])
      refl (λ same h. nine h, tt) (omega arith) (omega arith)
  where
    nine : ◌≢◌ {A = Option ℕ} (some 9) (some 0)
    nine h = ground arith

authenticate_with_passkey_for_login-register_example :
    (authenticate_with_passkey_for_login none
        (some (
          register_all
            (security_key (new_meta (text "k") (text "key") 2) ∷ [])
            (register_passkey (new_meta (text "p") (text "phone") 1) default_mfa)))
        (some (text "p"))
      ≡ true)
    × (authenticate_with_passkey_for_login none
          (some (
            register_all
              (security_key (new_meta (text "k") (text "key") 2) ∷ [])
              (register_platform_auth (new_meta (text "p") (text "phone") 1) default_mfa)))
          (some (text "p"))
        ≡ true)
authenticate_with_passkey_for_login-register_example =
    authenticate_with_passkey_for_login-register (text "p") (text "phone") 1 default_mfa
      (security_key (new_meta (text "k") (text "key") 2) ∷ []) none

abbrev registered : MfaConfig
registered = register_all (platform (new_meta (text "p") (text "laptop") 1) ∷ []) default_mfa

refresh_login_hints-register_all_example :
    ((refresh_login_hints registered).webauthn ≡ ltb 0 0)
    × ((refresh_login_hints registered).passwordless_enabled ≡ (false && ltb 0 1))
refresh_login_hints-register_all_example =
    refresh_login_hints-register_all (platform (new_meta (text "p") (text "laptop") 1) ∷ [])
      default_mfa (refl, refl, refl)
