-- ===== src/Mfa/EmailCode.antt =====
-- Codes by mail: generateEmailCode, verifyEmailCode and clearPendingOtp of web/src/utils/mfa.ts.
-- The pending code is the state. A call takes the numbers that `crypto.getRandomValues` draws
-- one after the other, and the time.
pub mod SingleUse
use pwdnow_password_manager.Prelude.{
  ℕ, ◌+◌, ◌*◌, ◌%◌, List, [], ◌∷◌, Bool, true, false, Option, none, some, ltb, leb, if◌then◌else◌,
}
use pwdnow_password_manager.Text.{text_eq}
use pwdnow_password_manager.Mfa.Hotp.{decimal, decimal_loop, pad_start, without_spaces}

pub record PendingEmailOtp : Type 0 where
  pub code : List ℕ
  pub email : List ℕ
  pub expires : ℕ

-- `LIMIT`, the largest multiple of 1_000_000 up to 2^32.
abbrev pub limit : ℕ
limit = 4294 * 1000000

-- The first draw below the limit; `none` while the draws go on.
unfoldable pub first_below : List ℕ → Option ℕ
first_below [] = none
first_below (draw ∷ draws) = if ltb draw limit then some draw else first_below draws

abbrev pub code_of : ℕ → List ℕ
code_of draw = pad_start 6 (decimal (draw % 1000000))

-- The code and the new state, once a draw is accepted.
unfoldable pub generate_email_code : List ℕ → List ℕ → ℕ → Option (List ℕ × Option PendingEmailOtp)
unfolding first_below decimal_loop
generate_email_code draws email now = elim (first_below draws) [
  | none ↦ none
  | some draw ↦ some (
    code_of draw,
    some (record { code = code_of draw; email = email; expires = now + 5 * 60 * 1000 }),
  )
]

unfoldable pub verify_email_code :
    List ℕ → ℕ → Option PendingEmailOtp → Bool × Option PendingEmailOtp
verify_email_code token now none = (false, none)
verify_email_code token now (some otp) =
    if ltb otp.expires now then (false, none) else (text_eq otp.code (without_spaces token), none)

abbrev pub clear_pending_otp : Option PendingEmailOtp → Option PendingEmailOtp
clear_pending_otp pending = none
