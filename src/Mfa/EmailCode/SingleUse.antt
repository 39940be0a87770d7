-- ===== src/Mfa/EmailCode/SingleUse.antt =====
-- What becomes of a code.
use native.Mathlib.Nat.{mod-lt}
use pwdnow_password_manager.Prelude.{
  ℕ, ◌+◌, ◌*◌, ◌%◌, ◌≡◌, refl, ◌∙◌, ap, List, [], ◌∷◌, Bool, true, false, Option, none, some, ltb,
  leb, arith, Bool-cases, inl, inr, ◌&&◌, all, &&_true, Option-cases, or_else, length, ◌==◌, subst,
}
use pwdnow_password_manager.Text.{text_eq, text_eq_refl, is_space}
use pwdnow_password_manager.Mfa.Hotp.{without_spaces, has_digits, is_digit}
use pwdnow_password_manager.Mfa.Hotp.Codes.{padded_digits}
use pwdnow_password_manager.Mfa.EmailCode.{
  PendingEmailOtp, first_below, code_of, generate_email_code, verify_email_code,
}

digit_not_space : (c : ℕ) → is_digit c ≡ true → is_space c ≡ false
unfolding is_space
digit_not_space c h = ground arith

without_spaces-digits : (s : List ℕ) → all is_digit s ≡ true → without_spaces s ≡ s
without_spaces-digits [] h = refl
without_spaces-digits (c ∷ s) h =
    let (d, ds) = &&_true (is_digit c) (all is_digit s) h in
    rw (digit_not_space c d) (ap (λ r. c ∷ r) (without_spaces-digits s ds))

code_of_shape : (draw : ℕ) → has_digits 6 (code_of draw) ≡ true
code_of_shape draw = padded_digits 5 (draw % 1000000) (mod-lt draw (omega arith))

-- The fate of a code `code` that is pending since `sent`.
abbrev pub Fate : List ℕ → ℕ → List ℕ × Option PendingEmailOtp → Type 0
Fate token sent (code, pending) =
    (has_digits 6 code ≡ true)
    × ((now : ℕ) → (verify_email_code code now pending).0 ≡ leb now (sent + 300000))
    × ((now : ℕ)
        → (verify_email_code token now pending).0
          ≡ (leb now (sent + 300000) && text_eq code (without_spaces token)))
    × ((now now' : ℕ) (token' : List ℕ)
        → (verify_email_code token' now' (verify_email_code token now pending).1).0 ≡ false)

abbrev pub sent_code : List ℕ → ℕ → ℕ → List ℕ × Option PendingEmailOtp
sent_code email sent draw = (
  code_of draw,
  some (record { code = code_of draw; email = email; expires = sent + 5 * 60 * 1000 }),
)

accepted :
    (code token : List ℕ) (now until : ℕ) (email : List ℕ)
    → (verify_email_code token now
        (some (record { code = code; email = email; expires = until }))).0
      ≡ (leb now until && text_eq code (without_spaces token))
unfolding verify_email_code
accepted code token now until email = ground arith

used_up :
    (token token' : List ℕ) (now now' : ℕ) (pending : Option PendingEmailOtp)
    → (verify_email_code token' now' (verify_email_code token now pending).1).0 ≡ false
unfolding verify_email_code
used_up token token' now now' none = refl
used_up token token' now now' (some otp) = elim (Bool-cases (ltb otp.expires now)) [
  | inl late ↦ rw (late) refl
  | inr early ↦ rw (early) refl
]

sent_code-Fate :
    (email token : List ℕ) (sent draw : ℕ) → Fate token sent (sent_code email sent draw)
sent_code-Fate email token sent draw =
    let code = code_of draw in
    let until = sent + 300000 in
    let shape = code_of_shape draw in
    let same : text_eq code (without_spaces code) ≡ true =
      rw (without_spaces-digits code (&&_true (length code == 6) (all is_digit code) shape).1)
        (text_eq_refl code) in
    (
      shape,
      λ now. accepted code code now until email ∙ rw (same) (and_true (leb now until)),
      λ now. accepted code token now until email,
      λ now now' token'. used_up token token' now now' (sent_code email sent draw).1,
    )
  where
    and_true : (b : Bool) → (b && true) ≡ b
    and_true b = ground arith

-- A code that was sent: it has six digits; entered within five minutes it is accepted, later it is
-- refused, any other token is refused, and whatever was entered, after it no token is
-- accepted. The condition is that one of the numbers drawn was accepted.
pub verify_email_code-generate_email_code :
    (draws email token : List ℕ) (sent : ℕ) (code : List ℕ) (pending : Option PendingEmailOtp)
    → generate_email_code draws email sent ≡ some (code, pending)
    → Fate token sent (code, pending)
unfolding generate_email_code
verify_email_code-generate_email_code draws email token sent code pending =
    elim (Option-cases (first_below draws)) [
      | inl waiting ↦ rw (waiting, generate_email_code) (λ h. absurd (ground arith))
      | inr (draw, drawn) ↦
          rw (drawn, generate_email_code)
            (λ h.
              subst (Fate token sent) (ap (λ o. or_else o (code, pending)) h)
                (sent_code-Fate email token sent draw))
    ]
