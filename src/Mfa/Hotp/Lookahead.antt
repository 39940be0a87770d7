-- ===== src/Mfa/Hotp/Lookahead.antt =====
-- Which counters a token is checked against, and where the counter goes.
use pwdnow_password_manager.Prelude.{
  ℕ, zero, suc, ◌+◌, ◌≤◌, ◌<◌, ◌≡◌, refl, sym, subst, ◌⊎◌, inl, inr, List, Bool, true, false, arith,
  Bool-cases, ◌≢◌,
}
use pwdnow_password_manager.Text.{text_eq, text_eq_iff}
use pwdnow_password_manager.Mfa.Base32.{UpperCase}
use pwdnow_password_manager.Mfa.Hotp.{
  Hmac, compute_hotp, look_ahead, verify_hotp, without_spaces, has_digits,
}

module _ (browser : UpperCase) (hmac : Hmac) (secret algorithm : List ℕ) (digits : ℕ) where
  abbrev pub code_at : ℕ → List ℕ
  code_at c = compute_hotp browser hmac secret c algorithm digits

  -- No counter from `from` up to `below` has this code.
  abbrev pub NoneBetween : List ℕ → ℕ → ℕ → Type 0
  NoneBetween clean from below = (i : ℕ) → from ≤ i → i < below → code_at i ≢ clean

  -- The answer for a token is right: the counter after the first match, or no match in the range.
  abbrev pub IsAnswer : ℕ → List ℕ → ℕ → ℕ → Bool × ℕ → Type 0
  IsAnswer stored clean from below answer =
      ((k : ℕ) × (from ≤ k)
        × (k < below)
        × (code_at k ≡ clean)
        × NoneBetween clean from k
        × (answer ≡ (true, k + 1)))
      ⊎ (NoneBetween clean from below × (answer ≡ (false, stored)))

  none-step :
      (clean : List ℕ) (from below : ℕ)
      → text_eq (code_at from) clean ≡ false
      → NoneBetween clean (from + 1) below
      → NoneBetween clean from below
  none-step clean from below differs later i low high same = elim (eq_or_later from i low) [
    | inl e ↦
        let here = subst (λ j. code_at j ≡ clean) (sym e) same in
        ground (arith, text_eq_iff (code_at from) clean)
    | inr h ↦ later i h high same
  ]
    where
      eq_or_later : (a b : ℕ) → a ≤ b → (a ≡ b) ⊎ (a + 1 ≤ b)
      eq_or_later a b h = ground arith

  none-empty : (clean : List ℕ) (from : ℕ) → NoneBetween clean from from
  none-empty clean from i low high same = omega arith

  found_here :
      (stored : ℕ) (clean : List ℕ) (from below : ℕ)
      → from < below
      → text_eq (code_at from) clean ≡ true
      → IsAnswer stored clean from below (true, from + 1)
  found_here stored clean from below h e =
      inl
        (from, omega arith, h, (text_eq_iff (code_at from) clean).0 e, none-empty clean from, refl)

  look_ahead-IsAnswer :
      (stored : ℕ) (clean : List ℕ) (counter left : ℕ)
      → IsAnswer stored clean counter
          (counter + left + 1)
          (look_ahead browser hmac secret stored algorithm digits clean counter left)
  unfolding look_ahead
  look_ahead-IsAnswer stored clean counter zero =
      elim (Bool-cases (text_eq (code_at counter) clean)) [
        | inl e ↦ rw (e) (found_here stored clean counter (counter + 0 + 1) (omega arith) e)
        | inr e ↦ rw (e) (
            inr
              (none-step clean counter (counter + 0 + 1) e (λ i low high same. omega arith), refl))
      ]
  look_ahead-IsAnswer stored clean counter (suc left) =
      elim (Bool-cases (text_eq (code_at counter) clean)) [
        | inl e ↦ rw (e) (found_here stored clean counter (counter + suc left + 1) (omega arith) e)
        | inr e ↦
            let end_eq : counter + 1 + left + 1 ≡ counter + suc left + 1 = omega arith in
            rw (e) (elim (look_ahead-IsAnswer stored clean (counter + 1) left) [
              | inl (k, low, high, match, none_before, answer) ↦ inl (
                k,
                omega arith,
                omega arith,
                match,
                none-step clean counter k e none_before,
                answer,
              )
              | inr (none_all, answer) ↦ inr (
                none-step clean counter (counter + suc left + 1) e
                    (subst (NoneBetween clean (counter + 1)) end_eq none_all),
                answer,
              )
            ])
      ]

  -- The answer to a token: one that is not the right number of digits is refused; otherwise it is
  -- accepted exactly if it is the code of a counter between the stored one and the last one
  -- looked ahead to, and then the new counter is the one after the first such; a refused token
  -- leaves the counter.
  pub verify_hotp-IsAnswer :
      (stored : ℕ) (token : List ℕ) (lookahead : ℕ)
      → ((has_digits digits (without_spaces token) ≡ false)
          × (verify_hotp browser hmac secret stored token lookahead algorithm digits
              ≡ (false, stored)))
        ⊎ IsAnswer stored
            (without_spaces token)
            stored
            (stored + lookahead + 1)
            (verify_hotp browser hmac secret stored token lookahead algorithm digits)
  unfolding verify_hotp
  verify_hotp-IsAnswer stored token lookahead =
      elim (Bool-cases (has_digits digits (without_spaces token))) [
        | inl ok ↦
            rw (ok) (inr (look_ahead-IsAnswer stored (without_spaces token) stored lookahead))
        | inr bad ↦ inl (bad, rw (bad) refl)
      ]
