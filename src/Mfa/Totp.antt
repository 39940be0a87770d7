-- ===== src/Mfa/Totp.antt =====
-- One-time codes by time: verifyTotp of web/src/utils/mfa.ts with its map of used periods, which each
-- call takes and returns beside the time of the call.
pub mod Once
use pwdnow_password_manager.Prelude.{
  ℕ, ◌+◌, ◌*◌, ◌/◌, List, [], ◌∷◌, ◌++◌, Bool, true, false, ltb, if◌then◌else◌,
}
use pwdnow_password_manager.Text.{text, text_eq}
use pwdnow_password_manager.Mfa.Base32.{UpperCase}
use pwdnow_password_manager.Mfa.Hotp.{
  Hmac, compute_hotp, decimal, decimal_loop, without_spaces, has_digits,
}

-- The keys of `_usedTotpPeriods` with their expiry times.
abbrev pub UsedPeriods : Type 0
UsedPeriods = List (List ℕ × ℕ)

-- The collection of expired entries.
unfoldable pub collect : ℕ → UsedPeriods → UsedPeriods
collect now [] = []
collect now ((key, expiry) ∷ used) =
    let rest = collect now used in if ltb expiry now then rest else (key, expiry) ∷ rest

unfoldable pub has : List ℕ → UsedPeriods → Bool
has key [] = false
has key ((k, expiry) ∷ used) = if text_eq k key then true else has key used

-- A template string's `${secret}:${period}:${algorithm}:${digits}`
abbrev pub replay_key : List ℕ → ℕ → List ℕ → ℕ → List ℕ
replay_key secret period algorithm digits =
    secret ++ (0x3a ∷ decimal period) ++ (0x3a ∷ algorithm) ++ (0x3a ∷ decimal digits)

module _ (browser : UpperCase) (hmac : Hmac) where
  -- What a matching period does: `has`, then `set` of a key that is not there.
  unfoldable pub consume : List ℕ → ℕ → List ℕ → ℕ → UsedPeriods → Bool × UsedPeriods
  unfolding has decimal_loop
  consume secret period algorithm digits used =
      let key = replay_key secret period algorithm digits in
      if has key used then (false, used) else (true, used ++ ((key, (period + 2) * 30000) ∷ []))

  -- The loop over the drifts 0 and 30000.
  unfoldable pub try_periods :
      List ℕ → List ℕ → List ℕ → ℕ → List ℕ → UsedPeriods → Bool × UsedPeriods
  unfolding compute_hotp consume
  try_periods secret clean algorithm digits [] used = (false, used)
  try_periods secret clean algorithm digits (period ∷ periods) used =
      let later = try_periods secret clean algorithm digits periods used in
      if text_eq (compute_hotp browser hmac secret period algorithm digits) clean
      then consume secret period algorithm digits used
      else later

  unfoldable pub verify_totp : List ℕ → List ℕ → List ℕ → ℕ → ℕ → UsedPeriods → Bool × UsedPeriods
  unfolding try_periods collect
  verify_totp secret token algorithm digits now used =
      let clean = without_spaces token in
      if has_digits digits clean
      then try_periods secret clean algorithm digits (now / 30000 ∷ (now + 30000) / 30000 ∷ [])
          (collect now used)
      else (false, used)
