-- ===== src/Mfa/Hotp.antt =====
-- One-time codes by counter: computeHotp and verifyHotp of web/src/utils/mfa.ts. The HMAC is the
-- browser's.
pub mod Codes
pub mod Lookahead
use pwdnow_password_manager.Prelude.{
  ℕ, zero, suc, ◌+◌, ◌-◌, ◌*◌, ◌/◌, ◌%◌, ◌^◌, ◌≤◌, ◌≡◌, List, [], ◌∷◌, ◌++◌, Bool, true, false,
  ◌&&◌, not, ltb, leb, ◌==◌, if◌then◌else◌, length, arith, get_or, all, keep, replicate,
}
use pwdnow_password_manager.Text.{is_space, text_eq}
use pwdnow_password_manager.Mfa.Base32.{UpperCase, base32_decode}

-- `String(n)`, the decimal digits of `n`; `fuel` bounds their number.
unfoldable pub decimal_loop : ℕ → ℕ → List ℕ
decimal_loop zero n = []
decimal_loop (suc fuel) n =
    let front = decimal_loop fuel (n / 10) in
    if ltb n 10 then (48 + n) ∷ [] else front ++ (48 + n % 10) ∷ []

abbrev pub decimal : ℕ → List ℕ
decimal n = decimal_loop (suc n) n

-- `s.padStart(width, '0')`
abbrev pub pad_start : ℕ → List ℕ → List ℕ
pad_start width s = replicate (width - length s) 48 ++ s

-- Big-endian bytes, as `setUint32` writes them.
abbrev pub uint32_bytes : ℕ → List ℕ
uint32_bytes n = n / 2 ^ 24 % 256 ∷ n / 2 ^ 16 % 256 ∷ n / 2 ^ 8 % 256 ∷ n % 256 ∷ []

-- `crypto.subtle.sign('HMAC', …)`: the algorithm, the key, the message.
pub record Hmac : Type 0 where
  pub sign : List ℕ → List ℕ → List ℕ → List ℕ

-- `token.replace(/\s/g, '')`
abbrev pub without_spaces : List ℕ → List ℕ
without_spaces s = keep (λ c. not (is_space c)) s

abbrev pub is_digit : ℕ → Bool
is_digit c = leb 48 c && leb c 57

-- The test against `^\d{digits}$`.
abbrev pub has_digits : ℕ → List ℕ → Bool
has_digits digits s = length s == digits && all is_digit s

module _ (browser : UpperCase) (hmac : Hmac) where
  abbrev pub truncated : List ℕ → ℕ
  truncated sig =
      let offset = get_or sig (length sig - 1) 0 % 16 in
      get_or sig offset 0 % 128 * 2 ^ 24
      + get_or sig (offset + 1) 0 * 2 ^ 16
      + get_or sig (offset + 2) 0 * 2 ^ 8
      + get_or sig (offset + 3) 0

  unfoldable pub compute_hotp : List ℕ → ℕ → List ℕ → ℕ → List ℕ
  unfolding base32_decode decimal_loop
  compute_hotp secret counter algorithm digits =
      let sig =
        hmac.sign algorithm (base32_decode browser secret)
          (uint32_bytes (counter / 2 ^ 32) ++ uint32_bytes (counter % 2 ^ 32)) in
      pad_start digits (decimal (truncated sig % 10 ^ digits))

  -- The loop over the counters from `counter` on, `left` of them after the first.
  unfoldable pub look_ahead : List ℕ → ℕ → List ℕ → ℕ → List ℕ → ℕ → ℕ → Bool × ℕ
  unfolding compute_hotp
  look_ahead secret stored algorithm digits clean counter zero =
      if text_eq (compute_hotp secret counter algorithm digits) clean
      then (true, counter + 1)
      else (false, stored)
  look_ahead secret stored algorithm digits clean counter (suc left) =
      let later = look_ahead secret stored algorithm digits clean (counter + 1) left in
      if text_eq (compute_hotp secret counter algorithm digits) clean
      then (true, counter + 1)
      else later

  -- `ok` and `nextCounter`
  unfoldable pub verify_hotp : List ℕ → ℕ → List ℕ → ℕ → List ℕ → ℕ → Bool × ℕ
  unfolding look_ahead
  verify_hotp secret stored token lookahead algorithm digits =
      let clean = without_spaces token in
      if has_digits digits clean
      then look_ahead secret stored algorithm digits clean stored lookahead
      else (false, stored)
