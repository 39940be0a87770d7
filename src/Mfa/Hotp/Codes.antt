-- ===== src/Mfa/Hotp/Codes.antt =====
-- The shape of a code.
use native.Mathlib.Nat.{pow-suc, one-le-pow, mod-lt}
use pwdnow_password_manager.Prelude.{
  ℕ, zero, suc, ◌+◌, ◌-◌, ◌/◌, ◌%◌, ◌^◌, ◌≤◌, ◌<◌, ◌≡◌, refl, List, [], ◌∷◌, ◌++◌, Bool, true, ltb,
  length, length-append, length-replicate, arith, all, eq→==, replicate, Bool-cases, inl, inr,
}
use pwdnow_password_manager.Mfa.Base32.{UpperCase}
use pwdnow_password_manager.Mfa.Hotp.{
  Hmac, decimal_loop, decimal, pad_start, compute_hotp, has_digits, is_digit,
}

length-decimal_loop : (fuel n d : ℕ) → n < 10 ^ (suc d) → length (decimal_loop fuel n) ≤ suc d
unfolding decimal_loop
length-decimal_loop zero n d h = omega arith
length-decimal_loop (suc fuel) n zero h =
    let small : ltb n 10 ≡ true = ground arith in rw (small) (omega arith)
length-decimal_loop (suc fuel) n (suc d) h =
    let ten = pow-suc 10 (suc d) in
    let rest = length-decimal_loop fuel (n / 10) d (omega arith) in
    let sum = length-append (decimal_loop fuel (n / 10)) ((48 + n % 10) ∷ []) in
    elim (Bool-cases (ltb n 10)) [
      | inl one ↦ rw (one) (omega arith)
      | inr more ↦ rw (more) (omega arith)
    ]

all_append :
    (p : ℕ → Bool) (xs ys : List ℕ) → all p xs ≡ true → all p ys ≡ true → all p (xs ++ ys) ≡ true
all_append p [] ys h h' = h'
all_append p (x ∷ xs) ys h h' = ground (arith, all_append p xs ys)

digit-IsDigit : (n : ℕ) → n < 10 → is_digit (48 + n) ≡ true
digit-IsDigit n h = ground arith

decimal_loop_digits : (fuel n : ℕ) → all is_digit (decimal_loop fuel n) ≡ true
unfolding decimal_loop
decimal_loop_digits zero n = refl
decimal_loop_digits (suc fuel) n = elim (Bool-cases (ltb n 10)) [
  | inl one ↦ rw (one) (rw (digit-IsDigit n (ground arith)) refl)
  | inr more ↦ rw (more) (
      all_append is_digit (decimal_loop fuel (n / 10)) ((48 + n % 10) ∷ [])
        (decimal_loop_digits fuel (n / 10)) (rw (digit-IsDigit (n % 10) (omega arith)) refl))
]

zeros_digits : (n : ℕ) → all is_digit (replicate n 48) ≡ true
zeros_digits zero = refl
zeros_digits (suc n) = zeros_digits n

pub padded_digits :
    (d n : ℕ) → n < 10 ^ (suc d) → has_digits (suc d) (pad_start (suc d) (decimal n)) ≡ true
padded_digits d n h =
    let short = length-decimal_loop (suc n) n d h in
    let zeros = suc d - length (decimal n) in
    let shape =
      all_append is_digit (replicate zeros 48) (decimal n) (zeros_digits zeros)
        (decimal_loop_digits (suc n) n) in
    let full : length (pad_start (suc d) (decimal n)) ≡ suc d =
      omega (
        arith,
        length-append (replicate zeros 48) (decimal n),
        length-replicate {A = ℕ} zeros 48,
      ) in
    rw (full, shape, eq→== (suc d) (suc d) refl) refl

rem_lt : (d x : ℕ) → x % 10 ^ suc d < 10 ^ suc d
rem_lt d x = mod-lt x (omega (arith, one-le-pow (suc d) 10))

-- A code has as many decimal digits as asked for, so a token that is the code passes the test of its
-- shape: for any secret, counter and algorithm, if at least one digit is asked for.
pub has_digits-compute_hotp :
    (browser : UpperCase) (hmac : Hmac) (secret : List ℕ) (counter : ℕ) (algorithm : List ℕ)
    (digits : ℕ)
    → 1 ≤ digits
    → has_digits digits (compute_hotp browser hmac secret counter algorithm digits) ≡ true
unfolding compute_hotp
has_digits-compute_hotp browser hmac secret counter algorithm zero h = absurd (omega arith)
has_digits-compute_hotp browser hmac secret counter algorithm (suc d) h =
    padded_digits d _ (rem_lt d _)
