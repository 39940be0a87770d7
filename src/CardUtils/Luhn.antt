-- ===== src/CardUtils/Luhn.antt =====
-- The Luhn check finds every wrong digit.
use mathlib.Core.List.{reverse, reverse-append, reverse-cons}
use pwdnow_password_manager.Prelude.{
  ℕ, ◌+◌, ◌-◌, ◌%◌, ◌≤◌, ◌≡◌, ◌≢◌, refl, ap, ◌∙◌, List, [], ◌∷◌, ◌++◌, append_assoc, Bool, true,
  false, not, keep, length, length-append, ltb, ◌==◌, arith, if◌then◌else◌,
}
use pwdnow_password_manager.CardUtils.{is_digit, only_digits, luhn_digit, luhn_loop, luhn_check}

-- The flag after the digits of `cs`.
flag_after : Bool → List ℕ → Bool
flag_after b [] = b
flag_after b (c ∷ cs) = flag_after (not b) cs

luhn_loop-append :
    (b : Bool) (s : ℕ) (xs ys : List ℕ)
    → luhn_loop b s (xs ++ ys) ≡ luhn_loop (flag_after b xs) (luhn_loop b s xs) ys
unfolding luhn_loop flag_after
luhn_loop-append b s [] ys = refl
luhn_loop-append b s (x ∷ xs) ys = luhn_loop-append (not b) _ xs ys

luhn_loop-start : (b : Bool) (s : ℕ) (xs : List ℕ) → luhn_loop b s xs ≡ s + luhn_loop b 0 xs
unfolding luhn_loop
luhn_loop-start b s [] = omega arith
luhn_loop-start b s (x ∷ xs) =
    let v = luhn_digit b (x - 48) in
    omega (arith, luhn_loop-start (not b) (s + v) xs, luhn_loop-start (not b) (0 + v) xs)

-- Different digits add different amounts below ten.
luhn_digit-injective :
    (b : Bool) (x y : ℕ)
    → is_digit x ≡ true
    → is_digit y ≡ true
    → x ≢ y
    → (luhn_digit b (x - 48) ≤ 9)
      × (luhn_digit b (y - 48) ≤ 9)
      × (luhn_digit b (x - 48) ≢ luhn_digit b (y - 48))
unfolding is_digit luhn_digit
luhn_digit-injective true x y hx hy ne = ground arith
luhn_digit-injective false x y hx hy ne = ground arith

keep-append : (p : ℕ → Bool) (xs ys : List ℕ) → keep p (xs ++ ys) ≡ keep p xs ++ keep p ys
keep-append p [] ys = refl
keep-append p (x ∷ xs) ys = ground (arith, keep-append p xs ys)

luhn_sum :
    (b : Bool) (xs ys : List ℕ) (x : ℕ)
    → luhn_loop b 0 (xs ++ x ∷ ys)
      ≡ luhn_loop b 0 xs
        + luhn_digit (flag_after b xs) (x - 48)
        + luhn_loop (not (flag_after b xs)) 0 ys
luhn_sum b xs ys x = luhn_loop-append b 0 xs (x ∷ ys) ∙ unfold luhn_loop in luhn_loop-start _ _ ys

-- The digits of a text around one of them, read from the last.
digits_around :
    (pre post : List ℕ) (x : ℕ)
    → is_digit x ≡ true
    → reverse (only_digits (pre ++ x ∷ post))
      ≡ reverse (only_digits post) ++ x ∷ reverse (only_digits pre)
digits_around pre post x h =
    ap reverse (keep-append is_digit pre (x ∷ post))
    ∙ rw h (
        reverse-append (only_digits pre) (x ∷ only_digits post)
        ∙ ap (λ r. r ++ reverse (only_digits pre)) (reverse-cons x (only_digits post))
        ∙ append_assoc (reverse (only_digits post)) (x ∷ []) (reverse (only_digits pre)))

length-digits_around :
    (pre post : List ℕ) (x : ℕ)
    → is_digit x ≡ true
    → length (only_digits (pre ++ x ∷ post))
      ≡ length (only_digits pre) + (length (only_digits post) + 1)
length-digits_around pre post x h =
    rw (keep-append is_digit pre (x ∷ post), h)
      (omega (arith, length-append (only_digits pre) (x ∷ only_digits post)))

-- Every wrong digit is found: if a number passes the check, then the number with one of its digits
-- replaced by another digit does not, whatever stands before and after it.
pub luhn_check-one_digit :
    (pre post : List ℕ) (x y : ℕ)
    → is_digit x ≡ true
    → is_digit y ≡ true
    → x ≢ y
    → luhn_check (pre ++ x ∷ post) ≡ true
    → luhn_check (pre ++ y ∷ post) ≡ false
unfolding luhn_check
luhn_check-one_digit pre post x y hx hy ne valid =
    let xs = reverse (only_digits post) in
    let ys = reverse (only_digits pre) in
    let (x_le, y_le, differ) = luhn_digit-injective (flag_after false xs) x y hx hy ne in
    rw (length-digits_around pre post y hy, digits_around pre post y hy, luhn_sum false xs ys y)
      (luhn_final _ _ _ _ _ x_le y_le differ (
        rw (length-digits_around pre post x hx, digits_around pre post x hx, luhn_sum false xs ys x)
          at valid))
  where
    luhn_final :
        (n k m u v : ℕ)
        → u ≤ 9
        → v ≤ 9
        → u ≢ v
        → (if ltb n 2 then false else (k + u + m) % 10 == 0) ≡ true
        → (if ltb n 2 then false else (k + v + m) % 10 == 0) ≡ false
    luhn_final n k m u v hu hv h e = ground arith
