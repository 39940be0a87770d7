-- ===== src/CardUtils/Examples.antt =====
-- The theorems on web/src/utils/cardUtils.ts at concrete inputs.
use pwdnow_password_manager.Prelude.{
  ℕ, ◌-◌, ◌≡◌, ◌≢◌, refl, [], ◌∷◌, ◌++◌, some, true, false, length, take, drop, replicate, arith,
}
use pwdnow_password_manager.Text.{text}
use pwdnow_password_manager.CardUtils.{
  is_digit, luhn_digit, luhn_loop, luhn_check, amex, groups_of, format_pan, mask_pan,
  is_pan_complete, detect_card_network, visa, prefix, network_of, parse_int,
}
use pwdnow_password_manager.CardUtils.Luhn.{luhn_check-one_digit}
use pwdnow_password_manager.CardUtils.Formatting.{
  unspaced, sum, unspaced-format_pan, unspaced-mask_pan,
}

-- 4111 1111 1111 1111 passes the check.
valid : luhn_check (b'4' ∷ text "111 1111 1111 1111") ≡ true
unfolding is_digit luhn_digit luhn_loop luhn_check
valid = refl

visa_detected : detect_card_network (text "4111 1111 1111 1111") ≡ some visa
unfolding is_digit parse_int prefix network_of detect_card_network
visa_detected = refl

digit_4 : is_digit b'4' ≡ true
unfolding is_digit
digit_4 = refl

digit_5 : is_digit b'5' ≡ true
unfolding is_digit
digit_5 = refl

differ : ◌≢◌ {A = ℕ} b'4' b'5'
differ e = omega arith

luhn_check-one_digit_example : luhn_check ([] ++ b'5' ∷ text "111 1111 1111 1111") ≡ false
luhn_check-one_digit_example =
    luhn_check-one_digit [] (text "111 1111 1111 1111") b'4' b'5' digit_4 digit_5 differ valid

unspaced-format_pan_example :
    unspaced (format_pan (text "378282246310005") (some amex))
    ≡ unspaced (take (sum (groups_of (some amex))) (text "378282246310005"))
unspaced-format_pan_example =
    unspaced-format_pan (text "378282246310005") (some amex)
      (omega arith, (omega arith, (omega arith, tt)))

unspaced-mask_pan_example :
    unspaced (mask_pan (text "4111111111111767") 3)
    ≡ unspaced (
        take 16 (
          replicate (length (text "4111111111111767") - 3) b'X'
          ++ drop (length (text "4111111111111767") - 3) (text "4111111111111767")))
unspaced-mask_pan_example = unspaced-mask_pan (text "4111111111111767") 3

complete : is_pan_complete (text "378282246310005") (some amex) 16 ≡ true
unfolding is_digit is_pan_complete
complete = refl
