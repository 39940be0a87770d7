-- ===== src/CardUtils.antt =====
-- Payment cards: web/src/utils/cardUtils.ts. A string is the list of its UTF-16 code units.
pub mod Luhn
pub mod Formatting
pub mod Networks
mod Examples
use mathlib.Core.List.{reverse}
use pwdnow_password_manager.Text.{text, join}
use pwdnow_password_manager.Prelude.{
  ℕ, ◌+◌, ◌-◌, ◌*◌, ◌%◌, List, [], ◌∷◌, ◌++◌, Bool, true, false, not, ◌&&◌, Option, none, some,
  length, take, drop, replicate, keep, any, ltb, leb, ◌==◌, if◌then◌else◌, ◌||◌, max,
}

unfoldable pub is_digit : ℕ → Bool
is_digit c = leb 48 c && leb c 57

-- `s.replace(/\D/g, '')`
abbrev pub only_digits : List ℕ → List ℕ
only_digits s = keep is_digit s

-- What the digit `d` adds to the sum.
unfoldable pub luhn_digit : Bool → ℕ → ℕ
luhn_digit is_even d = if is_even then (if ltb 9 (d * 2) then d * 2 - 9 else d * 2) else d

-- The loop of `luhnCheck`, over the digits from the last to the first.
unfoldable pub luhn_loop : Bool → ℕ → List ℕ → ℕ
unfolding luhn_digit
luhn_loop is_even sum [] = sum
luhn_loop is_even sum (c ∷ cs) = luhn_loop (not is_even) (sum + luhn_digit is_even (c - 48)) cs

unfoldable pub luhn_check : List ℕ → Bool
unfolding is_digit luhn_loop
luhn_check raw_digits =
    let d = only_digits raw_digits in
    if ltb (length d) 2 then false else luhn_loop false 0 (reverse d) % 10 == 0

-- The chunks of `formatPan`: the loop ends at the first empty one.
unfoldable pub pan_chunks : List ℕ → List ℕ → List (List ℕ)
pan_chunks [] digits = []
pan_chunks (len ∷ groups) [] = []
pan_chunks (len ∷ groups) (d ∷ digits) =
    let rest = pan_chunks groups (drop len (d ∷ digits)) in
    if len == 0 then [] else take len (d ∷ digits) ∷ rest

pub record CardNetwork : Type 0 where
  pub id : List ℕ
  pub label : List ℕ
  pub bg_color : List ℕ
  pub text_color : List ℕ
  pub lengths : List ℕ
  pub cvv_length : ℕ
  pub format : List ℕ

abbrev pub visa : CardNetwork
visa = record {
  id = text "visa";
  label = text "VISA";
  bg_color = text "#1a1aff";
  text_color = text "#fff";
  lengths = 13 ∷ 16 ∷ [];
  cvv_length = 3;
  format = 4 ∷ 4 ∷ 4 ∷ 4 ∷ [];
}

abbrev pub mastercard : CardNetwork
mastercard = record {
  id = text "mastercard";
  label = text "MASTERCARD";
  bg_color = text "#eb001b";
  text_color = text "#fff";
  lengths = 16 ∷ [];
  cvv_length = 3;
  format = 4 ∷ 4 ∷ 4 ∷ 4 ∷ [];
}

abbrev pub amex : CardNetwork
amex = record {
  id = text "amex";
  label = text "AMEX";
  bg_color = text "#2d7dd2";
  text_color = text "#fff";
  lengths = 15 ∷ [];
  cvv_length = 4;
  format = 4 ∷ 6 ∷ 5 ∷ [];
}

abbrev pub discover : CardNetwork
discover = record {
  id = text "discover";
  label = text "DISCOVER";
  bg_color = text "#f97316";
  text_color = text "#fff";
  lengths = 16 ∷ [];
  cvv_length = 3;
  format = 4 ∷ 4 ∷ 4 ∷ 4 ∷ [];
}

abbrev pub jcb : CardNetwork
jcb = record {
  id = text "jcb";
  label = text "JCB";
  bg_color = text "#10b981";
  text_color = text "#fff";
  lengths = 16 ∷ 17 ∷ 18 ∷ 19 ∷ [];
  cvv_length = 3;
  format = 4 ∷ 4 ∷ 4 ∷ 4 ∷ [];
}

abbrev pub diners : CardNetwork
diners = record {
  id = text "diners";
  label = text "DINERS";
  bg_color = text "#6366f1";
  text_color = text "#fff";
  lengths = 14 ∷ [];
  cvv_length = 3;
  format = 4 ∷ 6 ∷ 4 ∷ [];
}

abbrev pub unionpay : CardNetwork
unionpay = record {
  id = text "unionpay";
  label = text "UNIONPAY";
  bg_color = text "#f59e0b";
  text_color = text "#fff";
  lengths = 16 ∷ 17 ∷ 18 ∷ 19 ∷ [];
  cvv_length = 3;
  format = 4 ∷ 4 ∷ 4 ∷ 4 ∷ [];
}

abbrev pub maestro : CardNetwork
maestro = record {
  id = text "maestro";
  label = text "MAESTRO";
  bg_color = text "#ec4899";
  text_color = text "#fff";
  lengths = 12 ∷ 13 ∷ 14 ∷ 15 ∷ 16 ∷ 17 ∷ 18 ∷ 19 ∷ [];
  cvv_length = 3;
  format = 4 ∷ 4 ∷ 4 ∷ 4 ∷ [];
}

abbrev pub rupay : CardNetwork
rupay = record {
  id = text "rupay";
  label = text "RUPAY";
  bg_color = text "#8b5cf6";
  text_color = text "#fff";
  lengths = 16 ∷ [];
  cvv_length = 3;
  format = 4 ∷ 4 ∷ 4 ∷ 4 ∷ [];
}

-- `parseInt(d, 10)` of digits
unfoldable pub parse_int : ℕ → List ℕ → ℕ
parse_int v [] = v
parse_int v (c ∷ cs) = parse_int (v * 10 + (c - 48)) cs

-- The number of the first n digits; `none` is the source's -1 for a shorter text.
unfoldable pub prefix : ℕ → List ℕ → Option ℕ
unfolding parse_int
prefix n d = if ltb (length d) n then none else some (parse_int 0 (take n d))

-- `p >= lo && p <= hi`
abbrev pub between : ℕ → ℕ → Option ℕ → Bool
between lo hi none = false
between lo hi (some v) = leb lo v && leb v hi

abbrev pub starts_with_four : List ℕ → Bool
starts_with_four [] = false
starts_with_four (c ∷ cs) = c == b'4'

-- The tests of `detectCardNetwork` in their order.
unfoldable pub network_of : List ℕ → Option ℕ → Option ℕ → Option ℕ → Option ℕ → Option CardNetwork
network_of d p2 p3 p4 p6 =
    if between 34 34 p2 || between 37 37 p2
    then some amex
    else if between 3528 3589 p4
    then some jcb
    else if between 300 305 p3 || between 36 36 p2 || between 38 38 p2 || between 39 39 p2
    then some diners
    else if starts_with_four d
    then some visa
    else if between 51 55 p2 || between 2221 2720 p4
    then some mastercard
    else if between 6011 6011 p4
        || between 622126 622925 p6
        || between 644 649 p3
        || between 65 65 p2
    then some discover
    else if between 62 62 p2
    then some unionpay
    else if between 508 508 p3 || between 81 81 p2 || between 82 82 p2
    then some rupay
    else if between 50 50 p2 || between 56 69 p2
    then some maestro
    else none

unfoldable pub detect_card_network : List ℕ → Option CardNetwork
unfolding is_digit prefix network_of
detect_card_network raw_pan =
    let d = only_digits raw_pan in
    if length d == 0 then none else network_of d (prefix 2 d) (prefix 3 d) (prefix 4 d) (prefix 6 d)

-- `network?.format ?? [4, 4, 4, 4]`
abbrev pub groups_of : Option CardNetwork → List ℕ
groups_of none = 4 ∷ 4 ∷ 4 ∷ 4 ∷ []
groups_of (some n) = n.format

unfoldable pub format_pan : List ℕ → Option CardNetwork → List ℕ
unfolding pan_chunks join
format_pan digits network = join 0x20 (pan_chunks (groups_of network) digits)

-- `Math.max(0, digits.length - unhideCount)` is the subtraction of ℕ.
unfoldable pub mask_pan : List ℕ → ℕ → List ℕ
unfolding format_pan
mask_pan [] unhide_count = []
mask_pan (d ∷ digits) unhide_count =
    let visible_start = length (d ∷ digits) - unhide_count in
    format_pan (replicate visible_start b'X' ++ drop visible_start (d ∷ digits)) none

-- `Math.max(...ns)` of a list that is not empty
unfoldable pub largest : List ℕ → ℕ
largest [] = 0
largest (n ∷ ns) = max n (largest ns)

-- The last argument is PAN_MAX_LENGTH, which the build's environment sets.
unfoldable pub max_pan_length : Option CardNetwork → ℕ → ℕ
unfolding largest
max_pan_length none pan_max_length = pan_max_length
max_pan_length (some n) pan_max_length = largest n.lengths

unfoldable pub is_pan_complete : List ℕ → Option CardNetwork → ℕ → Bool
unfolding is_digit
is_pan_complete raw_digits none pan_max_length = length (only_digits raw_digits) == pan_max_length
is_pan_complete raw_digits (some n) pan_max_length =
    any (λ l. l == length (only_digits raw_digits)) n.lengths
