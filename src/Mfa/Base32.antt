-- ===== src/Mfa/Base32.antt =====
-- Base32 of secrets: base32Encode and base32Decode of web/src/utils/mfa.ts. `value` is an integer
-- of 32 bits, which the shifts wrap around.
pub mod RoundTrip
use native.Mathlib.Numerals.{unary_clauses}
use pwdnow_password_manager.Prelude.{
  ℕ, zero, suc, ◌+◌, ◌-◌, ◌*◌, ◌/◌, ◌%◌, ◌^◌, ◌≤◌, ◌<◌, ◌≡◌, refl, ◌∙◌, sym, ap, List, [], ◌∷◌,
  ◌++◌, Bool, true, false, ◌||◌, ◌&&◌, not, Option, none, some, ltb, leb, ◌==◌, if◌then◌else◌,
  length, arith, Bool-cases, inl, inr, get_or, all,
}
use mathlib.Core.List.{reverse}
use pwdnow_password_manager.Text.{text}

abbrev pub b32_chars : List ℕ
b32_chars = text "ABCDEFGHIJKLMNOPQRSTUVWXYZ234567"

-- `B32_CHARS[d]` and `alpha.indexOf(c)`
unfoldable pub char_of : ℕ → ℕ
char_of d = get_or b32_chars d 0

unfoldable pub index_of : ℕ → List ℕ → Option ℕ
index_of c [] = none
index_of c (d ∷ ds) = let rest = index_of c ds in if d == c then some 0 else next_index rest
  where
    next_index : Option ℕ → Option ℕ
    next_index none = none
    next_index (some i) = some (suc i)

-- `(value >>> (bits - 5)) & 31`
abbrev pub top_digit : ℕ → ℕ → ℕ
top_digit bits value = value / 2 ^ (bits - 5) % 32

-- The inner loop: at most two digits are due, since a byte meets at most four bits.
unfoldable pub flush_digits : ℕ → ℕ → ℕ → List ℕ × ℕ
unfolding char_of
flush_digits zero bits value = ([], bits)
flush_digits (suc fuel) bits value =
    let (rest, left) = flush_digits fuel (bits - 5) value in
    if leb 5 bits then (char_of (top_digit bits value) ∷ rest, left) else ([], bits)

unfoldable pub encode_loop : ℕ → ℕ → List ℕ → List ℕ
unfolding char_of flush_digits
encode_loop bits value [] =
    if ltb 0 bits then char_of (value * 2 ^ (5 - bits) % 2 ^ 32 % 32) ∷ [] else []
encode_loop bits value (byte ∷ bytes) =
    let value' = value * 256 % 2 ^ 32 + byte in
    let (digits, left) = flush_digits (bits + 8) (bits + 8) value' in
    digits ++ encode_loop left value' bytes

unfoldable pub base32_encode : List ℕ → List ℕ
unfolding encode_loop
base32_encode bytes = encode_loop 0 0 bytes

unfoldable pub decode_loop : ℕ → ℕ → List ℕ → List ℕ
unfolding index_of
decode_loop bits value [] = []
decode_loop bits value (ch ∷ s) = elim (index_of ch b32_chars) [
  | none ↦ decode_loop bits value s
  | some idx ↦
      let value' = value * 32 % 2 ^ 32 + idx in
      let kept = decode_loop (bits + 5 - 8) value' s in
      let waiting = decode_loop (bits + 5) value' s in
      if leb 8 (bits + 5) then value' / 2 ^ (bits + 5 - 8) % 256 ∷ kept else waiting
]

-- `s.replace(/=+$/, '')`
unfoldable pub strip_padding : List ℕ → List ℕ
strip_padding [] = []
strip_padding (c ∷ s) =
    let rest = strip_padding s in
    if c == 0x3d then (elim rest [ [] ↦ [] | (d ∷ ds) ↦ c ∷ d ∷ ds ]) else c ∷ rest

-- `toUpperCase` of the browser: it leaves capitals and digits as they are.
abbrev pub is_capital_or_digit : ℕ → Bool
is_capital_or_digit c = (leb 65 c && leb c 90) || (leb 48 c && leb c 57)

pub record UpperCase : Type 0 where
  pub to_upper : List ℕ → List ℕ
  pub to_upper_upper : (s : List ℕ) → all is_capital_or_digit s ≡ true → to_upper s ≡ s

unfoldable pub base32_decode : UpperCase → List ℕ → List ℕ
unfolding strip_padding decode_loop
base32_decode browser s = decode_loop 0 0 (strip_padding (browser.to_upper s))
