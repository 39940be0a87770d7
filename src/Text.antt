-- ===== src/Text.antt =====
-- Strings of the web client: a JavaScript string is the list of its UTF-16 code units. The
-- methods of `String` and `Array` that the modelled code calls, and the text encoder, which the
-- browser supplies (TextEncoder, TextDecoder).
mod Equality
pub mod Rows
pub use Equality.*
use Prim.Native.Char.{code}
use Prim.Native.String.{String}
use mathlib.Core.List.{reverse}
use pwdnow_password_manager.Prelude.{
  ℕ, suc, ◌+◌, ◌≡◌, Bool, true, false, ◌&&◌, ◌||◌, List, [], ◌∷◌, ◌++◌, map, ltb, leb, ◌==◌,
  if◌then◌else◌, any, all,
}

-- A string literal.
abbrev pub text : String → List ℕ
text String.[] = []
text (String.◌∷◌ c s) = code c ∷ text s

-- `s.includes(c)` for a single character
abbrev pub includes : ℕ → List ℕ → Bool
includes c s = any (λ d. d == c) s

-- `s.startsWith(prefix)`
unfoldable pub starts_with : List ℕ → List ℕ → Bool
starts_with [] s = true
starts_with (c ∷ p) [] = false
starts_with (c ∷ p) (d ∷ s) = c == d && starts_with p s

-- `s.includes(part)`
unfoldable pub contains : List ℕ → List ℕ → Bool
unfolding starts_with
contains part [] = starts_with part []
contains part (c ∷ s) = starts_with part (c ∷ s) || contains part s

-- `parts.join(c)`
unfoldable pub join : ℕ → List (List ℕ) → List ℕ
join c [] = []
join c (s ∷ []) = s
join c (s ∷ t ∷ ss) = s ++ (c ∷ join c (t ∷ ss))

-- one more character in front of the first part
abbrev pub push_front : ℕ → List (List ℕ) → List (List ℕ)
push_front d [] = (d ∷ []) ∷ []
push_front d (p ∷ ps) = (d ∷ p) ∷ ps

-- `s.split(c)`
unfoldable pub split : ℕ → List ℕ → List (List ℕ)
split c [] = [] ∷ []
split c (d ∷ s) = if d == c then [] ∷ split c s else push_front d (split c s)

-- White space and line ends of ECMAScript.
unfoldable pub is_space : ℕ → Bool
is_space c =
    (leb 9 c && leb c 13)
    || c == 0x20
    || c == 0xa0
    || c == 0x1680
    || (leb 0x2000 c && leb c 0x200a)
    || c == 0x2028
    || c == 0x2029
    || c == 0x202f
    || c == 0x205f
    || c == 0x3000
    || c == 0xfeff

unfoldable pub trim_start : List ℕ → List ℕ
trim_start [] = []
trim_start (c ∷ s) = if is_space c then trim_start s else c ∷ s

-- `s.trim()`
unfoldable pub trim : List ℕ → List ℕ
trim s = reverse (trim_start (reverse (trim_start s)))

-- Every surrogate stands in a pair; `high` says that the last unit was a high surrogate.
unfoldable pub is_well_formed : Bool → List ℕ → Bool
is_well_formed high [] = if high then false else true
is_well_formed high (c ∷ s) =
    let rest = is_well_formed (leb 0xd800 c && leb c 0xdbff) s in
    (if high then leb 0xdc00 c && leb c 0xdfff else ltb c 0xdc00 || (leb 0xe000 c && leb c 0xffff))
    && rest

-- The strings that survive encoding and decoding: well formed, with no leading byte order mark.
unfoldable pub is_plain : List ℕ → Bool
unfolding is_well_formed
is_plain [] = true
is_plain (c ∷ s) = (if c == 0xfeff then false else true) && is_well_formed false (c ∷ s)

-- TextEncoder and TextDecoder.
pub record TextCodec : Type 0 where
  pub encode : List ℕ → List ℕ
  pub decode : List ℕ → List ℕ
  pub decode-encode : (s : List ℕ) → is_plain s ≡ true → decode (encode s) ≡ s
