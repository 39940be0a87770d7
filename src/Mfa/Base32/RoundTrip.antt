-- ===== src/Mfa/Base32/RoundTrip.antt =====
-- Decoding an encoded secret.
use pwdnow_password_manager.Prelude.{
  ℕ, zero, suc, ◌+◌, ◌-◌, ◌*◌, ◌/◌, ◌%◌, ◌^◌, ◌<◌, ◌≡◌, refl, ◌∙◌, ap, List, [], ◌∷◌, ◌++◌, Bool,
  true, false, ◌&&◌, not, none, some, ltb, leb, ◌==◌, if◌then◌else◌, arith, Bool-cases, inl, inr,
  all, every, every-at, &&_true,
}
use pwdnow_password_manager.Mfa.Base32.{
  b32_chars, char_of, index_of, top_digit, flush_digits, encode_loop, base32_encode, decode_loop,
  strip_padding, is_capital_or_digit, UpperCase, base32_decode,
}

digit_ok : ℕ → Bool
digit_ok d =
    is_capital_or_digit (char_of d)
    && not (char_of d == 0x3d)
    && (elim (index_of (char_of d) b32_chars) [ none ↦ false | some i ↦ i == d ])

digits_ok : every digit_ok 32 ≡ true
unfolding every digit_ok char_of index_of
digits_ok = refl

index_of-char_of : (d : ℕ) → d < 32 → index_of (char_of d) b32_chars ≡ some d
unfolding digit_ok
index_of-char_of d h = ground (arith, every-at digit_ok d 32 h digits_ok)

-- What the decoder does with one digit.
decode-digit :
    (bits value d : ℕ) (s : List ℕ)
    → d < 32
    → decode_loop bits value (char_of d ∷ s) ≡ (
        if leb 8 (bits + 5)
        then (value * 32 % 2 ^ 32 + d) / 2 ^ (bits + 5 - 8) % 256
          ∷ decode_loop (bits + 5 - 8) (value * 32 % 2 ^ 32 + d) s
        else decode_loop (bits + 5) (value * 32 % 2 ^ 32 + d) s)
unfolding decode_loop
decode-digit bits value d s h = rw (index_of-char_of d h, decode_loop) refl

-- The values of the two loops after a byte and after a digit.
abbrev next_in : ℕ → ℕ → ℕ
next_in v b = v * 256 % 2 ^ 32 + b

abbrev next_out : ℕ → ℕ → ℕ
next_out w d = w * 32 % 2 ^ 32 + d

-- The byte that `e` bits of `v` wait to complete in `w`.
abbrev waiting : ℕ → ℕ → ℕ → ℕ
waiting e v w = (w * 2 ^ e + v % 2 ^ e) % 256

-- Each lemma is about one number of waiting bits: 0, 3, 1, 4, 2 in the order they come.
after-0 :
    (v w b : ℕ) → b < 256 → waiting 3 (next_in v b) (next_out w (top_digit 8 (next_in v b))) ≡ b
after-0 v w b h = omega arith

out-3 :
    (v w b : ℕ) → b < 256 → next_out w (top_digit 11 (next_in v b)) / 2 ^ 2 % 256 ≡ waiting 3 v w
out-3 v w b h = omega arith

after-3 :
    (v w b : ℕ)
    → b < 256
    → waiting 1
        (next_in v b)
        (next_out (next_out w (top_digit 11 (next_in v b))) (top_digit 6 (next_in v b)))
      ≡ b
after-3 v w b h = omega arith

out-1 : (v w b : ℕ) → b < 256 → next_out w (top_digit 9 (next_in v b)) / 2 ^ 4 % 256 ≡ waiting 1 v w
out-1 v w b h = omega arith

after-1 :
    (v w b : ℕ) → b < 256 → waiting 4 (next_in v b) (next_out w (top_digit 9 (next_in v b))) ≡ b
after-1 v w b h = omega arith

out-4 :
    (v w b : ℕ) → b < 256 → next_out w (top_digit 12 (next_in v b)) / 2 ^ 1 % 256 ≡ waiting 4 v w
out-4 v w b h = omega arith

after-4 :
    (v w b : ℕ)
    → b < 256
    → waiting 2
        (next_in v b)
        (next_out (next_out w (top_digit 12 (next_in v b))) (top_digit 7 (next_in v b)))
      ≡ b
after-4 v w b h = omega arith

out-2 :
    (v w b : ℕ) → b < 256 → next_out w (top_digit 10 (next_in v b)) / 2 ^ 3 % 256 ≡ waiting 2 v w
out-2 v w b h = omega arith

-- Here the second digit completes the byte itself.
after-2 :
    (v w b : ℕ)
    → b < 256
    → next_out (next_out w (top_digit 10 (next_in v b))) (top_digit 5 (next_in v b)) / 2 ^ 0 % 256
      ≡ b
after-2 v w b h = omega arith

-- The digit for the bits that are left at the end.
last_digit : ℕ → ℕ → ℕ
last_digit e v = v * 2 ^ (5 - e) % 2 ^ 32 % 32

end-3 : (v w : ℕ) → next_out w (last_digit 3 v) / 2 ^ 2 % 256 ≡ waiting 3 v w
unfolding last_digit
end-3 v w = omega arith

end-1 : (v w : ℕ) → next_out w (last_digit 1 v) / 2 ^ 4 % 256 ≡ waiting 1 v w
unfolding last_digit
end-1 v w = omega arith

end-4 : (v w : ℕ) → next_out w (last_digit 4 v) / 2 ^ 1 % 256 ≡ waiting 4 v w
unfolding last_digit
end-4 v w = omega arith

end-2 : (v w : ℕ) → next_out w (last_digit 2 v) / 2 ^ 3 % 256 ≡ waiting 2 v w
unfolding last_digit
end-2 v w = omega arith

abbrev all_bytes : List ℕ → Bool
all_bytes bs = all (λ b. ltb b 256) bs

-- The decoder, 8 - e bits ahead, gives back the waiting byte and the bytes.
abbrev Follows : ℕ → List ℕ → Type 0
Follows e bs = (v w : ℕ) → decode_loop (8 - e) w (encode_loop e v bs) ≡ waiting e v w ∷ bs

abbrev FollowsAll : List ℕ → Type 0
FollowsAll bs =
    ((v w : ℕ) → decode_loop 0 w (encode_loop 0 v bs) ≡ bs)
    × Follows 3 bs
    × Follows 1 bs
    × Follows 4 bs
    × Follows 2 bs

follow_end : FollowsAll []
unfolding encode_loop decode_loop last_digit
follow_end = (
  λ v w. refl,
  λ v w. decode-digit 5 w (last_digit 3 v) [] (omega arith) ∙ ap (λ b. b ∷ []) (end-3 v w),
  λ v w. decode-digit 7 w (last_digit 1 v) [] (omega arith) ∙ ap (λ b. b ∷ []) (end-1 v w),
  λ v w. decode-digit 4 w (last_digit 4 v) [] (omega arith) ∙ ap (λ b. b ∷ []) (end-4 v w),
  λ v w. decode-digit 6 w (last_digit 2 v) [] (omega arith) ∙ ap (λ b. b ∷ []) (end-2 v w),
)

follow-0 :
    (b : ℕ) (bs : List ℕ)
    → b < 256
    → Follows 3 bs
    → (v w : ℕ) → decode_loop 0 w (encode_loop 0 v (b ∷ bs)) ≡ b ∷ bs
unfolding encode_loop flush_digits
follow-0 b bs small ih v w =
    decode-digit 0 w (top_digit 8 (next_in v b)) _ (omega arith)
    ∙ ih (next_in v b) (next_out w (top_digit 8 (next_in v b)))
    ∙ ap (λ c. c ∷ bs) (after-0 v w b small)

follow-3 : (b : ℕ) (bs : List ℕ) → b < 256 → Follows 1 bs → Follows 3 (b ∷ bs)
unfolding encode_loop flush_digits
follow-3 b bs small ih v w =
    let d = top_digit 11 (next_in v b) in
    let d' = top_digit 6 (next_in v b) in
    decode-digit 5 w d _ (omega arith)
    ∙ ap (λ r. next_out w d / 2 ^ 2 % 256 ∷ r)
        (decode-digit 2 (next_out w d) d' _ (omega arith)
          ∙ ih (next_in v b) (next_out (next_out w d) d')
          ∙ ap (λ c. c ∷ bs) (after-3 v w b small))
    ∙ ap (λ c. c ∷ b ∷ bs) (out-3 v w b small)

follow-1 : (b : ℕ) (bs : List ℕ) → b < 256 → Follows 4 bs → Follows 1 (b ∷ bs)
unfolding encode_loop flush_digits
follow-1 b bs small ih v w =
    let d = top_digit 9 (next_in v b) in
    decode-digit 7 w d _ (omega arith)
    ∙ ap (λ r. next_out w d / 2 ^ 4 % 256 ∷ r)
        (ih (next_in v b) (next_out w d) ∙ ap (λ c. c ∷ bs) (after-1 v w b small))
    ∙ ap (λ c. c ∷ b ∷ bs) (out-1 v w b small)

follow-4 : (b : ℕ) (bs : List ℕ) → b < 256 → Follows 2 bs → Follows 4 (b ∷ bs)
unfolding encode_loop flush_digits
follow-4 b bs small ih v w =
    let d = top_digit 12 (next_in v b) in
    let d' = top_digit 7 (next_in v b) in
    decode-digit 4 w d _ (omega arith)
    ∙ ap (λ r. next_out w d / 2 ^ 1 % 256 ∷ r)
        (decode-digit 1 (next_out w d) d' _ (omega arith)
          ∙ ih (next_in v b) (next_out (next_out w d) d')
          ∙ ap (λ c. c ∷ bs) (after-4 v w b small))
    ∙ ap (λ c. c ∷ b ∷ bs) (out-4 v w b small)

follow-2 :
    (b : ℕ) (bs : List ℕ)
    → b < 256
    → ((v w : ℕ) → decode_loop 0 w (encode_loop 0 v bs) ≡ bs)
    → Follows 2 (b ∷ bs)
unfolding encode_loop flush_digits
follow-2 b bs small ih v w =
    let d = top_digit 10 (next_in v b) in
    let d' = top_digit 5 (next_in v b) in
    decode-digit 6 w d _ (omega arith)
    ∙ ap (λ r. next_out w d / 2 ^ 3 % 256 ∷ r)
        (decode-digit 3 (next_out w d) d' _ (omega arith)
          ∙ ap (λ r. next_out (next_out w d) d' / 2 ^ 0 % 256 ∷ r)
              (ih (next_in v b) (next_out (next_out w d) d'))
          ∙ ap (λ c. c ∷ bs) (after-2 v w b small))
    ∙ ap (λ c. c ∷ b ∷ bs) (out-2 v w b small)

follow : (bs : List ℕ) → all_bytes bs ≡ true → FollowsAll bs
follow [] h = follow_end
follow (b ∷ bs) h =
    let (small, rest) = &&_true (ltb b 256) (all_bytes bs) h in
    let b_small : b < 256 = ground arith in
    let (i0, i3, i1, i4, i2) = follow bs rest in
    (
      follow-0 b bs b_small i3,
      follow-3 b bs b_small i1,
      follow-1 b bs b_small i4,
      follow-4 b bs b_small i2,
      follow-2 b bs b_small i0,
    )

-- What an encoder writes: capitals and digits, so no padding, and upper case already.
written_ok : ℕ → Bool
written_ok c = is_capital_or_digit c && not (c == 0x3d)

char_ok : (d : ℕ) → d < 32 → written_ok (char_of d) ≡ true
unfolding digit_ok written_ok
char_ok d h = ground (arith, every-at digit_ok d 32 h digits_ok)

all_append :
    (p : ℕ → Bool) (xs ys : List ℕ) → all p xs ≡ true → all p ys ≡ true → all p (xs ++ ys) ≡ true
all_append p [] ys h h' = h'
all_append p (x ∷ xs) ys h h' = ground (arith, all_append p xs ys)

flush_digits_ok : (fuel bits v : ℕ) → all written_ok (flush_digits fuel bits v).0 ≡ true
unfolding flush_digits
flush_digits_ok zero bits v = refl
flush_digits_ok (suc fuel) bits v =
    let rest = flush_digits_ok fuel (bits - 5) v in
    let ok = char_ok (top_digit bits v) (omega arith) in
    elim (Bool-cases (leb 5 bits)) [
      | inl more ↦ rw (more) (ground arith)
      | inr done ↦ rw (done) refl
    ]

encode_loop_ok : (bits v : ℕ) (bs : List ℕ) → all written_ok (encode_loop bits v bs) ≡ true
unfolding encode_loop
encode_loop_ok bits v [] =
    let ok = char_ok (v * 2 ^ (5 - bits) % 2 ^ 32 % 32) (omega arith) in
    elim (Bool-cases (ltb 0 bits)) [
      | inl more ↦ rw (more) (ground arith)
      | inr done ↦ rw (done) refl
    ]
encode_loop_ok bits v (b ∷ bs) =
    all_append written_ok _ _ (flush_digits_ok (bits + 8) (bits + 8) (next_in v b))
      (encode_loop_ok (flush_digits (bits + 8) (bits + 8) (next_in v b)).1 (next_in v b) bs)

strip_padding-written : (s : List ℕ) → all written_ok s ≡ true → strip_padding s ≡ s
unfolding strip_padding written_ok
strip_padding-written [] h = refl
strip_padding-written (c ∷ s) h =
    let other : (c == 0x3d) ≡ false = ground arith in
    rw (other, strip_padding-written s (ground arith)) refl

capitals : (s : List ℕ) → all written_ok s ≡ true → all is_capital_or_digit s ≡ true
unfolding written_ok
capitals [] h = refl
capitals (c ∷ s) h = ground (arith, capitals s)

-- Decoding an encoded secret gives its bytes back, whatever their number, although encoding leaves
-- the padding out and the shifts wrap around at 32 bits.
pub base32_decode-base32_encode :
    (browser : UpperCase) (bytes : List ℕ)
    → all (λ b. ltb b 256) bytes ≡ true
    → base32_decode browser (base32_encode bytes) ≡ bytes
unfolding base32_decode base32_encode
base32_decode-base32_encode browser bytes small =
    let ok = encode_loop_ok 0 0 bytes in
    rw
      (
        browser.to_upper_upper (encode_loop 0 0 bytes) (capitals (encode_loop 0 0 bytes) ok),
        strip_padding-written (encode_loop 0 0 bytes) ok,
      )
      ((follow bytes small).0 0 0)
