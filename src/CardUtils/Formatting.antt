-- ===== src/CardUtils/Formatting.antt =====
-- What `formatPan` and `maskPan` show of a number.
use pwdnow_password_manager.Prelude.{
  ℕ, zero, suc, ◌+◌, ◌-◌, ◌<◌, ◌≡◌, refl, sym, ap, ◌∙◌, List, [], ◌∷◌, ◌++◌, append-nil, Bool,
  false, not, Option, none, length, take, drop, replicate, keep, All, ◌==◌, arith,
}
use pwdnow_password_manager.Text.{join}
use pwdnow_password_manager.CardUtils.{CardNetwork, pan_chunks, groups_of, format_pan, mask_pan}

abbrev not_space : ℕ → Bool
not_space c = not (c == 0x20)

-- A text without its spaces.
abbrev pub unspaced : List ℕ → List ℕ
unspaced s = keep not_space s

abbrev pub sum : List ℕ → ℕ
sum [] = 0
sum (n ∷ ns) = n + sum ns

abbrev concat : List (List ℕ) → List ℕ
concat [] = []
concat (s ∷ ss) = s ++ concat ss

unspaced-append : (xs ys : List ℕ) → unspaced (xs ++ ys) ≡ unspaced xs ++ unspaced ys
unspaced-append [] ys = refl
unspaced-append (x ∷ xs) ys = ground (arith, unspaced-append xs ys)

unspaced-join : (ss : List (List ℕ)) → unspaced (join 0x20 ss) ≡ unspaced (concat ss)
unfolding join
unspaced-join [] = refl
unspaced-join (s ∷ []) = ap unspaced (sym (append-nil s))
unspaced-join (s ∷ t ∷ ss) =
    unspaced-append s (0x20 ∷ join 0x20 (t ∷ ss))
    ∙ ap (λ r. unspaced s ++ r) (unspaced-join (t ∷ ss))
    ∙ sym (unspaced-append s (concat (t ∷ ss)))

take-nil : (n : ℕ) → take {A = ℕ} n [] ≡ []
take-nil zero = refl
take-nil (suc n) = refl

take-add : (n m : ℕ) (xs : List ℕ) → take (n + m) xs ≡ take n xs ++ take m (drop n xs)
take-add zero m xs = ap (λ k. take k xs) (omega arith)
take-add (suc n) m [] = take-nil (suc n + m) ∙ sym (take-nil m)
take-add (suc n) m (x ∷ xs) =
    let e : suc n + m ≡ suc (n + m) = omega arith in
    ap (λ k. take k (x ∷ xs)) e ∙ ap (λ r. x ∷ r) (take-add n m xs)

concat-pan_chunks :
    (groups digits : List ℕ)
    → All (λ n. 0 < n) groups
    → concat (pan_chunks groups digits) ≡ take (sum groups) digits
unfolding pan_chunks
concat-pan_chunks [] digits pos = refl
concat-pan_chunks (n ∷ groups) [] pos = sym (take-nil (sum (n ∷ groups)))
concat-pan_chunks (n ∷ groups) (d ∷ digits) pos =
    let positive : (n == 0) ≡ false = ground (arith, pos.0) in
    rw positive (
      ap (λ r. take n (d ∷ digits) ++ r) (concat-pan_chunks groups (drop n (d ∷ digits)) pos.1)
      ∙ sym (take-add n (sum groups) (d ∷ digits)))

-- But for the spaces, a formatted number is the number itself, cut after the digits that the
-- network's groups hold, if no group is empty.
pub unspaced-format_pan :
    (digits : List ℕ) (network : Option CardNetwork)
    → All (λ n. 0 < n) (groups_of network)
    → unspaced (format_pan digits network) ≡ unspaced (take (sum (groups_of network)) digits)
unfolding format_pan
unspaced-format_pan digits network pos =
    unspaced-join (pan_chunks (groups_of network) digits)
    ∙ ap unspaced (concat-pan_chunks (groups_of network) digits pos)

-- But for the spaces, the masked view has an X for every character except the last `unhide`, and
-- is cut after sixteen characters.
pub unspaced-mask_pan :
    (digits : List ℕ) (unhide : ℕ)
    → unspaced (mask_pan digits unhide)
      ≡ unspaced (
          take 16 (replicate (length digits - unhide) b'X' ++ drop (length digits - unhide) digits))
unfolding mask_pan
unspaced-mask_pan [] unhide = let e : 0 - unhide ≡ 0 = omega arith in rw e refl
unspaced-mask_pan (d ∷ digits) unhide =
    let hidden = length (d ∷ digits) - unhide in
    unspaced-format_pan (replicate hidden b'X' ++ drop hidden (d ∷ digits)) none
      (omega arith, (omega arith, (omega arith, (omega arith, tt))))
