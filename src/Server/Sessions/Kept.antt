-- ===== src/Server/Sessions/Kept.antt =====
-- How long an id stays in the list of the newest 20 (web/lib/session.js).
use pwdnow_password_manager.Prelude.{
  ℕ, suc, ◌+◌, ◌-◌, ◌≤◌, ◌≡◌, refl, ◌∙◌, subst, ap, List, [], ◌∷◌, ◌++◌, Bool, true, false, ◌||◌,
  inl, inr, Bool-cases, length, drop, leb, arith, append_assoc, length-append, drop-append,
  drop-append_le, drop-add, leb→le, leb_false→lt,
}
use pwdnow_password_manager.Text.{text_eq, text_eq_iff, text_eq_refl}
use pwdnow_password_manager.Server.Sessions.Recorded.{
  mem, others, recorded, run, fresh, others_absent, others-append, mem-append, mem-run-false,
}

-- The rest of the list behind an id, with one more.
others-around :
    (pre post : List (List ℕ)) (jti j : List ℕ)
    → text_eq jti j ≡ false
    → mem j post ≡ false
    → others j (pre ++ jti ∷ post) ++ j ∷ [] ≡ others j pre ++ jti ∷ (post ++ j ∷ [])
others-around pre post jti j other absent =
    ap (λ r. r ++ j ∷ []) (others-append j pre (jti ∷ post))
    ∙ rw (other, others_absent j post absent) (append_assoc (others j pre) (jti ∷ post) (j ∷ []))

pub recorded-around :
    (pre post : List (List ℕ)) (jti j : List ℕ)
    → text_eq jti j ≡ false
    → mem j post ≡ false
    → length post ≤ 18
    → (pre' : List (List ℕ)) × (recorded j (pre ++ jti ∷ post) ≡ pre' ++ jti ∷ (post ++ j ∷ []))
recorded-around pre post jti j other absent room =
    let front = others j pre in
    let back = jti ∷ (post ++ j ∷ []) in
    let n = length (front ++ back) - 20 in
    (
      drop n front,
      ap (λ u. drop (length u - 20) u) (others-around pre post jti j other absent)
          ∙ drop-append_le n front back
              (omega (arith, length-append front back, length-append post (j ∷ []))),
    )

pub recorded-out :
    (pre post : List (List ℕ)) (jti j : List ℕ)
    → text_eq jti j ≡ false
    → mem j post ≡ false
    → length post ≡ 19
    → recorded j (pre ++ jti ∷ post) ≡ post ++ j ∷ []
recorded-out pre post jti j other absent full =
    let front = others j pre in
    let back = jti ∷ (post ++ j ∷ []) in
    let n : length (front ++ back) - 20 ≡ length front + 1 =
      omega (arith, length-append front back, length-append post (j ∷ [])) in
    ap (λ u. drop (length u - 20) u) (others-around pre post jti j other absent)
    ∙ ap (λ m. drop m (front ++ back)) n
    ∙ drop-add (length front) 1 (front ++ back)
    ∙ ap (drop 1) (drop-append front back)

fresh-mem :
    (i : List ℕ) (seen js : List (List ℕ))
    → fresh seen js ≡ true
    → mem i seen ≡ true
    → mem i js ≡ false
fresh-mem i seen [] h there = refl
fresh-mem i seen (j ∷ js) h there = elim (Bool-cases (text_eq j i)) [
  | inl same ↦
      let e : j ≡ i = (text_eq_iff j i).0 same in
      absurd (clash (subst (λ k. mem k seen ≡ false) e (ground arith)) there)
  | inr other ↦
      rw other (
        fresh-mem i (seen ++ j ∷ []) js (ground arith) (mem-append i seen (j ∷ []) ∙ rw there refl))
]
  where
    clash : mem i seen ≡ false → mem i seen ≡ true → ⊥
    clash absent present = cc

-- An id stays for 19 further ones.
pub mem-run :
    (jti : List ℕ) (pre post js : List (List ℕ))
    → mem jti post ≡ false
    → length post ≤ 19
    → fresh (jti ∷ post) js ≡ true
    → mem jti (run js (pre ++ jti ∷ post)) ≡ leb (length post + length js) 19
mem-run jti pre post [] once short new =
    mem-append jti pre (jti ∷ post) ∙ rw (text_eq_refl jti) (or_true (mem jti pre) (ground arith))
  where
    or_true : (b : Bool) → leb (length post + 0) 19 ≡ true → (b || true) ≡ leb (length post + 0) 19
    or_true b h = ground arith
mem-run jti pre post (j ∷ js) once short new =
    let other : text_eq jti j ≡ false = ground arith in
    let absent : mem j post ≡ false = ground arith in
    let other' : text_eq j jti ≡ false = ground (arith, text_eq_iff j jti, text_eq_refl jti) in
    let once' : mem jti (post ++ j ∷ []) ≡ false =
      mem-append jti post (j ∷ []) ∙ rw (once, other') refl in
    elim (Bool-cases (leb (length post) 18)) [
      | inl room ↦
          let (pre', e) =
            recorded-around pre post jti j other absent (leb→le (length post) 18 room) in
          let n : length (post ++ j ∷ []) + length js ≡ length post + length (j ∷ js) =
            omega (arith, length-append post (j ∷ [])) in
          ap (λ l. mem jti (run js l)) e
          ∙ mem-run jti pre' (post ++ j ∷ []) js once'
              (omega (arith, length-append post (j ∷ []), leb→le (length post) 18 room))
              (ground arith)
          ∙ ap (λ m. leb m 19) n
      | inr full ↦
          let n : length post ≡ 19 = omega (arith, leb_false→lt (length post) 18 full) in
          let late : mem jti js ≡ false =
            fresh-mem jti ((jti ∷ post) ++ j ∷ []) js (ground arith) (rw (text_eq_refl jti) refl) in
          ap (λ l. mem jti (run js l)) (recorded-out pre post jti j other absent n)
          ∙ mem-run-false jti js (post ++ j ∷ []) once' late
          ∙ over (length post) (length js) n
    ]
  where
    over : (a b : ℕ) → a ≡ 19 → false ≡ leb (a + suc b) 19
    over a b h = ground arith
