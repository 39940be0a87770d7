-- ===== src/Server/Sessions/Recorded.antt =====
-- Which ids stay in a list of sessions under further logins (web/lib/session.js).
use pwdnow_password_manager.Prelude.{
  ℕ, zero, suc, ◌-◌, ◌≡◌, refl, ◌∙◌, sym, ap, List, [], ◌∷◌, ◌++◌, Bool, true, false, ◌&&◌, ◌||◌,
  not, inl, inr, Bool-cases, length, drop, keep, any, map, ltb, if◌then◌else◌, arith, length-map,
}
use pwdnow_password_manager.Text.{text_eq}
use pwdnow_password_manager.Server.Sessions.{ServerSession, has_jti, with_session}

abbrev pub jtis : List ServerSession → List (List ℕ)
jtis list = map (λ (s : ServerSession). s.jti) list

abbrev pub mem : List ℕ → List (List ℕ) → Bool
mem j l = any (λ i. text_eq i j) l

abbrev pub others : List ℕ → List (List ℕ) → List (List ℕ)
others j l = keep (λ i. not (text_eq i j)) l

-- The newest 20 ids with one more.
abbrev pub recorded : List ℕ → List (List ℕ) → List (List ℕ)
recorded j l = let u = others j l ++ j ∷ [] in drop (length u - 20) u

abbrev pub run : List (List ℕ) → List (List ℕ) → List (List ℕ)
run [] l = l
run (j ∷ js) l = run js (recorded j l)

-- Each id is new.
abbrev pub fresh : List (List ℕ) → List (List ℕ) → Bool
fresh seen [] = true
fresh seen (j ∷ js) = not (mem j seen) && fresh (seen ++ j ∷ []) js

pub has_jti-eq-mem : (j : List ℕ) (list : List ServerSession) → has_jti j list ≡ mem j (jtis list)
unfolding has_jti
has_jti-eq-mem j [] = refl
has_jti-eq-mem j (s ∷ ss) = ap (λ r. text_eq s.jti j || r) (has_jti-eq-mem j ss)

pub jtis-keep :
    (p : List ℕ → Bool) (list : List ServerSession)
    → jtis (keep (λ (s : ServerSession). p s.jti) list) ≡ keep p (jtis list)
jtis-keep p [] = refl
jtis-keep p (s ∷ ss) = ground (arith, jtis-keep p ss)

jtis-map_retired :
    (list : List ServerSession)
    → jtis (map (λ (s : ServerSession). record s { is_current = false }) list) ≡ jtis list
jtis-map_retired [] = refl
jtis-map_retired (s ∷ ss) = ap (λ r. s.jti ∷ r) (jtis-map_retired ss)

jtis-append : (xs ys : List ServerSession) → jtis (xs ++ ys) ≡ jtis xs ++ jtis ys
jtis-append [] ys = refl
jtis-append (x ∷ xs) ys = ap (λ r. x.jti ∷ r) (jtis-append xs ys)

jtis-drop : (n : ℕ) (xs : List ServerSession) → jtis (drop n xs) ≡ drop n (jtis xs)
jtis-drop zero xs = refl
jtis-drop (suc n) [] = refl
jtis-drop (suc n) (x ∷ xs) = jtis-drop n xs

drop_spare {ℓ} :
    {A : Type ℓ} (xs : List A)
    → (if ltb 20 (length xs) then drop (length xs - 20) xs else xs) ≡ drop (length xs - 20) xs
drop_spare xs = elim (Bool-cases (ltb 20 (length xs))) [
  | inl long ↦ rw long refl
  | inr short ↦ let e : length xs - 20 ≡ 0 = ground arith in rw short (ap (λ n. drop n xs) (sym e))
]

pub jtis-with_session :
    (new : ServerSession) (list : List ServerSession)
    → jtis (with_session new list) ≡ recorded new.jti (jtis list)
unfolding with_session
jtis-with_session new list =
    let others_kept = keep (λ (s : ServerSession). not (text_eq s.jti new.jti)) list in
    let retired = map (λ (s : ServerSession). record s { is_current = false }) others_kept in
    let updated = retired ++ new ∷ [] in
    let e : jtis updated ≡ others new.jti (jtis list) ++ new.jti ∷ [] =
      jtis-append retired (new ∷ [])
      ∙ ap (λ r. r ++ new.jti ∷ []) (jtis-map_retired others_kept)
      ∙ ap (λ r. r ++ new.jti ∷ []) (jtis-keep (λ j. not (text_eq j new.jti)) list) in
    ap jtis (drop_spare updated)
    ∙ jtis-drop (length updated - 20) updated
    ∙ ap (λ n. drop (n - 20) (jtis updated))
        (sym (length-map (λ (s : ServerSession). s.jti) updated))
    ∙ ap (λ u. drop (length u - 20) u) e

pub others_absent : (j : List ℕ) (l : List (List ℕ)) → mem j l ≡ false → others j l ≡ l
others_absent j [] h = refl
others_absent j (i ∷ l) h = ground (arith, others_absent j l)

pub others-append :
    (j : List ℕ) (xs ys : List (List ℕ)) → others j (xs ++ ys) ≡ others j xs ++ others j ys
others-append j [] ys = refl
others-append j (x ∷ xs) ys = ground (arith, others-append j xs ys)

pub mem-append : (j : List ℕ) (xs ys : List (List ℕ)) → mem j (xs ++ ys) ≡ (mem j xs || mem j ys)
mem-append j [] ys = refl
mem-append j (x ∷ xs) ys = ground (arith, mem-append j xs ys)

mem-drop : (j : List ℕ) (n : ℕ) (l : List (List ℕ)) → mem j l ≡ false → mem j (drop n l) ≡ false
mem-drop j zero l h = h
mem-drop j (suc n) [] h = refl
mem-drop j (suc n) (x ∷ l) h = mem-drop j n l (ground arith)

pub mem-others-false :
    (i j : List ℕ) (l : List (List ℕ)) → mem i l ≡ false → mem i (others j l) ≡ false
mem-others-false i j [] h = refl
mem-others-false i j (x ∷ l) h = ground (arith, mem-others-false i j l)

pub mem-others : (j : List ℕ) (l : List (List ℕ)) → mem j (others j l) ≡ false
mem-others j [] = refl
mem-others j (x ∷ l) = ground (arith, mem-others j l)

-- An id that is not there does not come back.
mem-recorded-false :
    (i j : List ℕ) (l : List (List ℕ))
    → mem i l ≡ false
    → text_eq j i ≡ false
    → mem i (recorded j l) ≡ false
mem-recorded-false i j l absent other =
    mem-drop i (length (others j l ++ j ∷ []) - 20) (others j l ++ j ∷ [])
      (mem-append i (others j l) (j ∷ []) ∙ rw (mem-others-false i j l absent, other) refl)

pub mem-run-false :
    (i : List ℕ) (js l : List (List ℕ))
    → mem i l ≡ false
    → mem i js ≡ false
    → mem i (run js l) ≡ false
mem-run-false i [] l absent other = absent
mem-run-false i (j ∷ js) l absent other =
    mem-run-false i js (recorded j l) (mem-recorded-false i j l absent (ground arith))
      (ground arith)
