-- ===== src/Text/Rows.antt =====
-- Rows of texts written as one text and read back, for the concrete inputs of theorems.
use pwdnow_password_manager.Prelude.{
  ℕ, zero, suc, ◌<◌, ◌+◌, ◌≡◌, refl, ◌∙◌, sym, ap, List, [], ◌∷◌, ◌++◌, append_assoc, append-nil,
  Option, none, some, All, arith,
}

-- A text is written with its characters shifted and a 0 at its end.
abbrev pub shifted : List ℕ → List ℕ → List ℕ
shifted [] rest = 0 ∷ rest
shifted (c ∷ v) rest = suc c ∷ shifted v rest

abbrev pub written : List (List ℕ) → List ℕ
written [] = []
written (v ∷ vs) = shifted v (written vs)

abbrev pub reading : List ℕ → List ℕ → List (List ℕ)
reading v [] = []
reading v (zero ∷ s) = v ∷ reading [] s
reading v (suc c ∷ s) = reading (v ++ c ∷ []) s

reading-shifted :
    (before v rest : List ℕ) → reading before (shifted v rest) ≡ (before ++ v) ∷ reading [] rest
reading-shifted before [] rest = ap (λ b. b ∷ reading [] rest) (sym (append-nil before))
reading-shifted before (c ∷ v) rest =
    reading-shifted (before ++ c ∷ []) v rest
    ∙ ap (λ b. b ∷ reading [] rest) (append_assoc before (c ∷ []) v)

pub reading-written : (vs : List (List ℕ)) → reading [] (written vs) ≡ vs
reading-written [] = refl
reading-written (v ∷ vs) = reading-shifted [] v (written vs) ∙ ap (λ r. v ∷ r) (reading-written vs)

-- An optional text, and a mark in front of what is there.
abbrev pub marked : Option (List ℕ) → List ℕ
marked none = []
marked (some v) = 1 ∷ v

abbrev pub unmarked : List ℕ → Option (List ℕ)
unmarked [] = none
unmarked (c ∷ v) = some v

pub unmarked-marked : (o : Option (List ℕ)) → unmarked (marked o) ≡ o
unmarked-marked none = refl
unmarked-marked (some v) = refl

-- Numbers as strokes, each with a 0 at its end, so that every number written is small.
abbrev stroke : ℕ → List ℕ → List ℕ
stroke zero rest = 0 ∷ rest
stroke (suc n) rest = 1 ∷ stroke n rest

abbrev pub strokes : List ℕ → List ℕ
strokes [] = []
strokes (n ∷ ns) = stroke n (strokes ns)

abbrev counted : ℕ → List ℕ → List ℕ
counted n [] = []
counted n (zero ∷ s) = n ∷ counted 0 s
counted n (suc c ∷ s) = counted (suc n) s

abbrev pub counts : List ℕ → List ℕ
counts s = counted 0 s

counted-stroke : (m n : ℕ) (rest : List ℕ) → counted m (stroke n rest) ≡ (m + n) ∷ counted 0 rest
counted-stroke m zero rest = ap (λ k. k ∷ counted 0 rest) (sum m)
  where
    sum : (k : ℕ) → k ≡ k + 0
    sum k = omega arith
counted-stroke m (suc n) rest =
    let e : suc m + n ≡ m + suc n = omega arith in
    counted-stroke (suc m) n rest ∙ ap (λ k. k ∷ counted 0 rest) e

pub counts-strokes : (ns : List ℕ) → counts (strokes ns) ≡ ns
counts-strokes [] = refl
counts-strokes (n ∷ ns) =
    let e : 0 + n ≡ n = omega arith in
    counted-stroke 0 n (strokes ns)
    ∙ ap (λ k. k ∷ counted 0 (strokes ns)) e
    ∙ ap (λ r. n ∷ r) (counts-strokes ns)

stroke_small :
    (n : ℕ) (rest : List ℕ) → All (λ b. b < 256) rest → All (λ b. b < 256) (stroke n rest)
stroke_small zero rest h = (omega arith, h)
stroke_small (suc n) rest h = (omega arith, stroke_small n rest h)

pub strokes_small : (ns : List ℕ) → All (λ b. b < 256) (strokes ns)
strokes_small [] = tt
strokes_small (n ∷ ns) = stroke_small n (strokes ns) (strokes_small ns)
