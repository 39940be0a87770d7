-- ===== src/SessionTracker/Sorted.antt =====
-- Sorting the list of sessions and picking the current one (web/src/utils/sessionTracker.ts).
use pwdnow_password_manager.Prelude.{
  ◌+◌, ◌≤◌, ◌≡◌, refl, ◌∙◌, ap, List, [], ◌∷◌, ◌++◌, Bool, true, false, ◌&&◌, inl, inr, Bool-cases,
  length, keep, map, arith, leb,
}
use pwdnow_password_manager.SessionTracker.{
  LoginSession, Surroundings, Translate, session_of, insert, sort,
}

abbrev pub current : List LoginSession → List LoginSession
current sessions = keep (λ s. s.is_current) sessions

abbrev pub is_newest_first : List LoginSession → Bool
is_newest_first [] = true
is_newest_first (s ∷ []) = true
is_newest_first (s ∷ x ∷ xs) = leb x.timestamp s.timestamp && is_newest_first (x ∷ xs)

pub session_of-current : (t : Translate) (w : Surroundings) → (session_of t w).is_current ≡ true
unfolding session_of
session_of-current t w = refl

length-insert : (s : LoginSession) (xs : List LoginSession) → length (insert s xs) ≡ length xs + 1
unfolding insert
length-insert s [] = refl
length-insert s (x ∷ xs) = ground (arith, length-insert s xs)

pub length-sort : (xs : List LoginSession) → length (sort xs) ≡ length xs
unfolding sort
length-sort [] = refl
length-sort (x ∷ xs) = omega (arith, length-insert x (sort xs), length-sort xs)

insert_sorted :
    (s : LoginSession) (xs : List LoginSession)
    → is_newest_first xs ≡ true
    → is_newest_first (insert s xs) ≡ true
unfolding insert
insert_sorted s [] h = refl
insert_sorted s (x ∷ []) h = ground arith
insert_sorted s (x ∷ y ∷ xs) h = ground (arith, insert_sorted s (y ∷ xs))

pub sort_sorted : (xs : List LoginSession) → is_newest_first (sort xs) ≡ true
unfolding sort
sort_sorted [] = refl
sort_sorted (x ∷ xs) = insert_sorted x (sort xs) (sort_sorted xs)

current-insert_other :
    (s : LoginSession) (xs : List LoginSession)
    → s.is_current ≡ false
    → current (insert s xs) ≡ current xs
unfolding insert
current-insert_other s [] h = ground arith
current-insert_other s (x ∷ xs) h = ground (arith, current-insert_other s xs h)

current-insert_only :
    (s : LoginSession) (xs : List LoginSession)
    → s.is_current ≡ true
    → current xs ≡ []
    → current (insert s xs) ≡ s ∷ []
unfolding insert
current-insert_only s [] h none_else = ground arith
current-insert_only s (x ∷ xs) h none_else = ground (arith, current-insert_only s xs h)

-- Sorting moves the current session, if it is the only one.
pub current-sort_none : (xs : List LoginSession) → current xs ≡ [] → current (sort xs) ≡ []
unfolding sort
current-sort_none [] h = refl
current-sort_none (x ∷ xs) h =
    ground (arith, current-insert_other x (sort xs), current-sort_none xs)

pub current-sort_only :
    (c : LoginSession) (xs : List LoginSession) → current xs ≡ c ∷ [] → current (sort xs) ≡ c ∷ []
unfolding sort
current-sort_only c [] h = h
current-sort_only c (x ∷ xs) h = elim (Bool-cases x.is_current) [
  | inl own ↦
      let same : x ≡ c = ground arith in
      let none_else : current xs ≡ [] = ground arith in
      current-insert_only x (sort xs) own (current-sort_none xs none_else) ∙ ap (λ s. s ∷ []) same
  | inr other ↦ current-insert_other x (sort xs) other ∙ current-sort_only c xs (ground arith)
]

pub current-map-false :
    (xs : List LoginSession)
    → current (map (λ (s : LoginSession). record s { is_current = false }) xs) ≡ []
current-map-false [] = refl
current-map-false (x ∷ xs) = current-map-false xs

pub current-append : (xs ys : List LoginSession) → current (xs ++ ys) ≡ current xs ++ current ys
current-append [] ys = refl
current-append (x ∷ xs) ys = ground (arith, current-append xs ys)

pub current-current : (xs : List LoginSession) → current (current xs) ≡ current xs
current-current [] = refl
current-current (x ∷ xs) = ground (arith, current-current xs)

pub length-current : (xs : List LoginSession) → length (current xs) ≤ length xs
length-current [] = omega arith
length-current (x ∷ xs) = ground (arith, length-current xs)
