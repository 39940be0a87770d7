-- ===== src/Server/StateStore/Laws.antt =====
-- What a lookup finds after each method of the store.
use pwdnow_password_manager.Prelude.{
  ℕ, ◌+◌, ◌≡◌, refl, List, [], ◌∷◌, ◌++◌, Option, none, some, ◌==◌, if◌then◌else◌, arith,
  Option-cases, Bool-cases, true, subst, inl, inr,
}
use pwdnow_password_manager.Text.{text_eq, text_eq_iff}
use pwdnow_password_manager.Server.StateStore.{
  Entry, Store, find, evict, expired, write, set, get, fire,
}

abbrev pub written : List ℕ → Option Entry → Option Entry
written v none = none
written v (some e) = some (record e { value = v })

pub find-evict :
    (k j : List ℕ) (s : Store) → find j (evict k s) ≡ (if text_eq k j then none else find j s)
unfolding find evict
find-evict k j [] = ground arith
find-evict k j ((i, e) ∷ s) =
    ground (arith, find-evict k j s, text_eq_iff k j, text_eq_iff i k, text_eq_iff i j)

find-append :
    (k j : List ℕ) (e : Entry) (s : Store)
    → find j s ≡ none
    → find j (s ++ (k, e) ∷ []) ≡ (if text_eq k j then some e else none)
unfolding find
find-append k j e [] h = refl
find-append k j e ((i, e') ∷ s) h = ground (arith, find-append k j e s)

find-append_some :
    (k j : List ℕ) (e v : Entry) (s : Store)
    → find j s ≡ some v
    → find j (s ++ (k, e) ∷ []) ≡ some v
unfolding find
find-append_some k j e v [] h = cc
find-append_some k j e v ((i, e') ∷ s) h = ground (arith, find-append_some k j e v s)

pub find-write :
    (k j v : List ℕ) (s : Store)
    → find j (write k v s) ≡ (if text_eq k j then written v (find j s) else find j s)
unfolding find write
find-write k j v [] = ground arith
find-write k j v ((i, e) ∷ s) =
    ground (arith, find-write k j v s, text_eq_iff k j, text_eq_iff i k, text_eq_iff i j)

pub find-set :
    (now : ℕ) (k j v : List ℕ) (ttl : ℕ) (s : Store)
    → find j (set now k v ttl s) ≡ (
        if text_eq k j
        then some (record { value = v; expires_at = if ttl == 0 then 0 else now + ttl })
        else find j s)
unfolding set
find-set now k j v ttl s = elim (Option-cases (find j (evict k s))) [
  | inl gone ↦ ground (
    arith,
    find-append k j (record { value = v; expires_at = if ttl == 0 then 0 else now + ttl })
        (evict k s),
    find-evict k j s,
  )
  | inr (e, kept) ↦ ground (
    arith,
    find-append_some k j (record { value = v; expires_at = if ttl == 0 then 0 else now + ttl }) e
        (evict k s),
    find-evict k j s,
  )
]

-- A timer that fires when its entry has expired changes no answer: a lookup of any key at that time
-- finds the same value with and without it.
get-fire :
    (now : ℕ) (k j : List ℕ) (e : Entry) (s : Store)
    → find k s ≡ some e
    → expired now e ≡ true
    → (get now j (fire k s)).0 ≡ (get now j s).0
unfolding get fire
get-fire now k j e s found over = elim (Bool-cases (text_eq k j)) [
  | inl same ↦
      let eq : k ≡ j = (text_eq_iff k j).0 same in
      let gone : find j (evict k s) ≡ none = ground (arith, find-evict k j s) in
      let there : find j s ≡ some e = subst (λ i. find i s ≡ some e) eq found in
      rw (get, gone, there, over) refl
  | inr other ↦
      let kept : find j (evict k s) ≡ find j s = ground (arith, find-evict k j s) in
      looked_up (find j s) kept refl
]
  where
    looked_up :
        (o : Option Entry)
        → find j (evict k s) ≡ find j s
        → find j s ≡ o
        → (get now j (evict k s)).0 ≡ (get now j s).0
    looked_up none kept here = rw (get, kept, here) refl
    looked_up (some e') kept here = rw (get, kept, here) (ground arith)
