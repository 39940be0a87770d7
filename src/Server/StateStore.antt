-- ===== src/Server/StateStore.antt =====
-- The server's key-value store with expiry: `InMemoryStateStore` of web/lib/stateStore.js. Every
-- method takes the time of its call. A timer that is due evicts its entry: the step `fire`, which
-- changes no answer once the entry has expired (Laws.get-fire), so runs of calls leave it out.
pub mod Laws
use pwdnow_password_manager.Prelude.{
  ℕ, ◌+◌, ◌-◌, ◌≡◌, List, [], ◌∷◌, ◌++◌, Bool, true, false, Option, none, some, ltb, ◌==◌,
  if◌then◌else◌,
}
use pwdnow_password_manager.Text.{text, text_eq}

-- `String(n)` and `Number(s)`.
pub record NumberText : Type 0 where
  pub string_of : ℕ → List ℕ
  pub number_of : List ℕ → ℕ
  pub string_of_one : string_of 1 ≡ text "1"
  pub number_of-string_of : (n : ℕ) → number_of (string_of n) ≡ n

-- `expires_at` is 0 for an entry without expiry.
pub record Entry : Type 0 where
  pub value : List ℕ
  pub expires_at : ℕ

abbrev pub Store : Type 0
Store = List (List ℕ × Entry)

-- `_map.get(key)`
unfoldable pub find : List ℕ → Store → Option Entry
find key [] = none
find key ((k, e) ∷ s) = if text_eq k key then some e else find key s

unfoldable pub evict : List ℕ → Store → Store
evict key [] = []
evict key ((k, e) ∷ s) = let rest = evict key s in if text_eq k key then rest else (k, e) ∷ rest

-- `e.value = v` at the entry of the key
unfoldable pub write : List ℕ → List ℕ → Store → Store
write key v [] = []
write key v ((k, e) ∷ s) = (k, if text_eq k key then record e { value = v } else e) ∷ write key v s

abbrev pub expired : ℕ → Entry → Bool
expired now e = if e.expires_at == 0 then false else ltb e.expires_at now

unfoldable pub get : ℕ → List ℕ → Store → Option (List ℕ) × Store
unfolding find evict
get now key s = elim (find key s) [
  | none ↦ (none, s)
  | some e ↦ if expired now e then (none, evict key s) else (some e.value, s)
]

unfoldable pub set : ℕ → List ℕ → List ℕ → ℕ → Store → Store
unfolding evict
set now key v ttl s =
    evict key s
    ++ ((key, record { value = v; expires_at = if ttl == 0 then 0 else now + ttl }) ∷ [])

unfoldable pub del : List ℕ → Store → Store
unfolding evict
del key s = evict key s

unfoldable pub getdel : ℕ → List ℕ → Store → Option (List ℕ) × Store
unfolding find evict
getdel now key s = elim (find key s) [
  | none ↦ (none, s)
  | some e ↦ if expired now e then (none, evict key s) else (some e.value, evict key s)
]

-- A timer that has run out.
unfoldable pub fire : List ℕ → Store → Store
unfolding evict
fire key s = evict key s

module _ (numbers : NumberText) where
  unfoldable pub incr_expire : ℕ → List ℕ → ℕ → Store → ℕ × Store
  unfolding find evict set write
  incr_expire now key ttl s = elim (find key s) [
    | none ↦ (1, set now key (text "1") ttl (evict key s))
    | some e ↦ if expired now e then (1, set now key (text "1") ttl (evict key s)) else (
      numbers.number_of e.value + 1,
      write key (numbers.string_of (numbers.number_of e.value + 1)) s,
    )
  ]

  unfoldable pub decr : ℕ → List ℕ → Store → ℕ × Store
  unfolding find evict write
  decr now key s = elim (find key s) [
    | none ↦ (0, s)
    | some e ↦ if expired now e then (0, evict key s) else (
      numbers.number_of e.value - 1,
      write key (numbers.string_of (numbers.number_of e.value - 1)) s,
    )
  ]
