-- ===== src/Server/RateLimiter/Windows.antt =====
-- How many attempts a limit admits within its window, other keys' attempts interleaved.
use pwdnow_password_manager.Prelude.{
  ℕ, ◌+◌, ◌-◌, ◌≤◌, ◌≡◌, refl, ◌∙◌, sym, ap, ◌⊎◌, inl, inr, List, [], ◌∷◌, ◌++◌, true, false, ◌&&◌,
  Option, none, some, leb, ◌==◌, if◌then◌else◌, min, arith, Bool-cases, Option-cases, All,
}
use pwdnow_password_manager.Text.{text, text_eq, text_eq_iff}
use pwdnow_password_manager.Server.StateStore.{
  NumberText, Entry, Store, find, evict, write, set, expired, incr_expire,
}
use pwdnow_password_manager.Server.StateStore.Laws.{find-evict, find-write, find-set}
use pwdnow_password_manager.Server.RateLimiter.{Limit, check_rate}

-- A request that a limit is asked about.
pub record Attempt : Type 0 where
  pub limit : Limit
  pub id : List ℕ
  pub time : ℕ

abbrev pub key_of : Attempt → List ℕ
key_of a = a.limit.prefix ++ a.id

abbrev pub attempts : List ℕ → List Attempt → ℕ
attempts key [] = 0
attempts key (a ∷ as') = (if text_eq (key_of a) key then 1 else 0) + attempts key as'

-- The attempts of a key lie within one window of its limit.
abbrev pub WithinWindow : List ℕ → ℕ → ℕ → ℕ → List Attempt → Type 0
WithinWindow key most window from as' =
    All
      (λ (a : Attempt).
        text_eq (key_of a) key ≡ true
        → (a.limit.max_per_window ≡ most)
          × (a.limit.window_ms ≡ window)
          × (from ≤ a.time)
          × (a.time ≤ from + window))
      as'

-- Nothing is stored for the key, or what is stored has expired.
abbrev pub IsFresh : ℕ → Option Entry → Type 0
IsFresh now none = Unit
IsFresh now (some e) = expired now e ≡ true

module _ (numbers : NumberText) where
  abbrev pub admitted : List ℕ → List Attempt → Store → ℕ
  admitted key [] s = 0
  admitted key (a ∷ as') s =
      let (c, s') = check_rate numbers a.limit a.time a.id false s in
      (if text_eq (key_of a) key && c.allowed then 1 else 0) + admitted key as' s'

  -- The two branches of the counter.
  incr_expire-fresh :
      (now : ℕ) (k : List ℕ) (ttl : ℕ) (s : Store)
      → IsFresh now (find k s)
      → incr_expire numbers now k ttl s ≡ (1, set now k (text "1") ttl (evict k s))
  unfolding incr_expire
  incr_expire-fresh now k ttl s h = elim (Option-cases (find k s)) [
    | inl none_there ↦ rw (none_there, incr_expire) refl
    | inr (e, there) ↦ rw (there, incr_expire, rw there at h) refl
  ]

  incr_expire-live :
      (now : ℕ) (k : List ℕ) (ttl : ℕ) (s : Store) (e : Entry)
      → find k s ≡ some e
      → expired now e ≡ false
      → incr_expire numbers now k ttl s ≡ (
        numbers.number_of e.value + 1,
        write k (numbers.string_of (numbers.number_of e.value + 1)) s,
      )
  unfolding incr_expire
  incr_expire-live now k ttl s e there live = rw (there, incr_expire, live) refl

  IsFresh-or_live :
      (now : ℕ) (o : Option Entry)
      → IsFresh now o ⊎ ((e : Entry) × (o ≡ some e) × (expired now e ≡ false))
  IsFresh-or_live now none = inl tt
  IsFresh-or_live now (some e) = elim (Bool-cases (expired now e)) [
    | inl old ↦ inl old
    | inr live ↦ inr (e, refl, live)
  ]

  -- An attempt under another key leaves the entry alone.
  find-incr_expire_other :
      (now : ℕ) (k j : List ℕ) (ttl : ℕ) (s : Store)
      → text_eq k j ≡ false
      → find j (incr_expire numbers now k ttl s).1 ≡ find j s
  find-incr_expire_other now k j ttl s h = elim (IsFresh-or_live now (find k s)) [
    | inl fresh ↦
        rw (incr_expire-fresh now k ttl s fresh)
          (find-set now k j (text "1") ttl (evict k s) ∙ rw (h, find-evict k j s, h) refl)
    | inr (e, there, live) ↦
        rw (incr_expire-live now k ttl s e there live)
          (find-write k j (numbers.string_of (numbers.number_of e.value + 1)) s ∙ rw h refl)
  ]

  -- One attempt under the key of a live entry.
  check_rate-live :
      (a : Attempt) (key : List ℕ) (s : Store) (e : Entry)
      → text_eq (key_of a) key ≡ true
      → find key s ≡ some e
      → expired a.time e ≡ false
      → let (c, s') = check_rate numbers a.limit a.time a.id false s in
        (c.allowed ≡ leb (numbers.number_of e.value + 1) a.limit.max_per_window)
        × (find key s'
            ≡ some (record e { value = numbers.string_of (numbers.number_of e.value + 1) }))
  unfolding check_rate
  check_rate-live a key s e same there live =
      let eq = (text_eq_iff (key_of a) key).0 same in
      let count = incr_expire-live a.time (key_of a) a.limit.window_ms s e (rw eq there) live in
      rw count (
        refl,
        find-write (key_of a) key (numbers.string_of (numbers.number_of e.value + 1)) s
            ∙ rw (same, there) refl,
      )

  check_rate-fresh :
      (a : Attempt) (key : List ℕ) (s : Store)
      → text_eq (key_of a) key ≡ true
      → IsFresh a.time (find key s)
      → let (c, s') = check_rate numbers a.limit a.time a.id false s in
        (c.allowed ≡ leb 1 a.limit.max_per_window)
        × (find key s'
            ≡ some (record {
              value = text "1";
              expires_at = if a.limit.window_ms == 0 then 0 else a.time + a.limit.window_ms;
            }))
  unfolding check_rate
  check_rate-fresh a key s same fresh =
      let eq = (text_eq_iff (key_of a) key).0 same in
      let count = incr_expire-fresh a.time (key_of a) a.limit.window_ms s (rw eq fresh) in
      rw count (
        refl,
        find-set a.time (key_of a) key (text "1") a.limit.window_ms (evict (key_of a) s)
            ∙ rw same refl,
      )

  check_rate_other :
      (a : Attempt) (key : List ℕ) (s : Store)
      → text_eq (key_of a) key ≡ false
      → find key (check_rate numbers a.limit a.time a.id false s).1 ≡ find key s
  unfolding check_rate
  check_rate_other a key s other =
      find-incr_expire_other a.time (key_of a) key a.limit.window_ms s other

  -- Once the first attempt is counted, the others up to the limit's number are admitted.
  admitted-live :
      (key : List ℕ) (most window from : ℕ) (as' : List Attempt) (s : Store) (e : Entry)
      → WithinWindow key most window from as'
      → find key s ≡ some e
      → (e.expires_at ≡ 0) ⊎ (from + window ≤ e.expires_at)
      → admitted key as' s
        ≡ min most (numbers.number_of e.value + attempts key as') - numbers.number_of e.value
  admitted-live key most window from [] s e h there until = omega arith
  admitted-live key most window from (a ∷ as') s e h there until =
      elim (Bool-cases (text_eq (key_of a) key)) [
        | inl same ↦
            let (most_eq, window_eq, after, before) = h.0 same in
            let n = numbers.number_of e.value in
            let live : expired a.time e ≡ false = ground arith in
            let (allowed, there') = check_rate-live a key s e same there live in
            let s' = (check_rate numbers a.limit a.time a.id false s).1 in
            let later =
              admitted-live key most window from as' s'
                (record e { value = numbers.string_of (n + 1) }) h.1 there' until in
            let counted = numbers.number_of-string_of (n + 1) in
            rw (same, allowed, later, counted, most_eq) (ground arith)
        | inr other ↦
            let s' = (check_rate numbers a.limit a.time a.id false s).1 in
            let later =
              admitted-live key most window from as' s' e h.1
                (check_rate_other a key s other ∙ there) until in
            rw (other, later) (ground arith)
      ]

  IsFresh-later : (from now : ℕ) (o : Option Entry) → from ≤ now → IsFresh from o → IsFresh now o
  IsFresh-later from now none le h = tt
  IsFresh-later from now (some e) le h = ground arith

  one_of_text : numbers.number_of (text "1") ≡ 1
  one_of_text = ap numbers.number_of (sym numbers.string_of_one) ∙ numbers.number_of-string_of 1

  -- A limit in a window: if the attempts under a key lie within one window of their limit, and
  -- nothing live is stored for the key at its start, then of these attempts exactly the first ones
  -- up to the limit's number are admitted, whatever attempts under other keys come between.
  pub admitted-WithinWindow :
      (key : List ℕ) (most window from : ℕ) (as' : List Attempt) (s : Store)
      → WithinWindow key most window from as'
      → IsFresh from (find key s)
      → admitted key as' s ≡ min most (attempts key as')
  admitted-WithinWindow key most window from [] s h fresh = omega arith
  admitted-WithinWindow key most window from (a ∷ as') s h fresh =
      let s' = (check_rate numbers a.limit a.time a.id false s).1 in
      elim (Bool-cases (text_eq (key_of a) key)) [
        | inl same ↦
            let (most_eq, window_eq, after, before) = h.0 same in
            let (allowed, there) =
              check_rate-fresh a key s same (IsFresh-later from a.time (find key s) after fresh) in
            let later =
              admitted-live key most window from as' s'
                (record {
                  value = text "1";
                  expires_at = if a.limit.window_ms == 0 then 0 else a.time + a.limit.window_ms;
                })
                h.1 there (ground arith) in
            rw (same, allowed, later, one_of_text, most_eq) (ground arith)
        | inr other ↦
            let later =
              admitted-WithinWindow key most window from as' s' h.1
                (rw (check_rate_other a key s other) fresh) in
            rw (other, later) (ground arith)
      ]
