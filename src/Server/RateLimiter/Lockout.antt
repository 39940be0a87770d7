-- ===== src/Server/RateLimiter/Lockout.antt =====
-- A row of failed logins of one account or fingerprint.
use pwdnow_password_manager.Prelude.{
  ℕ, suc, ◌+◌, ◌*◌, ◌≤◌, ◌≡◌, refl, ◌∙◌, sym, inl, inr, List, [], ◌∷◌, ◌++◌, true, false, none,
  some, ltb, leb, ◌==◌, if◌then◌else◌, max, length, arith, Bool-cases,
}
use pwdnow_password_manager.Text.{text, text_eq_refl}
use pwdnow_password_manager.Server.StateStore.{Entry, Store, find, evict, del, get, expired}
use pwdnow_password_manager.Server.StateStore.Laws.{find-evict, find-set}
use pwdnow_password_manager.Server.RateLimiter.{
  Failures, FailuresText, lock_ms_of, previous, check_lockout, record_failure,
  reset_account_failures, check_account_rate,
}

-- Each failure comes at most an hour after the one before it; the last one stands first.
abbrev pub AreClose : List ℕ → Type 0
AreClose [] = Unit
AreClose (t ∷ []) = Unit
AreClose (t ∷ t' ∷ ts) = (t' ≤ t) × (t ≤ t' + 60 * 60 * 1000) × AreClose (t' ∷ ts)

abbrev pub failures_of : ℕ → ℕ → Failures
failures_of count t = record {
  count = count;
  locked_until = if ltb 0 (lock_ms_of count) then t + lock_ms_of count else 0;
}

module _ (json : FailuresText) (prefix id : List ℕ) where
  abbrev pub after_failures : List ℕ → Store → Store
  after_failures [] s = s
  after_failures (t ∷ ts) s = record_failure json prefix t id (after_failures ts s)

  abbrev entry_of : ℕ → ℕ → Entry
  entry_of count t = record {
    value = json.stringify (failures_of count t);
    expires_at = t + max (lock_ms_of count) (60 * 60 * 1000);
  }

  get-live :
      (now : ℕ) (s : Store) (e : Entry)
      → find (prefix ++ id) s ≡ some e
      → expired now e ≡ false
      → get now (prefix ++ id) s ≡ (some e.value, s)
  unfolding get
  get-live now s e there live = rw (there, get, live) refl

  get-none :
      (now : ℕ) (s : Store) → find (prefix ++ id) s ≡ none → get now (prefix ++ id) s ≡ (none, s)
  unfolding get
  get-none now s gone = rw (gone, get) refl

  find-record_failure :
      (now : ℕ) (s : Store) (n : ℕ)
      → (let (raw, s') = get now (prefix ++ id) s in (previous json raw).count) ≡ n
      → find (prefix ++ id) (record_failure json prefix now id s) ≡ some (entry_of (n + 1) now)
  unfolding record_failure
  find-record_failure now s n e =
      find-set now (prefix ++ id) (prefix ++ id) _ _ _
      ∙ rw (text_eq_refl (prefix ++ id), e) (rw (kept_an_hour (lock_ms_of (n + 1))) refl)
    where
      kept_an_hour : (l : ℕ) → (max l 3600000 == 0) ≡ false
      kept_an_hour l = ground arith

  -- The entry counts the failures since the start.
  find-after_failures :
      (t : ℕ) (ts : List ℕ) (s : Store)
      → find (prefix ++ id) s ≡ none
      → AreClose (t ∷ ts)
      → find (prefix ++ id) (after_failures (t ∷ ts) s) ≡ some (entry_of (length (t ∷ ts)) t)
  find-after_failures t [] s fresh close = find-record_failure t s 0 (rw (get-none t s fresh) refl)
  find-after_failures t (t' ∷ ts) s fresh close =
      let there = find-after_failures t' ts s fresh close.2 in
      let e = entry_of (length (t' ∷ ts)) t' in
      let live : expired t e ≡ false = within_hour t t' (lock_ms_of (length (t' ∷ ts))) close.1 in
      find-record_failure t (after_failures (t' ∷ ts) s) (length (t' ∷ ts)) (
        rw
          (
            get-live t (after_failures (t' ∷ ts) s) e there live,
            json.parse-stringify (failures_of (length (t' ∷ ts)) t'),
          )
          refl)
      ∙ rw (count_up (length (t' ∷ ts))) refl
    where
      within_hour :
          (t t' l : ℕ)
          → t ≤ t' + 60 * 60 * 1000
          → (if t' + max l 3600000 == 0 then false else ltb (t' + max l 3600000) t) ≡ false
      within_hour t t' l h = ground arith

      count_up : (n : ℕ) → n + 1 ≡ suc n
      count_up n = omega arith

  -- The lockout after a row of failures: if nothing was stored before them, and each comes at most
  -- an hour after the one before it, then at any later time the login is refused exactly while
  -- the wait that the schedule gives for their number has not passed since the last one.
  pub check_lockout-after_failures :
      (t : ℕ) (ts : List ℕ) (now : ℕ) (s : Store)
      → find (prefix ++ id) s ≡ none
      → AreClose (t ∷ ts)
      → t ≤ now
      → (check_lockout json prefix now id (after_failures (t ∷ ts) s)).0
        ≡ leb (t + lock_ms_of (length (t ∷ ts))) now
  unfolding check_lockout get
  check_lockout-after_failures t ts now s fresh close later =
      let there = find-after_failures t ts s fresh close in
      let n = length (t ∷ ts) in
      rw (there, get)
        (elim (Bool-cases (expired now (entry_of n t))) [
          | inl gone ↦ rw (gone) (sym (passed (lock_ms_of n) gone))
          | inr live ↦ rw (live, json.parse-stringify (failures_of n t)) (waiting (lock_ms_of n))
        ])
    where
      passed :
          (l : ℕ)
          → (if t + max l 3600000 == 0 then false else ltb (t + max l 3600000) now) ≡ true
          → leb (t + l) now ≡ true
      passed l h = ground arith

      waiting :
          (l : ℕ)
          → (if (if ltb 0 l then t + l else 0) == 0
              then true
              else leb (if ltb 0 l then t + l else 0) now)
            ≡ leb (t + l) now
      waiting l = ground arith

  check_lockout-evict :
      (now : ℕ) (s : Store) → (check_lockout json prefix now id (evict (prefix ++ id) s)).0 ≡ true
  unfolding check_lockout
  check_lockout-evict now s =
      rw
        (get-none now (evict (prefix ++ id) s)
          (find-evict (prefix ++ id) (prefix ++ id) s ∙ rw (text_eq_refl (prefix ++ id)) refl))
        refl

-- A successful login forgets the failures before it: whatever was stored, the next check of the
-- account passes.
pub check_account_rate-reset_account_failures :
    (json : FailuresText) (now : ℕ) (id : List ℕ) (s : Store)
    → (check_account_rate json now id (reset_account_failures id s)).0 ≡ true
unfolding reset_account_failures del
check_account_rate-reset_account_failures json now id s =
    check_lockout-evict json (text "lockout:acct:") id now s
