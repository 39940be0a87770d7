-- ===== src/SessionTracker/Tracked.antt =====
-- What the list of sessions holds after any run of operations (web/src/utils/sessionTracker.ts).
use pwdnow_password_manager.Prelude.{
  ℕ, ◌-◌, ◌≤◌, ◌≡◌, refl, ◌∙◌, sym, subst, ap, List, [], ◌∷◌, ◌++◌, Bool, true, false,
  if◌then◌else◌, inl, inr, Option, none, some, Bool-cases, length, map, drop, arith, ltb,
  length-append, length-map, length-drop, ==_iff,
}
use pwdnow_password_manager.SessionTracker.{
  holds, write_encrypted_local, LoginSession, SessionCodec, Surroundings, Translate, session_of,
  sort, with_session, read_sessions, get_sessions, record_session, clear_other_sessions,
  clear_all_sessions,
}
use pwdnow_password_manager.SessionTracker.Sorted.{
  current, is_newest_first, session_of-current, length-sort, sort_sorted, current-sort_none,
  current-sort_only, current-map-false, current-append, current-current, length-current,
}

-- An operation, with the v2 key that is in memory when it runs.
pub data Operation : Type 0 where
  recording : Option ℕ → Surroundings → Operation
  clearing_others : Option ℕ → Operation
  clearing_all : Operation

-- The item after a run, the last operation first.
abbrev pub after : Translate → SessionCodec → List Operation → Option (List ℕ)
after t codec [] = none
after t codec (recording key w ∷ before) = record_session codec key t w (after t codec before)
after t codec (clearing_others key ∷ before) = clear_other_sessions codec key (after t codec before)
after t codec (clearing_all ∷ before) = clear_all_sessions codec (after t codec before)

-- What is visible under a key: what was recorded under it.
abbrev pub visible : Option ℕ → Option (ℕ × List LoginSession) → List LoginSession
visible key none = []
visible key (some (k, login)) = if holds key k then login else []

-- The key under which the item was written last, if there is an item, with the session that is
-- current in it. A recorded login is; clearing the others keeps it under its own key only, since
-- under another key nothing is read. An operation without a key changes nothing.
abbrev pub last_login : Translate → List Operation → Option (ℕ × List LoginSession)
last_login t [] = none
last_login t (recording none w ∷ before) = last_login t before
last_login t (recording (some k) w ∷ before) = some (k, session_of t w ∷ [])
last_login t (clearing_others none ∷ before) = last_login t before
last_login t (clearing_others (some k) ∷ before) = some (k, visible (some k) (last_login t before))
last_login t (clearing_all ∷ before) = none

-- At most 20 entries, of which the current ones are those given.
record IsTracked (login sessions : List LoginSession) : Type 0 where
  few : length sessions ≤ 20
  current_one : current sessions ≡ login

IsTracked-behind :
    (new : LoginSession) (older : List LoginSession)
    → new.is_current ≡ true
    → length older ≤ 19
    → IsTracked
        (new ∷ [])
        (map (λ (s : LoginSession). record s { is_current = false }) older ++ new ∷ [])
IsTracked-behind new older own few_older =
    let retired = λ (s : LoginSession). record s { is_current = false } in
    record {
      few = omega (arith, length-append (map retired older) (new ∷ []), length-map retired older);
      current_one =
          current-append (map retired older) (new ∷ [])
          ∙ ap (λ r. r ++ current (new ∷ [])) (current-map-false older)
          ∙ rw own refl;
    }

with_session-IsTracked :
    (new : LoginSession) (existing : List LoginSession)
    → new.is_current ≡ true
    → IsTracked (new ∷ []) (with_session new existing)
unfolding with_session
with_session-IsTracked new existing own = elim (Bool-cases (ltb 19 (length existing))) [
  | inl long ↦
      let older = drop (length existing - 19) existing in
      rw long (
        IsTracked-behind new older own (omega (arith, length-drop (length existing - 19) existing)))
  | inr short ↦ rw short (IsTracked-behind new existing own (ground arith))
]

holds-eq : (key : Option ℕ) (k : ℕ) → holds key k ≡ true → key ≡ some k
holds-eq none k h = cc
holds-eq (some k') k h = ap some ((==_iff k' k).0 h)

abbrev AtMostOne : List LoginSession → Type 0
AtMostOne [] = Unit
AtMostOne (s ∷ []) = Unit
AtMostOne (s ∷ x ∷ xs) = ⊥

-- With a key in memory encrypting does not fail.
abbrev pub Seals : SessionCodec → Type 0
Seals codec = (k : ℕ) (value : List ℕ) → (token : List ℕ) × (codec.seal k value ≡ some token)

-- No item and no login, or an item that was written under a key and lists a tracked login.
record IsWritten (codec : SessionCodec) (k : ℕ) (login : List LoginSession) (token : List ℕ)
    : Type 0 where
  sessions : List LoginSession
  sealed_under : codec.seal k (codec.stringify sessions) ≡ some token
  tracked : IsTracked login sessions

abbrev IsStored : SessionCodec → Option (ℕ × List LoginSession) → Option (List ℕ) → Type 0
IsStored codec none none = Unit
IsStored codec (some (k, login)) (some token) = IsWritten codec k login token
IsStored codec _ _ = ⊥

module _ (t : Translate) (codec : SessionCodec) where
  read_sessions-readable :
      (key : Option ℕ) (token : List ℕ) (sessions : List LoginSession)
      → codec.unseal key token ≡ some (codec.stringify sessions)
      → read_sessions codec key (some token) ≡ sessions
  unfolding read_sessions
  read_sessions-readable key token sessions e =
      rw (read_sessions, e, codec.parse-stringify sessions) refl

  read_sessions-unreadable :
      (key : Option ℕ) (token : List ℕ)
      → codec.unseal key token ≡ none
      → read_sessions codec key (some token) ≡ []
  unfolding read_sessions
  read_sessions-unreadable key token e = rw (read_sessions, e) refl

  -- What is read under any key.
  read_sessions-IsTracked :
      (key : Option ℕ) (login : Option (ℕ × List LoginSession)) (stored : Option (List ℕ))
      → IsStored codec login stored
      → IsTracked (visible key login) (read_sessions codec key stored)
  unfolding read_sessions
  read_sessions-IsTracked key none none h = record { few = omega arith; current_one = refl }
  read_sessions-IsTracked key none (some token) h = absurd h
  read_sessions-IsTracked key (some (k, login)) none h = absurd h
  read_sessions-IsTracked key (some (k, login)) (some token) h = elim (Bool-cases (holds key k)) [
    | inl own ↦
        let opened = codec.unseal-seal k (codec.stringify h.sessions) token h.sealed_under in
        let same = holds-eq key k own in
        rw own (
          subst (IsTracked login)
            (sym (
              read_sessions-readable key token h.sessions (
                subst (λ o. codec.unseal o token ≡ some (codec.stringify h.sessions)) (sym same)
                  opened)))
            h.tracked)
    | inr other ↦
        let closed =
          codec.unseal_other key k (codec.stringify h.sessions) token h.sealed_under other in
        rw other (
          subst (IsTracked []) (sym (read_sessions-unreadable key token closed))
            (record { few = omega arith; current_one = refl }))
  ]

  -- What is written under a key.
  write-IsStored :
      (k : ℕ) (login sessions : List LoginSession) (stored : Option (List ℕ))
      → Seals codec
      → IsTracked login sessions
      → IsStored codec
          (some (k, login))
          (write_encrypted_local codec (some k) (codec.stringify sessions) stored)
  unfolding write_encrypted_local
  write-IsStored k login sessions stored seals tracked =
      let (token, sealed) = seals k (codec.stringify sessions) in
      subst (IsStored codec (some (k, login))) (sym (written token sealed))
        (record { sessions = sessions; sealed_under = sealed; tracked = tracked })
    where
      written :
          (token : List ℕ)
          → codec.seal k (codec.stringify sessions) ≡ some token
          → write_encrypted_local codec (some k) (codec.stringify sessions) stored ≡ some token
      written token sealed = rw (write_encrypted_local, sealed) refl

  after-IsStored :
      (run : List Operation) → Seals codec → IsStored codec (last_login t run) (after t codec run)
  unfolding record_session clear_other_sessions clear_all_sessions write_encrypted_local
  after-IsStored [] seals = tt
  after-IsStored (recording none w ∷ before) seals = after-IsStored before seals
  after-IsStored (recording (some k) w ∷ before) seals =
      let existing = read_sessions codec (some k) (after t codec before) in
      write-IsStored k (session_of t w ∷ []) (with_session (session_of t w) existing)
        (after t codec before) seals
        (with_session-IsTracked (session_of t w) existing (session_of-current t w))
  after-IsStored (clearing_others none ∷ before) seals = after-IsStored before seals
  after-IsStored (clearing_others (some k) ∷ before) seals =
      let stored = read_sessions codec (some k) (after t codec before) in
      let tracked =
        read_sessions-IsTracked (some k) (last_login t before) (after t codec before)
          (after-IsStored before seals) in
      write-IsStored k (visible (some k) (last_login t before)) (current stored)
        (after t codec before) seals
        (record {
          few = omega (arith, length-current stored, tracked.few);
          current_one = current-current stored ∙ tracked.current_one;
        })
  after-IsStored (clearing_all ∷ before) seals = tt

  -- Sorting keeps the current session.
  current-sort :
      (login sessions : List LoginSession)
      → AtMostOne login
      → current sessions ≡ login
      → current (sort sessions) ≡ login
  current-sort [] sessions one same = current-sort_none sessions same
  current-sort (c ∷ []) sessions one same = current-sort_only c sessions same
  current-sort (c ∷ d ∷ login) sessions one same = absurd one

  -- What is visible is one login at most.
  visible-AtMostOne :
      (key : Option ℕ) (run : List Operation) → AtMostOne (visible key (last_login t run))
  visible-AtMostOne key [] = tt
  visible-AtMostOne key (recording none w ∷ before) = visible-AtMostOne key before
  visible-AtMostOne key (recording (some k) w ∷ before) = shown (holds key k)
    where
      shown : (b : Bool) → AtMostOne (if b then session_of t w ∷ [] else [])
      shown true = tt
      shown false = tt
  visible-AtMostOne key (clearing_others none ∷ before) = visible-AtMostOne key before
  visible-AtMostOne key (clearing_others (some k) ∷ before) =
      shown (holds key k) (visible-AtMostOne (some k) before)
    where
      shown :
          (b : Bool)
          → AtMostOne (visible (some k) (last_login t before))
          → AtMostOne (if b then visible (some k) (last_login t before) else [])
      shown true h = h
      shown false h = tt
  visible-AtMostOne key (clearing_all ∷ before) = tt

  -- The list of sessions after any run of operations from an empty storage, each with the v2 key
  -- that is in memory at the time or with none, without a server session and if encrypting under a
  -- key does not fail: whatever key is in memory when it is read, it shows at most 20 entries, the
  -- newest first. Marked as current is at most one, the session of the last login with a key in
  -- memory, and exactly if the list is read under that key and since that login was not cleared,
  -- nor its other entries under another key.
  pub get_sessions-after :
      (run : List Operation) (key : Option ℕ)
      → Seals codec
      → (length (get_sessions codec key none (after t codec run)) ≤ 20)
        × (is_newest_first (get_sessions codec key none (after t codec run)) ≡ true)
        × (current (get_sessions codec key none (after t codec run))
            ≡ visible key (last_login t run))
  unfolding get_sessions
  get_sessions-after run key seals =
      let stored = read_sessions codec key (after t codec run) in
      let tracked =
        read_sessions-IsTracked key (last_login t run) (after t codec run)
          (after-IsStored run seals) in
      (
        omega (arith, length-sort stored, tracked.few),
        sort_sorted stored,
        current-sort (visible key (last_login t run)) stored (visible-AtMostOne key run)
            tracked.current_one,
      )
