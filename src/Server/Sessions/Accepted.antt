-- ===== src/Server/Sessions/Accepted.antt =====
-- Until when a token is accepted (web/lib/session.js, web/routes/auth/sessions.js).
use pwdnow_password_manager.Prelude.{
  ℕ, ◌+◌, ◌-◌, ◌≡◌, refl, ◌∙◌, sym, subst, ap, List, [], ◌∷◌, ◌++◌, Bool, true, false, ◌&&◌, not,
  inl, inr, Bool-cases, none, some, length, drop, ltb, leb, arith, if◌then◌else◌, or_else,
  length-append, drop-append_le,
}
use pwdnow_password_manager.Text.{text_eq, text_eq→eq, text_eq_refl}
use pwdnow_password_manager.Server.Sessions.{
  User, Accounts, Payload, Tokens, Request, AuthUser, Surroundings, jwe_ttl_seconds,
  find_user_by_id, load_sessions, save_sessions, passes_csrf, session_of, record_session, issue_jwt,
  auth_middleware, logout,
}
use pwdnow_password_manager.Server.Sessions.Recorded.{
  jtis, mem, others, recorded, run, fresh, has_jti-eq-mem, jtis-with_session, jtis-keep, mem-others,
  mem-run-false,
}
use pwdnow_password_manager.Server.Sessions.Kept.{mem-run}

-- A login of some user.
pub record Login : Type 0 where
  pub uid : List ℕ
  pub jti : List ℕ
  pub request : Request
  pub surroundings : Surroundings

abbrev pub after_logins : List Login → Accounts → Accounts
after_logins [] acc = acc
after_logins (l ∷ ls) acc =
    after_logins ls (record_session l.surroundings l.uid l.jti l.request acc)

-- The ids of the user's own logins.
abbrev pub own : List ℕ → List Login → List (List ℕ)
own uid [] = []
own uid (l ∷ ls) = if text_eq uid l.uid then l.jti ∷ own uid ls else own uid ls

abbrev ids : List ℕ → Accounts → List (List ℕ)
ids uid acc = jtis (load_sessions uid acc)

session_of-jti :
    (w : Surroundings) (jti : List ℕ) (req : Request) → (session_of w jti req).jti ≡ jti
unfolding session_of
session_of-jti w jti req = refl

ids-record_session :
    (w : Surroundings) (uid jti : List ℕ) (req : Request) (acc : Accounts)
    → ids uid (record_session w uid jti req acc) ≡ recorded jti (ids uid acc)
unfolding record_session load_sessions save_sessions
ids-record_session w uid jti req acc =
    rw (text_eq_refl uid) (jtis-with_session (session_of w jti req) (or_else (acc.sessions uid) []))

ids-record_session_other :
    (w : Surroundings) (uid v jti : List ℕ) (req : Request) (acc : Accounts)
    → text_eq uid v ≡ false
    → ids uid (record_session w v jti req acc) ≡ ids uid acc
unfolding record_session load_sessions save_sessions
ids-record_session_other w uid v jti req acc other = rw other refl

ids-after_logins :
    (uid : List ℕ) (logins : List Login) (acc : Accounts)
    → ids uid (after_logins logins acc) ≡ run (own uid logins) (ids uid acc)
ids-after_logins uid [] acc = refl
ids-after_logins uid (l ∷ ls) acc =
    let acc' = record_session l.surroundings l.uid l.jti l.request acc in
    elim (Bool-cases (text_eq uid l.uid)) [
      | inl mine ↦
          let e : uid ≡ l.uid = text_eq→eq uid l.uid mine in
          let recorded_here : ids uid acc' ≡ recorded l.jti (ids uid acc) =
            subst
              (λ v.
                ids uid (record_session l.surroundings v l.jti l.request acc)
                ≡ recorded l.jti (ids uid acc))
              e (ids-record_session l.surroundings uid l.jti l.request acc) in
          rw mine (ids-after_logins uid ls acc' ∙ ap (run (own uid ls)) recorded_here)
      | inr other ↦ rw other (
          ids-after_logins uid ls acc'
          ∙ ap (run (own uid ls))
              (ids-record_session_other l.surroundings uid l.uid l.jti l.request acc other))
    ]

users-record_session :
    (w : Surroundings) (uid jti : List ℕ) (req : Request) (acc : Accounts)
    → (record_session w uid jti req acc).users ≡ acc.users
unfolding record_session save_sessions
users-record_session w uid jti req acc = refl

users-after_logins :
    (logins : List Login) (acc : Accounts) → (after_logins logins acc).users ≡ acc.users
users-after_logins [] acc = refl
users-after_logins (l ∷ ls) acc =
    users-after_logins ls (record_session l.surroundings l.uid l.jti l.request acc)
    ∙ users-record_session l.surroundings l.uid l.jti l.request acc

find_user_by_id-id :
    (id : List ℕ) (users : List User) (u : User) → find_user_by_id id users ≡ some u → u.id ≡ id
unfolding find_user_by_id
find_user_by_id-id id [] u h = cc
find_user_by_id-id id (x ∷ xs) u h = elim (Bool-cases (text_eq x.id id)) [
  | inl same ↦ let e = text_eq→eq x.id id same in ground arith
  | inr other ↦ find_user_by_id-id id xs u (ground arith)
]

-- What the middleware makes of an issued token.
auth_middleware-issued :
    (tokens : Tokens) (acc : Accounts) (uid jti : List ℕ) (u : User) (req : Request)
    (issued now : ℕ)
    → req.session_cookie ≡ some (issue_jwt tokens issued uid jti)
    → find_user_by_id uid acc.users ≡ some u
    → auth_middleware tokens now req acc ≡ (
        if ltb now (issued + jwe_ttl_seconds) && mem jti (ids uid acc)
        then some (record {
          id = uid;
          email_hash = u.email_hash;
          jti = jti;
          exp = issued + jwe_ttl_seconds;
        })
        else none)
unfolding auth_middleware issue_jwt
auth_middleware-issued tokens acc uid jti u req issued now cookie known =
    let payload : Payload = record { sub = uid; jti = jti; exp = issued + jwe_ttl_seconds } in
    let there = tokens.encrypt_some payload in
    let decrypted = tokens.decrypt-encrypt now payload in
    let same = find_user_by_id-id uid acc.users u known in
    let listed = has_jti-eq-mem jti (load_sessions uid acc) in ground arith

recorded-last :
    (jti : List ℕ) (l : List (List ℕ)) → (pre : List (List ℕ)) × (recorded jti l ≡ pre ++ jti ∷ [])
recorded-last jti l =
    let front = others jti l in
    let n = length (front ++ jti ∷ []) - 20 in
    (
      drop n front,
      drop-append_le n front (jti ∷ []) (omega (arith, length-append front (jti ∷ []))),
    )

-- The life of a token: where a user's login is recorded and then any logins of any users, those of
-- that user with new ids, a request with the login's token is that user's exactly while the
-- token's 24 hours last and the user's later logins are at most 19; else it is nobody's.
pub auth_middleware-after_logins :
    (tokens : Tokens) (acc : Accounts) (uid jti : List ℕ) (u : User) (w : Surroundings)
    (login req : Request) (logins : List Login) (issued now : ℕ)
    → find_user_by_id uid acc.users ≡ some u
    → fresh (jti ∷ []) (own uid logins) ≡ true
    → req.session_cookie ≡ some (issue_jwt tokens issued uid jti)
    → auth_middleware tokens now req (after_logins logins (record_session w uid jti login acc)) ≡ (
        if ltb now (issued + jwe_ttl_seconds) && leb (length (own uid logins)) 19
        then some (record {
          id = uid;
          email_hash = u.email_hash;
          jti = jti;
          exp = issued + jwe_ttl_seconds;
        })
        else none)
auth_middleware-after_logins tokens acc uid jti u w login req logins issued now known new cookie =
    let js = own uid logins in
    let acc' = after_logins logins (record_session w uid jti login acc) in
    let (pre, e) = recorded-last jti (ids uid acc) in
    let listed : mem jti (ids uid acc') ≡ leb (length js) 19 =
      ap (mem jti) (ids-after_logins uid logins (record_session w uid jti login acc))
      ∙ ap (λ l. mem jti (run js l)) (ids-record_session w uid jti login acc ∙ e)
      ∙ mem-run jti pre [] js refl (omega arith) new
      ∙ ap (λ n. leb n 19) (zero_left (length js)) in
    auth_middleware-issued tokens acc' uid jti u req issued now cookie (
      ap (find_user_by_id uid) (
        users-after_logins logins (record_session w uid jti login acc)
        ∙ users-record_session w uid jti login acc)
      ∙ known)
    ∙ ap
        (λ b.
          if ltb now (issued + jwe_ttl_seconds) && b
          then some (record {
            id = uid;
            email_hash = u.email_hash;
            jti = jti;
            exp = issued + jwe_ttl_seconds;
          })
          else none)
        listed
  where
    zero_left : (n : ℕ) → 0 + n ≡ n
    zero_left n = omega arith

-- The accounts after a logout that was carried out.
ids-logout :
    (tokens : Tokens) (acc : Accounts) (now : ℕ) (req : Request) (user : AuthUser)
    → auth_middleware tokens now req acc ≡ some user
    → passes_csrf req ≡ true
    → (ids user.id (logout tokens now req acc).1 ≡ others user.jti (ids user.id acc))
      × ((logout tokens now req acc).1.users ≡ acc.users)
unfolding logout load_sessions save_sessions
ids-logout tokens acc now req user known passed =
    rw (passed, known, text_eq_refl user.id)
      (jtis-keep (λ j. not (text_eq j user.jti)) (or_else (acc.sessions user.id) []), refl)

if-&&_false {ℓ} : {A : Type ℓ} (b : Bool) (x y : A) → (if b && false then x else y) ≡ y
if-&&_false true x y = refl
if-&&_false false x y = refl

-- A logout is final: where the middleware makes a user of a request with an issued token, and the
-- request passes the CSRF check, then after its logout and any later logins of any users, those of
-- that user under other ids, no request with the token is accepted at any time.
pub auth_middleware-logout :
    (tokens : Tokens) (acc : Accounts) (uid jti : List ℕ) (u : User) (user : AuthUser)
    (req later_req : Request) (logins : List Login) (issued now later : ℕ)
    → find_user_by_id uid acc.users ≡ some u
    → req.session_cookie ≡ some (issue_jwt tokens issued uid jti)
    → later_req.session_cookie ≡ some (issue_jwt tokens issued uid jti)
    → auth_middleware tokens now req acc ≡ some user
    → passes_csrf req ≡ true
    → mem jti (own uid logins) ≡ false
    → auth_middleware tokens later later_req (after_logins logins (logout tokens now req acc).1)
      ≡ none
auth_middleware-logout tokens acc uid jti u user req later_req logins issued now later known cookie
      later_cookie accepted passed new =
    let made =
      sym (auth_middleware-issued tokens acc uid jti u req issued now cookie known) ∙ accepted in
    let id : user.id ≡ uid = ground arith in
    let same_jti : user.jti ≡ jti = ground arith in
    let out = (logout tokens now req acc).1 in
    let acc' = after_logins logins out in
    let (left, kept_users) = ids-logout tokens acc now req user accepted passed in
    let gone : mem jti (ids uid out) ≡ false =
      subst (λ i. mem jti (ids i out) ≡ false) id
        (subst (λ j. mem j (ids user.id out) ≡ false) same_jti
          (ap (mem user.jti) left ∙ mem-others user.jti (ids user.id acc))) in
    let unlisted : mem jti (ids uid acc') ≡ false =
      ap (mem jti) (ids-after_logins uid logins out)
      ∙ mem-run-false jti (own uid logins) (ids uid out) gone new in
    auth_middleware-issued tokens acc' uid jti u later_req issued later later_cookie
      (ap (find_user_by_id uid) (users-after_logins logins out ∙ kept_users) ∙ known)
    ∙ rw unlisted (if-&&_false (ltb later (issued + jwe_ttl_seconds)) _ _)
