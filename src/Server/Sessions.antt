-- ===== src/Server/Sessions.antt =====
-- Login sessions on the server: web/lib/session.js, web/lib/csrf.js and the routes of
-- web/routes/auth/sessions.js that revoke sessions. The users and each user's stored sessions are
-- the state. Tokens (the library jose), the hash of an address and the day are parameters.
mod Requests
pub mod Recorded
pub mod Kept
pub mod Accepted
mod Examples
unfoldable pub use Requests.*
use pwdnow_password_manager.Prelude.{
  ℕ, ◌+◌, ◌-◌, ◌≡◌, List, [], ◌∷◌, ◌++◌, Bool, true, false, ◌&&◌, ◌||◌, not, Option, none, some,
  ltb, leb, ◌==◌, if◌then◌else◌, length, drop, take, keep, any, map, or_else,
}
use pwdnow_password_manager.Text.{text, text_eq, is_space, starts_with, contains}
use pwdnow_password_manager.SessionTracker.{mentions, mentions_version}

pub record User : Type 0 where
  pub id : List ℕ
  pub email_hash : List ℕ

pub record ServerSession : Type 0 where
  pub jti : List ℕ
  pub id : List ℕ
  pub timestamp : ℕ
  pub device_name : List ℕ
  pub ip : List ℕ
  pub is_current : Bool

pub record Accounts : Type 0 where
  pub users : List User
  pub sessions : List ℕ → Option (List ServerSession)

-- The claims of a token; times are seconds.
pub record Payload : Type 0 where
  pub sub : List ℕ
  pub jti : List ℕ
  pub exp : ℕ

-- A token decrypts to its claims until it expires, and other texts may not decrypt.
pub record Tokens : Type 0 where
  pub encrypt : Payload → List ℕ
  pub decrypt : ℕ → List ℕ → Option Payload
  pub encrypt_some : (p : Payload) → is_empty (encrypt p) ≡ false
  pub decrypt-encrypt :
      (now : ℕ) (p : Payload) → decrypt now (encrypt p) ≡ (if ltb now p.exp then some p else none)

pub record AuthUser : Type 0 where
  pub id : List ℕ
  pub email_hash : List ℕ
  pub jti : List ℕ
  pub exp : ℕ

abbrev pub jwe_ttl_seconds : ℕ
jwe_ttl_seconds = 86400

unfoldable pub find_user_by_id : List ℕ → List User → Option User
find_user_by_id id [] = none
find_user_by_id id (u ∷ us) = if text_eq u.id id then some u else find_user_by_id id us

unfoldable pub load_sessions : List ℕ → Accounts → List ServerSession
load_sessions uid acc = or_else (acc.sessions uid) []

unfoldable pub save_sessions : List ℕ → List ServerSession → Accounts → Accounts
save_sessions uid list acc = record acc {
  sessions = λ v. if text_eq v uid then some list else acc.sessions v;
}

unfoldable pub has_jti : List ℕ → List ServerSession → Bool
has_jti jti [] = false
has_jti jti (s ∷ ss) = text_eq s.jti jti || has_jti jti ss

unfoldable pub session_of : Surroundings → List ℕ → Request → ServerSession
unfolding device_name_of display_ip
session_of w jti req = record {
  jti = jti;
  id = jti;
  timestamp = w.now;
  device_name = device_name_of req;
  ip = display_ip w req;
  is_current = true;
}

-- The stored list with a new session: the newest 20.
unfoldable pub with_session : ServerSession → List ServerSession → List ServerSession
with_session new list =
    let all = keep (λ (s : ServerSession). not (text_eq s.jti new.jti)) list in
    let updated = map (λ (s : ServerSession). record s { is_current = false }) all ++ new ∷ [] in
    if ltb 20 (length updated) then drop (length updated - 20) updated else updated

unfoldable pub record_session : Surroundings → List ℕ → List ℕ → Request → Accounts → Accounts
unfolding with_session session_of load_sessions save_sessions
record_session w uid jti req acc =
    save_sessions uid (with_session (session_of w jti req) (load_sessions uid acc)) acc

module _ (tokens : Tokens) where
  unfoldable pub issue_jwt : ℕ → List ℕ → List ℕ → List ℕ
  issue_jwt now uid jti =
      tokens.encrypt (record { sub = uid; jti = jti; exp = now + jwe_ttl_seconds })

  -- `req.user`, where there is no token, no valid one, no such user or no active session
  -- `none`.
  unfoldable pub auth_middleware : ℕ → Request → Accounts → Option AuthUser
  unfolding find_user_by_id load_sessions has_jti
  auth_middleware now req acc =
      let token = or_else req.session_cookie [] in
      if is_empty token then none else elim (tokens.decrypt now token) [
        | none ↦ none
        | some payload ↦ elim (find_user_by_id payload.sub acc.users) [
          | none ↦ none
          | some u ↦
              if has_jti payload.jti (load_sessions u.id acc)
              then some (record {
                id = u.id;
                email_hash = u.email_hash;
                jti = payload.jti;
                exp = payload.exp;
              })
              else none
        ]
      ]

  -- The routes answer with a status and change the accounts.
  unfoldable pub logout : ℕ → Request → Accounts → ℕ × Accounts
  logout now req acc =
      let user = auth_middleware now req acc in
      if not (passes_csrf req) then (403, acc) else elim user [
        | none ↦ (200, acc)
        | some u ↦ (
          200,
          save_sessions u.id
              (keep (λ (s : ServerSession). not (text_eq s.jti u.jti)) (load_sessions u.id acc))
              acc,
        )
      ]

  unfoldable pub revoke_others : ℕ → Request → Accounts → ℕ × Accounts
  revoke_others now req acc = elim (auth_middleware now req acc) [
    | none ↦ (401, acc)
    | some u ↦ if not (passes_csrf req) then (403, acc) else (
      200,
      save_sessions u.id
          (keep (λ (s : ServerSession). text_eq s.jti u.jti) (load_sessions u.id acc)) acc,
    )
  ]
