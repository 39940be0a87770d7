-- ===== src/Server/Sessions/Examples.antt =====
-- The theorems on web/lib/session.js at concrete inputs.
use pwdnow_password_manager.Prelude.{
  ℕ, ◌+◌, ◌≡◌, refl, ap, List, [], ◌∷◌, ◌&&◌, Option, none, some, ltb, leb, length, if◌then◌else◌,
}
use pwdnow_password_manager.Text.{text}
use pwdnow_password_manager.Text.Rows.{written, reading, reading-written}
use pwdnow_password_manager.Server.Sessions.{
  User, Accounts, Payload, Tokens, Request, AuthUser, Surroundings, jwe_ttl_seconds,
  find_user_by_id, record_session, issue_jwt, auth_middleware, logout, passes_csrf,
}
use pwdnow_password_manager.Server.Sessions.Accepted.{
  Login, after_logins, own, auth_middleware-after_logins, auth_middleware-logout,
}

abbrev payload_in : List (List ℕ) → Option Payload
payload_in (sub ∷ jti ∷ (exp ∷ []) ∷ rest) = some (record { sub = sub; jti = jti; exp = exp })
payload_in _ = none

abbrev behind_mark : List ℕ → List ℕ
behind_mark [] = []
behind_mark (c ∷ s) = s

abbrev unless_expired : ℕ → Option Payload → Option Payload
unless_expired now none = none
unless_expired now (some p) = if ltb now p.exp then some p else none

-- Tokens that hide nothing.
abbrev plain_tokens : Tokens
plain_tokens = record {
  encrypt = λ p. 1 ∷ written (p.sub ∷ p.jti ∷ (p.exp ∷ []) ∷ []);
  encrypt_some = λ p. refl;
  decrypt = λ now t. unless_expired now (payload_in (reading [] (behind_mark t)));
  decrypt-encrypt = λ now p.
      ap (λ vs. unless_expired now (payload_in vs))
        (reading-written (p.sub ∷ p.jti ∷ (p.exp ∷ []) ∷ []));
}

abbrev ann : User
ann = record { id = text "ann"; email_hash = text "h" }

abbrev accounts : Accounts
accounts = record { users = ann ∷ []; sessions = λ uid. none }

abbrev here : Surroundings
here = record { now = 5000; public_ip = none; hash_with_day = λ ip. ip }

abbrev request : List ℕ → Request
request token = record {
  method = text "POST";
  session_cookie = some token;
  csrf_cookie = some (text "c");
  csrf_header = some (text "c");
  user_agent = text "Chrome/120";
  ip = text "10.0.0.7";
  remote_address = [];
  browser_hint = some (text "Brave");
}

abbrev token : List ℕ
token = issue_jwt plain_tokens 100 (text "ann") (text "t1")

abbrev login : List ℕ → List ℕ → Login
login uid jti = record { uid = uid; jti = jti; request = request []; surroundings = here }

abbrev two_logins : List Login
two_logins = login (text "ann") (text "t2") ∷ login (text "bob") (text "t1") ∷ []

auth_middleware-after_logins_example :
    auth_middleware plain_tokens 200
      (request token)
      (after_logins two_logins (record_session here (text "ann") (text "t1") (request []) accounts))
    ≡ (if ltb 200 (100 + jwe_ttl_seconds) && leb (length (own (text "ann") two_logins)) 19
        then some (record {
          id = text "ann";
          email_hash = text "h";
          jti = text "t1";
          exp = 100 + jwe_ttl_seconds;
        })
        else none)
unfolding find_user_by_id
auth_middleware-after_logins_example =
    auth_middleware-after_logins plain_tokens accounts (text "ann") (text "t1") ann here
      (request []) (request token) two_logins 100 200 refl refl refl

abbrev logged_in : Accounts
logged_in = record_session here (text "ann") (text "t1") (request []) accounts

abbrev ann_now : AuthUser
ann_now = record {
  id = text "ann";
  email_hash = text "h";
  jti = text "t1";
  exp = 100 + jwe_ttl_seconds;
}

auth_middleware-logout_example :
    auth_middleware plain_tokens 400 (request token) (
      after_logins
        (login (text "ann") (text "t2") ∷ [])
        (logout plain_tokens 300 (request token) logged_in).1)
    ≡ none
unfolding find_user_by_id passes_csrf record_session
auth_middleware-logout_example =
    auth_middleware-logout plain_tokens logged_in (text "ann") (text "t1") ann ann_now
      (request token) (request token) (login (text "ann") (text "t2") ∷ []) 100 300 400 refl refl
      refl accepted refl refl
  where
    accepted : auth_middleware plain_tokens 300 (request token) logged_in ≡ some ann_now
    accepted =
        auth_middleware-after_logins plain_tokens accounts (text "ann") (text "t1") ann here
          (request []) (request token) [] 100 300 refl refl refl
