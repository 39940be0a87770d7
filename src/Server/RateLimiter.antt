-- ===== src/Server/RateLimiter.antt =====
-- The server's limits: web/lib/rateLimiter.js. Counters and lockouts stand in the key-value store.
pub mod Windows
pub mod Lockout
pub mod FingerprintLog
use pwdnow_password_manager.Prelude.{
  ℕ, ◌+◌, ◌-◌, ◌*◌, ◌/◌, ◌≡◌, List, [], ◌∷◌, ◌++◌, Bool, true, false, Option, none, some, ltb, leb,
  ◌==◌, if◌then◌else◌, length, get_or, min, max, take, drop, not, ◌&&◌, map,
}
use pwdnow_password_manager.Text.{text, text_eq}
use pwdnow_password_manager.Server.StateStore.{NumberText, Store, incr_expire, get, set, del}

-- The headers set on the response; `retry_after` in seconds, where it is set.
pub record RateHeaders : Type 0 where
  pub limit : ℕ
  pub remaining : ℕ
  pub retry_after : Option ℕ

pub record Checked : Type 0 where
  pub allowed : Bool
  pub headers : Option RateHeaders

-- A limit: the prefix of its keys, its number per window, and the window in milliseconds.
pub record Limit : Type 0 where
  pub prefix : List ℕ
  pub max_per_window : ℕ
  pub window_ms : ℕ

abbrev pub rate_headers : Limit → ℕ → RateHeaders
rate_headers l count = record {
  limit = l.max_per_window;
  remaining = l.max_per_window - count;
  retry_after = if ltb l.max_per_window count then some ((l.window_ms + 999) / 1000) else none;
}

abbrev pub login_limit : Limit
login_limit = record { prefix = text "rl:login:"; max_per_window = 10; window_ms = 5 * 60 * 1000 }

abbrev pub hints_limit : Limit
hints_limit = record { prefix = text "rl:hints:"; max_per_window = 60; window_ms = 5 * 60 * 1000 }

abbrev pub rpc_limit : Limit
rpc_limit = record { prefix = text "rl:rpc:"; max_per_window = 60; window_ms = 60 * 1000 }

abbrev pub register_limit : Limit
register_limit = record {
  prefix = text "rl:register:";
  max_per_window = 5;
  window_ms = 60 * 60 * 1000;
}

abbrev pub register_email_limit : Limit
register_email_limit = record {
  prefix = text "rl:register:email:";
  max_per_window = 3;
  window_ms = 24 * 60 * 60 * 1000;
}

abbrev pub emergency_limit : Limit
emergency_limit = record {
  prefix = text "rl:emergency:";
  max_per_window = 5;
  window_ms = 60 * 1000;
}

abbrev pub setup_exec_limit : Limit
setup_exec_limit = record {
  prefix = text "rl:setupexec:";
  max_per_window = 5;
  window_ms = 5 * 60 * 1000;
}

abbrev pub dns_check_limit : Limit
dns_check_limit = record {
  prefix = text "rl:dnscheck:";
  max_per_window = 10;
  window_ms = 60 * 1000;
}

abbrev pub share_create_limit : Limit
share_create_limit = record {
  prefix = text "rl:sharecreate:";
  max_per_window = 20;
  window_ms = 60 * 60 * 1000;
}

module _ (numbers : NumberText) where
  -- The body that the nine functions share; `res` tells whether a response was handed in.
  unfoldable pub check_rate : Limit → ℕ → List ℕ → Bool → Store → Checked × Store
  unfolding incr_expire
  check_rate l now id res s =
      let (count, s') = incr_expire numbers now (l.prefix ++ id) l.window_ms s in
      (
        record {
          allowed = leb count l.max_per_window;
          headers = if res then some (rate_headers l count) else none;
        },
        s',
      )

  abbrev pub check_login_rate : ℕ → List ℕ → Bool → Store → Checked × Store
  check_login_rate = check_rate login_limit

  abbrev pub check_hints_rate : ℕ → List ℕ → Bool → Store → Checked × Store
  check_hints_rate = check_rate hints_limit

  abbrev pub check_rpc_rate : ℕ → List ℕ → Bool → Store → Checked × Store
  check_rpc_rate = check_rate rpc_limit

  abbrev pub check_register_rate : ℕ → List ℕ → Bool → Store → Checked × Store
  check_register_rate = check_rate register_limit

  abbrev pub check_register_email_rate : ℕ → List ℕ → Bool → Store → Checked × Store
  check_register_email_rate = check_rate register_email_limit

  abbrev pub check_emergency_rate : ℕ → List ℕ → Bool → Store → Checked × Store
  check_emergency_rate = check_rate emergency_limit

  abbrev pub check_setup_exec_rate : ℕ → List ℕ → Bool → Store → Checked × Store
  check_setup_exec_rate = check_rate setup_exec_limit

  abbrev pub check_dns_rate : ℕ → List ℕ → Bool → Store → Checked × Store
  check_dns_rate = check_rate dns_check_limit

  abbrev pub check_share_create_rate : ℕ → List ℕ → Bool → Store → Checked × Store
  check_share_create_rate = check_rate share_create_limit

abbrev pub lockout_schedule_ms : List ℕ
lockout_schedule_ms = 0 ∷ 0 ∷ 0 ∷ 0 ∷ 0 ∷ 30000 ∷ 60000 ∷ 120000 ∷ 300000 ∷ 600000 ∷ []

-- What is stored for an account or for a fingerprint.
pub record Failures : Type 0 where
  pub count : ℕ
  pub locked_until : ℕ

-- `JSON.stringify` and `JSON.parse` of such a record.
pub record FailuresText : Type 0 where
  pub stringify : Failures → List ℕ
  pub parse : List ℕ → Failures
  pub parse-stringify : (f : Failures) → parse (stringify f) ≡ f

-- `SCHEDULE[Math.min(count, SCHEDULE.length - 1)]`
abbrev pub lock_ms_of : ℕ → ℕ
lock_ms_of count = get_or lockout_schedule_ms (min count (length lockout_schedule_ms - 1)) 0

module _ (json : FailuresText) where
  abbrev pub previous : Option (List ℕ) → Failures
  previous none = record { count = 0; locked_until = 0 }
  previous (some raw) = json.parse raw

  -- The entry's text, if it is there, and the store after the read.
  abbrev pub is_open : ℕ → Option (List ℕ) → Bool
  is_open now none = true
  is_open now (some raw) =
      let until = (json.parse raw).locked_until in if until == 0 then true else leb until now

  -- The account and the fingerprint lockouts differ in the prefix of their keys only.
  unfoldable pub check_lockout : List ℕ → ℕ → List ℕ → Store → Bool × Store
  unfolding get
  check_lockout prefix now id s = let (raw, s') = get now (prefix ++ id) s in (is_open now raw, s')

  unfoldable pub record_failure : List ℕ → ℕ → List ℕ → Store → Store
  unfolding get set
  record_failure prefix now id s =
      let (raw, s') = get now (prefix ++ id) s in
      let count = (previous raw).count + 1 in
      let lock_ms = lock_ms_of count in
      set now (prefix ++ id)
        (json.stringify
          (record { count = count; locked_until = if ltb 0 lock_ms then now + lock_ms else 0 }))
        (max lock_ms (60 * 60 * 1000)) s'

  abbrev pub check_account_rate : ℕ → List ℕ → Store → Bool × Store
  check_account_rate = check_lockout (text "lockout:acct:")

  abbrev pub record_account_failure : ℕ → List ℕ → Store → Store
  record_account_failure = record_failure (text "lockout:acct:")

  abbrev pub check_fingerprint_rate : ℕ → List ℕ → Store → Bool × Store
  check_fingerprint_rate = check_lockout (text "lockout:fp:")

  abbrev pub record_fingerprint_failure : ℕ → List ℕ → Store → Store
  record_fingerprint_failure = record_failure (text "lockout:fp:")

unfoldable pub reset_account_failures : List ℕ → Store → Store
unfolding del
reset_account_failures email_hash s = del (text "lockout:acct:" ++ email_hash) s

unfoldable pub reset_fingerprint_failures : List ℕ → Store → Store
unfolding del
reset_fingerprint_failures identity s = del (text "lockout:fp:" ++ identity) s
