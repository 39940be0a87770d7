-- ===== src/SecurityModes.antt =====
-- Failed logins: the lockout and the duress counter of web/src/utils/securityModes.ts. The two
-- configurations that the browser stores are the state; times are milliseconds.
pub mod Attempts
pub mod Travel
mod Examples
use pwdnow_password_manager.Prelude.{
  ℕ, suc, ◌+◌, ◌-◌, ◌*◌, ◌/◌, List, [], ◌∷◌, Bool, true, false, Option, none, some, leb, ◌==◌,
  if◌then◌else◌,
}

pub record LockoutConfig : Type 0 where
  pub enabled : Bool
  pub max_attempts : ℕ
  pub lockout_duration_mins : ℕ
  pub attempts_made : ℕ
  pub locked_until : Option ℕ

-- The hash and the salt, which the counter does not touch, are left out.
pub record DuressModeConfig : Type 0 where
  pub armed : Bool
  pub max_attempts : ℕ
  pub attempts_remaining : ℕ

pub record Store : Type 0 where
  pub lockout : LockoutConfig
  pub duress : DuressModeConfig

-- `{ locked, remainingMins }` while `until` lies ahead
abbrev pub locked_at : ℕ → ℕ → Bool × ℕ
locked_at now until = if leb until now then (false, 0) else (true, (until - now + 59999) / 60000)

unfoldable pub check_is_locked_out : ℕ → LockoutConfig → Bool × ℕ
check_is_locked_out now cfg =
    if cfg.enabled
    then elim cfg.locked_until [
      | none ↦ (false, 0)
      | some until ↦ if until == 0 then (false, 0) else locked_at now until
    ]
    else (false, 0)

unfoldable pub count_lockout : ℕ → LockoutConfig → LockoutConfig
count_lockout now cfg =
    if cfg.enabled
    then (if leb cfg.max_attempts (cfg.attempts_made + 1)
        then record cfg {
          attempts_made = cfg.attempts_made + 1;
          locked_until = some (now + cfg.lockout_duration_mins * 60000);
        }
        else record cfg { attempts_made = cfg.attempts_made + 1 })
    else cfg

unfoldable pub count_duress : DuressModeConfig → DuressModeConfig
count_duress cfg =
    if cfg.armed then record cfg { attempts_remaining = cfg.attempts_remaining - 1 } else cfg

-- Whether the vault is to be wiped, and the configurations saved.
unfoldable pub record_failed_login_attempt : ℕ → Store → Bool × Store
unfolding count_lockout count_duress
record_failed_login_attempt now s =
    let duress' = count_duress s.duress in
    (
      if s.duress.armed then duress'.attempts_remaining == 0 else false,
      record { lockout = count_lockout now s.lockout; duress = duress' },
    )

unfoldable pub reset_login_attempts : Store → Store
reset_login_attempts s = record {
  lockout = record s.lockout { attempts_made = 0; locked_until = none };
  duress =
      if s.duress.armed
      then record s.duress { attempts_remaining = s.duress.max_attempts }
      else s.duress;
}
