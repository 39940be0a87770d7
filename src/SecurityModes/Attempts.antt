-- ===== src/SecurityModes/Attempts.antt =====
-- What a row of failed logins leads to (web/src/utils/securityModes.ts).
use pwdnow_password_manager.Prelude.{
  ℕ, ◌+◌, ◌-◌, ◌*◌, ◌≤◌, ◌<◌, ◌≡◌, refl, List, [], ◌∷◌, true, length, leb, arith,
}
use pwdnow_password_manager.SecurityModes.{
  Store, check_is_locked_out, count_lockout, count_duress, record_failed_login_attempt,
  reset_login_attempts,
}

-- The store after failed logins at the given times, the last one first.
abbrev pub after_failures : Store → List ℕ → Store
after_failures s [] = s
after_failures s (now ∷ before) = (record_failed_login_attempt now (after_failures s before)).1

-- The counters after the failures that follow a reset.
record IsCounted (s : Store) (k : ℕ) (t : Store) : Type 0 where
  same_enabled : t.lockout.enabled ≡ s.lockout.enabled
  same_max : t.lockout.max_attempts ≡ s.lockout.max_attempts
  same_mins : t.lockout.lockout_duration_mins ≡ s.lockout.lockout_duration_mins
  made : t.lockout.attempts_made ≡ k
  same_armed : t.duress.armed ≡ s.duress.armed
  remaining : t.duress.attempts_remaining ≡ s.duress.max_attempts - k

after_failures-IsCounted :
    (s : Store) (times : List ℕ)
    → s.lockout.enabled ≡ true
    → s.duress.armed ≡ true
    → IsCounted s (length times) (after_failures (reset_login_attempts s) times)
unfolding record_failed_login_attempt reset_login_attempts count_lockout count_duress
after_failures-IsCounted s [] on armed = record {
  same_enabled = refl;
  same_max = refl;
  same_mins = refl;
  made = refl;
  same_armed = ground arith;
  remaining = ground arith;
}
after_failures-IsCounted s (now ∷ before) on armed =
    let c = after_failures-IsCounted s before on armed in
    let e = c.same_enabled in
    let m = c.same_max in
    let d = c.same_mins in
    let k = c.made in
    let a = c.same_armed in
    let r = c.remaining in
    record {
      same_enabled = ground arith;
      same_max = ground arith;
      same_mins = ground arith;
      made = ground arith;
      same_armed = ground arith;
      remaining = ground arith;
    }

-- The wipe comes with the last allowed attempt: after a reset, with the lockout enabled and the
-- duress mode armed, a failed login asks for the wipe exactly when it and the failures before it
-- are at least the maximal number of attempts.
pub record_failed_login_attempt-wipes :
    (s : Store) (before : List ℕ) (now : ℕ)
    → s.lockout.enabled ≡ true
    → s.duress.armed ≡ true
    → (record_failed_login_attempt now (after_failures (reset_login_attempts s) before)).0
      ≡ leb s.duress.max_attempts (length before + 1)
unfolding record_failed_login_attempt count_duress
record_failed_login_attempt-wipes s before now on armed =
    let c = after_failures-IsCounted s before on armed in
    let a = c.same_armed in let r = c.remaining in ground arith

-- Too many failures lock: after a reset, with the lockout enabled and the duress mode armed, once
-- the failures are as many as the maximal number of attempts, the login is locked from the last
-- failure until the lockout's duration has passed.
pub check_is_locked_out-after_failures :
    (s : Store) (before : List ℕ) (last now : ℕ)
    → s.lockout.enabled ≡ true
    → s.duress.armed ≡ true
    → s.lockout.max_attempts ≤ length before + 1
    → now < last + s.lockout.lockout_duration_mins * 60000
    → (check_is_locked_out now (after_failures (reset_login_attempts s) (last ∷ before)).lockout).0
      ≡ true
unfolding check_is_locked_out record_failed_login_attempt count_lockout
check_is_locked_out-after_failures s before last now on armed many early =
    let c = after_failures-IsCounted s before on armed in
    let e = c.same_enabled in
    let m = c.same_max in let d = c.same_mins in let k = c.made in ground arith
