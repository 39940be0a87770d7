-- ===== src/SecurityModes/Examples.antt =====
-- The theorems on web/src/utils/securityModes.ts at concrete inputs.
use pwdnow_password_manager.Prelude.{
  ℕ, List, ◌+◌, ◌≡◌, refl, [], ◌∷◌, true, none, length, leb, arith,
}
use pwdnow_password_manager.SecurityModes.{
  Store, check_is_locked_out, record_failed_login_attempt, reset_login_attempts,
}
use pwdnow_password_manager.SecurityModes.Attempts.{
  after_failures, record_failed_login_attempt-wipes, check_is_locked_out-after_failures,
}

abbrev earlier : List ℕ
earlier = 2000 ∷ 1000 ∷ []

abbrev store : Store
store = record {
  lockout = record {
    enabled = true;
    max_attempts = 3;
    lockout_duration_mins = 5;
    attempts_made = 0;
    locked_until = none;
  };
  duress = record { armed = true; max_attempts = 3; attempts_remaining = 3 };
}

record_failed_login_attempt-wipes_example :
    (record_failed_login_attempt 3000 (after_failures (reset_login_attempts store) earlier)).0
    ≡ leb 3 (length earlier + 1)
record_failed_login_attempt-wipes_example =
    record_failed_login_attempt-wipes store earlier 3000 refl refl

check_is_locked_out-after_failures_example :
    (check_is_locked_out 4000
      (after_failures (reset_login_attempts store) (3000 ∷ earlier)).lockout).0
    ≡ true
check_is_locked_out-after_failures_example =
    check_is_locked_out-after_failures store earlier 3000 4000 refl refl (omega arith) (omega arith)
