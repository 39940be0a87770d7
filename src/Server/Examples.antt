-- ===== src/Server/Examples.antt =====
-- The theorems on the server's store and limits at concrete inputs.
use pwdnow_password_manager.Prelude.{
  ℕ, ◌+◌, ◌≤◌, ◌≡◌, refl, List, [], ◌∷◌, true, false, none, leb, length, arith, get_or, min,
  replicate, length-replicate,
}
use pwdnow_password_manager.Text.{text}
use pwdnow_password_manager.Server.StateStore.{NumberText, find}
use pwdnow_password_manager.Server.RateLimiter.{
  FailuresText, emergency_limit, lock_ms_of, check_lockout,
}
use pwdnow_password_manager.Server.RateLimiter.Windows.{
  Attempt, attempts, admitted, admitted-WithinWindow,
}
use pwdnow_password_manager.Server.RateLimiter.Lockout.{
  after_failures, check_lockout-after_failures,
}
use pwdnow_password_manager.Server.RateLimiter.FingerprintLog.{
  Fingerprint, FingerprintEntry, make_fingerprint_log_entry, merge_fingerprint_log,
  has_distinct_ids, seen, failures_for, successes_for, merge_fingerprint_log-merged,
}

-- Numbers written with strokes `1`.
abbrev unary : NumberText
unary = record {
  string_of = λ n. replicate n 49;
  number_of = length;
  string_of_one = refl;
  number_of-string_of = λ n. length-replicate n 49;
}

abbrev pair : FailuresText
pair = record {
  stringify = λ f. f.count ∷ f.locked_until ∷ [];
  parse = λ s. record { count = get_or s 0 0; locked_until = get_or s 1 0 };
  parse-stringify = λ f. refl;
}

abbrev attempt : ℕ → List ℕ → Attempt
attempt time ip = record { limit = emergency_limit; time = time; id = ip }

abbrev the_attempts : List Attempt
the_attempts =
    attempt 1000 (text "a")
    ∷ attempt 1001 (text "b")
    ∷ attempt 1002 (text "a")
    ∷ attempt 1003 (text "a")
    ∷ attempt 1004 (text "a")
    ∷ attempt 1005 (text "a")
    ∷ attempt 1006 (text "a")
    ∷ []

abbrev key_a : List ℕ
key_a = text "rl:emergency:a"

-- The sixth attempt within the minute is refused.
admitted-WithinWindow_example :
    admitted unary key_a the_attempts [] ≡ min 5 (attempts key_a the_attempts)
unfolding find
admitted-WithinWindow_example =
    admitted-WithinWindow unary key_a 5 60000 1000 the_attempts []
      (
        λ h. (refl, refl, omega arith, omega arith),
        (
          λ h. (refl, refl, omega arith, omega arith),
          (
            λ h. (refl, refl, omega arith, omega arith),
            (
              λ h. (refl, refl, omega arith, omega arith),
              (
                λ h. (refl, refl, omega arith, omega arith),
                (
                  λ h. (refl, refl, omega arith, omega arith),
                  (λ h. (refl, refl, omega arith, omega arith), tt),
                ),
              ),
            ),
          ),
        ),
      )
      tt

-- The sixth failure in a row locks for a minute.
check_lockout-after_failures_example :
    (check_lockout pair (text "lockout:acct:") 1060004 (text "e") (
      after_failures pair
        (text "lockout:acct:")
        (text "e")
        (1000005 ∷ 1000004 ∷ 1000003 ∷ 1000002 ∷ 1000001 ∷ 1000000 ∷ [])
        [])).0
    ≡ leb (1000005 + lock_ms_of 6) 1060004
unfolding find
check_lockout-after_failures_example =
    check_lockout-after_failures pair (text "lockout:acct:") (text "e") 1000005
      (1000004 ∷ 1000003 ∷ 1000002 ∷ 1000001 ∷ 1000000 ∷ []) 1060004 [] refl
      (
        omega arith,
        omega arith,
        (
          omega arith,
          omega arith,
          (omega arith, omega arith, (omega arith, omega arith, (omega arith, omega arith, tt))),
        ),
      )
      (omega arith)

abbrev no_fingerprint : Fingerprint
no_fingerprint = record { visitor_id = none; screen = none; timezone = none; locale = none }

abbrev seen_at : List ℕ → ℕ → FingerprintEntry
seen_at id now =
    make_fingerprint_log_entry id no_fingerprint (text "10.0.0.1") (text "ua") false now

merge_fingerprint_log-merged_example :
    (length (merge_fingerprint_log (seen_at (text "x") 1 ∷ []) (seen_at (text "x") 2)) ≤ 32)
    × (has_distinct_ids (merge_fingerprint_log (seen_at (text "x") 1 ∷ []) (seen_at (text "x") 2))
        ≡ true)
    × (failures_for
          (text "x")
          (merge_fingerprint_log (seen_at (text "x") 1 ∷ []) (seen_at (text "x") 2))
        ≡ failures_for (text "x") (seen_at (text "x") 1 ∷ []) + 1)
    × (successes_for
          (text "x")
          (merge_fingerprint_log (seen_at (text "x") 1 ∷ []) (seen_at (text "x") 2))
        ≡ successes_for (text "x") (seen_at (text "x") 1 ∷ []) + 0)
unfolding has_distinct_ids seen
merge_fingerprint_log-merged_example =
    merge_fingerprint_log-merged (seen_at (text "x") 1 ∷ []) (seen_at (text "x") 2) (omega arith)
      refl
