-- ===== src/Mfa/Totp/Once.antt =====
-- A code is accepted once.
use pwdnow_password_manager.Prelude.{
  ℕ, ◌+◌, ◌*◌, ◌/◌, ◌≤◌, ◌≡◌, refl, ◌∙◌, sym, subst, ◌⊎◌, inl, inr, List, [], ◌∷◌, ◌++◌, Bool, true,
  false, ltb, if◌then◌else◌, arith, Bool-cases, any, ◌==◌, eq→==,
}
use pwdnow_password_manager.Text.{text_eq, text_eq_iff, text_eq_refl}
use pwdnow_password_manager.Mfa.Base32.{UpperCase}
use pwdnow_password_manager.Mfa.Hotp.{Hmac, compute_hotp, without_spaces, has_digits}
use pwdnow_password_manager.Mfa.Totp.{
  UsedPeriods, collect, has, replay_key, consume, try_periods, verify_totp,
}

-- The key is there, and stays until the time.
unfoldable holds_until : List ℕ → ℕ → UsedPeriods → Bool
holds_until key until [] = false
holds_until key until ((k, expiry) ∷ used) =
    let rest = holds_until key until used in
    if text_eq k key then (if ltb expiry until then rest else true) else rest

has-holds_until :
    (key : List ℕ) (until : ℕ) (used : UsedPeriods)
    → holds_until key until used ≡ true
    → has key used ≡ true
unfolding holds_until has
has-holds_until key until [] h = h
has-holds_until key until ((k, expiry) ∷ used) h = ground (arith, has-holds_until key until used)

holds_until-collect :
    (key : List ℕ) (until now : ℕ) (used : UsedPeriods)
    → now ≤ until
    → holds_until key until used ≡ true
    → holds_until key until (collect now used) ≡ true
unfolding holds_until collect
holds_until-collect key until now [] later h = h
holds_until-collect key until now ((k, expiry) ∷ used) later h =
    ground (arith, holds_until-collect key until now used)

holds_until-append :
    (key : List ℕ) (until : ℕ) (used more : UsedPeriods)
    → holds_until key until used ≡ true
    → holds_until key until (used ++ more) ≡ true
unfolding holds_until
holds_until-append key until [] more h = ground arith
holds_until-append key until ((k, expiry) ∷ used) more h =
    ground (arith, holds_until-append key until used more)

holds_until_added :
    (key : List ℕ) (until : ℕ) (used : UsedPeriods)
    → holds_until key until (used ++ (key, until) ∷ []) ≡ true
unfolding holds_until
holds_until_added key until [] = ground (arith, text_eq_refl key)
holds_until_added key until ((k, expiry) ∷ used) = ground (arith, holds_until_added key until used)

-- A call: the secret, the token, the algorithm, the digits, and its time.
pub record Call : Type 0 where
  pub secret : List ℕ
  pub token : List ℕ
  pub algorithm : List ℕ
  pub digits : ℕ
  pub now : ℕ

module _ (browser : UpperCase) (hmac : Hmac) where
  abbrev pub call : Call → UsedPeriods → Bool × UsedPeriods
  call c used = verify_totp browser hmac c.secret c.token c.algorithm c.digits c.now used

  abbrev pub after_calls : List Call → UsedPeriods → UsedPeriods
  after_calls [] used = used
  after_calls (c ∷ cs) used = after_calls cs (call c used).1

  abbrev pub AllBefore : ℕ → List Call → Type 0
  AllBefore t [] = Unit
  AllBefore t (c ∷ cs) = (c.now ≤ t) × AllBefore t cs

  abbrev periods_at : ℕ → List ℕ
  periods_at now = now / 30000 ∷ (now + 30000) / 30000 ∷ []

  abbrev code : Call → ℕ → List ℕ
  code c p = compute_hotp browser hmac c.secret p c.algorithm c.digits

  abbrev key_of : Call → ℕ → List ℕ
  key_of c p = replay_key c.secret p c.algorithm c.digits

  holds_until-consume :
      (key : List ℕ) (until : ℕ) (secret : List ℕ) (period : ℕ) (algorithm : List ℕ) (digits : ℕ)
      (used : UsedPeriods)
      → holds_until key until used ≡ true
      → holds_until key until (consume browser hmac secret period algorithm digits used).1 ≡ true
  unfolding consume
  holds_until-consume key until secret period algorithm digits used h =
      let k = replay_key secret period algorithm digits in
      elim (Bool-cases (has k used)) [
        | inl there ↦ rw (there) h
        | inr new ↦ rw (new) (holds_until-append key until used ((k, (period + 2) * 30000) ∷ []) h)
      ]

  holds_until-try_periods :
      (key : List ℕ) (until : ℕ) (secret clean algorithm : List ℕ) (digits : ℕ) (periods : List ℕ)
      (used : UsedPeriods)
      → holds_until key until used ≡ true
      → holds_until key until
          (try_periods browser hmac secret clean algorithm digits periods used).1
        ≡ true
  unfolding try_periods
  holds_until-try_periods key until secret clean algorithm digits [] used h = h
  holds_until-try_periods key until secret clean algorithm digits (p ∷ ps) used h =
      elim (Bool-cases (text_eq (compute_hotp browser hmac secret p algorithm digits) clean)) [
        | inl match ↦ rw (match) (holds_until-consume key until secret p algorithm digits used h)
        | inr other ↦
            rw (other) (holds_until-try_periods key until secret clean algorithm digits ps used h)
      ]

  holds_until-call :
      (key : List ℕ) (until : ℕ) (c : Call) (used : UsedPeriods)
      → c.now ≤ until
      → holds_until key until used ≡ true
      → holds_until key until (call c used).1 ≡ true
  unfolding verify_totp
  holds_until-call key until c used early h =
      elim (Bool-cases (has_digits c.digits (without_spaces c.token))) [
        | inl shape ↦ rw (shape) (
            holds_until-try_periods key until c.secret (without_spaces c.token) c.algorithm c.digits
              (periods_at c.now) (collect c.now used)
              (holds_until-collect key until c.now used early h))
        | inr bad ↦ rw (bad) h
      ]

  holds_until-after_calls :
      (key : List ℕ) (until t : ℕ) (cs : List Call) (used : UsedPeriods)
      → t ≤ until
      → AllBefore t cs
      → holds_until key until used ≡ true
      → holds_until key until (after_calls cs used) ≡ true
  holds_until-after_calls key until t [] used early before h = h
  holds_until-after_calls key until t (c ∷ cs) used early before h =
      let soon : c.now ≤ t = before.0 in
      holds_until-after_calls key until t cs (call c used).1 early before.1
        (holds_until-call key until c used (omega arith) h)

  -- The period a call accepts a code of, and the key it leaves.
  abbrev Accepted : List ℕ → List ℕ → List ℕ → ℕ → List ℕ → UsedPeriods → Type 0
  Accepted secret clean algorithm digits periods used =
      (p : ℕ) × (any (λ q. q == p) periods ≡ true)
      × (compute_hotp browser hmac secret p algorithm digits ≡ clean)
      × (holds_until (replay_key secret p algorithm digits) ((p + 2) * 30000)
            (try_periods browser hmac secret clean algorithm digits periods used).1
          ≡ true)

  consume_accepted :
      (secret : List ℕ) (p : ℕ) (algorithm : List ℕ) (digits : ℕ) (used : UsedPeriods)
      → (consume browser hmac secret p algorithm digits used).0 ≡ true
      → holds_until
          (replay_key secret p algorithm digits)
          ((p + 2) * 30000)
          (consume browser hmac secret p algorithm digits used).1
        ≡ true
  unfolding consume
  consume_accepted secret p algorithm digits used =
      let k = replay_key secret p algorithm digits in
      elim (Bool-cases (has k used)) [
        | inl there ↦ rw (there) (λ h. absurd (ground arith))
        | inr new ↦ rw (new) (λ h. holds_until_added k ((p + 2) * 30000) used)
      ]

  try_periods-Accepted :
      (secret clean algorithm : List ℕ) (digits : ℕ) (periods : List ℕ) (used : UsedPeriods)
      → (try_periods browser hmac secret clean algorithm digits periods used).0 ≡ true
      → Accepted secret clean algorithm digits periods used
  unfolding try_periods
  try_periods-Accepted secret clean algorithm digits [] used = λ h. absurd (ground arith)
  try_periods-Accepted secret clean algorithm digits (p ∷ ps) used =
      let c = compute_hotp browser hmac secret p algorithm digits in
      elim (Bool-cases (text_eq c clean)) [
        | inl match ↦ rw (match) (λ h. (
          p,
          rw (eq→== p p refl) refl,
          (text_eq_iff c clean).0 match,
          consume_accepted secret p algorithm digits used h,
        ))
        | inr other ↦ rw (other) (λ h.
            let (q, there, same, held) =
              try_periods-Accepted secret clean algorithm digits ps used h in
            (q, ground arith, same, held))
      ]

  try_periods_refused :
      (secret clean algorithm : List ℕ) (digits : ℕ) (periods : List ℕ) (used : UsedPeriods)
      → ((p : ℕ)
          → any (λ q. q == p) periods ≡ true
          → compute_hotp browser hmac secret p algorithm digits ≡ clean
          → has (replay_key secret p algorithm digits) used ≡ true)
      → (try_periods browser hmac secret clean algorithm digits periods used).0 ≡ false
  unfolding try_periods consume
  try_periods_refused secret clean algorithm digits [] used h = refl
  try_periods_refused secret clean algorithm digits (p ∷ ps) used h =
      let c = compute_hotp browser hmac secret p algorithm digits in
      elim (Bool-cases (text_eq c clean)) [
        | inl match ↦
            let there = h p (rw (eq→== p p refl) refl) ((text_eq_iff c clean).0 match) in
            rw (match, there) refl
        | inr other ↦ rw (other) (
            try_periods_refused secret clean algorithm digits ps used
              (λ q member same. h q (ground arith) same))
      ]

  call_accepted :
      (c : Call) (used : UsedPeriods)
      → (call c used).0 ≡ true
      → (p : ℕ) × (any (λ q. q == p) (periods_at c.now) ≡ true)
        × (code c p ≡ without_spaces c.token)
        × (holds_until (key_of c p) ((p + 2) * 30000) (call c used).1 ≡ true)
  unfolding verify_totp
  call_accepted c used = elim (Bool-cases (has_digits c.digits (without_spaces c.token))) [
    | inl shape ↦ rw (shape) (
        try_periods-Accepted c.secret (without_spaces c.token) c.algorithm c.digits
          (periods_at c.now) (collect c.now used))
    | inr bad ↦ rw (bad) (λ h. absurd (ground arith))
  ]

  call_refused :
      (c : Call) (used : UsedPeriods)
      → ((p : ℕ)
          → any (λ q. q == p) (periods_at c.now) ≡ true
          → code c p ≡ without_spaces c.token
          → has (key_of c p) (collect c.now used) ≡ true)
      → (call c used).0 ≡ false
  unfolding verify_totp
  call_refused c used h = elim (Bool-cases (has_digits c.digits (without_spaces c.token))) [
    | inl shape ↦ rw (shape) (
        try_periods_refused c.secret (without_spaces c.token) c.algorithm c.digits
          (periods_at c.now) (collect c.now used) h)
    | inr bad ↦ rw (bad) refl
  ]

  checked_near :
      (now p : ℕ)
      → any (λ q. q == p) (periods_at now) ≡ true
      → (p ≡ now / 30000) ⊎ (p ≡ (now + 30000) / 30000)
  checked_near now p h = ground arith

  -- A token accepted once is not accepted again: after an accepted call, and any calls with any
  -- secrets and tokens up to the time `t`, the same token is refused at `t`, if among the periods from the first to the last checked there is only one whose code it is.
  pub verify_totp-once :
      (c : Call) (used : UsedPeriods) (cs : List Call) (t p : ℕ)
      → (call c used).0 ≡ true
      → c.now ≤ t
      → AllBefore t cs
      → ((q : ℕ)
          → c.now / 30000 ≤ q
          → q ≤ (t + 30000) / 30000
          → code c q ≡ without_spaces c.token
          → q ≡ p)
      → (call (record c { now = t }) (after_calls cs (call c used).1)).0 ≡ false
  verify_totp-once c used cs t p ok later before one =
      let (p', near, same, held) = call_accepted c used ok in
      let used' = after_calls cs (call c used).1 in
      call_refused (record c { now = t }) used'
        (λ q near' same'.
          let low = checked_near c.now p' near in
          let high = checked_near t q near' in
          let e : p' ≡ p = one p' (first_le c.now p' low) (last_le c.now t p' later low) same in
          let e' : q ≡ p =
            one q (later_first_le c.now t q later high) (last_le t t q (omega arith) high) same' in
          let soon : t ≤ (p' + 2) * 30000 = in_time t q p' high (e' ∙ sym e) in
          let kept =
            holds_until-after_calls (key_of c p') ((p' + 2) * 30000) t cs (call c used).1 soon
              before held in
          subst (λ r. has (key_of c r) (collect t used') ≡ true) (e ∙ sym e')
            (has-holds_until (key_of c p') ((p' + 2) * 30000) (collect t used')
              (holds_until-collect (key_of c p') ((p' + 2) * 30000) t used' soon kept)))
    where
      first_le : (now p : ℕ) → (p ≡ now / 30000) ⊎ (p ≡ (now + 30000) / 30000) → now / 30000 ≤ p
      first_le now p (inl e) = omega arith
      first_le now p (inr e) = omega arith

      later_first_le :
          (now t p : ℕ) → now ≤ t → (p ≡ t / 30000) ⊎ (p ≡ (t + 30000) / 30000) → now / 30000 ≤ p
      later_first_le now t p h (inl e) = omega arith
      later_first_le now t p h (inr e) = omega arith

      last_le :
          (now t p : ℕ)
          → now ≤ t
          → (p ≡ now / 30000) ⊎ (p ≡ (now + 30000) / 30000)
          → p ≤ (t + 30000) / 30000
      last_le now t p h (inl e) = omega arith
      last_le now t p h (inr e) = omega arith

      in_time :
          (t q p : ℕ) → (q ≡ t / 30000) ⊎ (q ≡ (t + 30000) / 30000) → q ≡ p → t ≤ (p + 2) * 30000
      in_time t q p (inl e) e' = omega arith
      in_time t q p (inr e) e' = omega arith
