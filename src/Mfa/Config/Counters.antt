-- ===== src/Mfa/Config/Counters.antt =====
-- The signature counters of the security keys.
use pwdnow_password_manager.Prelude.{
  ℕ, zero, suc, ◌≤◌, ◌<◌, ◌≡◌, refl, ◌∙◌, sym, ap, subst, inl, inr, List, [], ◌∷◌, true, false,
  ◌&&◌, Option, none, some, ltb, leb, if◌then◌else◌, ◌≢◌, arith, Bool-cases, Option-cases,
}
use pwdnow_password_manager.Text.{text_eq, text_eq_iff, text_eq_refl}
use pwdnow_password_manager.Mfa.Config.{
  WebAuthnCredentialMeta, MfaConfig, Ceremony, not_found, cancelled, cloned, accepted,
  find_credential, store_counter, authenticate_webauthn,
}

-- The counter stored for a key.
abbrev pub counter_of : Option WebAuthnCredentialMeta → Option ℕ
counter_of none = none
counter_of (some c) = some c.counter

abbrev pub stored_counter : List ℕ → MfaConfig → Option ℕ
stored_counter id cfg = counter_of (find_credential id cfg.webauthn.credentials)

find-store_counter :
    (id j : List ℕ) (n : ℕ) (cs : List WebAuthnCredentialMeta) (c : WebAuthnCredentialMeta)
    → find_credential id cs ≡ some c
    → counter_of (find_credential j (store_counter id n cs))
      ≡ (if text_eq id j then some n else counter_of (find_credential j cs))
unfolding find_credential store_counter
find-store_counter id j n [] c h = absurd (ground arith)
find-store_counter id j n (d ∷ cs) c h = elim (Bool-cases (text_eq d.id id)) [
  | inl here ↦ rw (here) (ground (arith, text_eq_iff d.id id, text_eq_iff id j, text_eq_iff d.id j))
  | inr later ↦ rw (later) (
      ground (
        arith,
        find-store_counter id j n cs c,
        text_eq_iff d.id id,
        text_eq_iff id j,
        text_eq_iff d.id j,
      ))
]

-- The configuration after a ceremony, whatever it comes to.
abbrev pub config_of : MfaConfig → Ceremony → MfaConfig
config_of cfg not_found = cfg
config_of cfg cancelled = cfg
config_of cfg cloned = cfg
config_of cfg (accepted cfg') = cfg'

abbrev pub after : List ℕ → Option ℕ → MfaConfig → MfaConfig
after id assertion cfg = config_of cfg (authenticate_webauthn id assertion cfg)

abbrev pub after_all : List (List ℕ × Option ℕ) → MfaConfig → MfaConfig
after_all [] cfg = cfg
after_all ((id, assertion) ∷ more) cfg = after_all more (after id assertion cfg)

-- No assertion of this key carries the counter 0.
abbrev pub CountsUp : List ℕ → List (List ℕ × Option ℕ) → Type 0
CountsUp id [] = Unit
CountsUp id ((j, assertion) ∷ more) = (text_eq j id ≡ true → assertion ≢ some 0) × CountsUp id more

-- The stored counter of the key is at least `n`.
abbrev AtLeast : ℕ → List ℕ → MfaConfig → Type 0
AtLeast n id cfg = (k : ℕ) × (n ≤ k) × (stored_counter id cfg ≡ some k)

AtLeast-after :
    (n : ℕ) (id j : List ℕ) (assertion : Option ℕ) (cfg : MfaConfig)
    → (text_eq j id ≡ true → assertion ≢ some 0)
    → AtLeast n id cfg
    → AtLeast n id (after j assertion cfg)
unfolding authenticate_webauthn
AtLeast-after n id j none cfg up h =
    elim (Option-cases (find_credential j cfg.webauthn.credentials)) [
      | inl gone ↦ rw (gone, authenticate_webauthn) h
      | inr (c, there) ↦ rw (there, authenticate_webauthn) h
    ]
AtLeast-after n id j (some m) cfg up (k, le, e) =
    elim (Option-cases (find_credential j cfg.webauthn.credentials)) [
      | inl gone ↦ rw (gone, authenticate_webauthn) (k, le, e)
      | inr (c, there) ↦ elim (Bool-cases (ltb 0 m && leb m c.counter)) [
        | inl clone ↦ rw (there, authenticate_webauthn, clone) (k, le, e)
        | inr fine ↦
            let stored = find-store_counter j id m cfg.webauthn.credentials c there in
            rw (there, authenticate_webauthn, fine)
              (elim (Bool-cases (text_eq j id)) [
                | inr other ↦ (k, le, stored ∙ rw (other) e)
                | inl same ↦
                    let there' =
                      subst (λ i. find_credential i cfg.webauthn.credentials ≡ some c)
                        ((text_eq_iff j id).0 same) there in
                    let ke : some c.counter ≡ some k = sym (ap counter_of there') ∙ e in
                    (m, above m k n c.counter le fine ke (up same), stored ∙ rw (same) refl)
              ])
      ]
    ]
  where
    above :
        (m k n stored : ℕ)
        → n ≤ k
        → (ltb 0 m && leb m stored) ≡ false
        → some stored ≡ some k
        → some m ≢ some 0
        → n ≤ m
    above zero k n stored le fine ke up = absurd (up refl)
    above (suc m) k n stored le fine ke up = ground arith

AtLeast-after_all :
    (n : ℕ) (id : List ℕ) (more : List (List ℕ × Option ℕ)) (cfg : MfaConfig)
    → CountsUp id more
    → AtLeast n id cfg
    → AtLeast n id (after_all more cfg)
AtLeast-after_all n id [] cfg up h = h
AtLeast-after_all n id ((j, assertion) ∷ more) cfg up h =
    AtLeast-after_all n id more (after j assertion cfg) up.1
      (AtLeast-after n id j assertion cfg up.0 h)

stored_counter_accepted :
    (id : List ℕ) (n : ℕ) (cfg cfg' : MfaConfig)
    → authenticate_webauthn id (some n) cfg ≡ accepted cfg'
    → AtLeast n id (after id (some n) cfg)
unfolding authenticate_webauthn
stored_counter_accepted id n cfg cfg' =
    elim (Option-cases (find_credential id cfg.webauthn.credentials)) [
      | inl gone ↦ rw (gone, authenticate_webauthn) (λ h. absurd (ground arith))
      | inr (c, there) ↦ elim (Bool-cases (ltb 0 n && leb n c.counter)) [
        | inl clone ↦ rw (there, authenticate_webauthn, clone) (λ h. absurd (ground arith))
        | inr fine ↦
            let stored = find-store_counter id id n cfg.webauthn.credentials c there in
            rw (there, authenticate_webauthn, fine)
              (λ h. (n, omega arith, stored ∙ rw (text_eq_refl id) refl))
      ]
    ]

cloned-AtLeast :
    (id : List ℕ) (m n : ℕ) (cfg : MfaConfig)
    → 0 < m
    → m ≤ n
    → AtLeast n id cfg
    → authenticate_webauthn id (some m) cfg ≡ cloned
unfolding authenticate_webauthn
cloned-AtLeast id m n cfg positive low (k, le, e) =
    elim (Option-cases (find_credential id cfg.webauthn.credentials)) [
      | inl gone ↦ absurd (none≢some (sym (ap counter_of gone) ∙ e))
      | inr (c, there) ↦
          let ke : some c.counter ≡ some k = sym (ap counter_of there) ∙ e in
          let clone : (ltb 0 m && leb m c.counter) ≡ true =
            below m n k c.counter positive low le ke in
          rw (there, authenticate_webauthn, clone) refl
    ]
  where
    none≢some : {a : ℕ} → none ≢ some a
    none≢some {a} h = absurd (ground arith)

    below :
        (m n k stored : ℕ)
        → 0 < m
        → m ≤ n
        → n ≤ k
        → some stored ≡ some k
        → (ltb 0 m && leb m stored) ≡ true
    below m n k stored positive low le ke = ground arith

-- A cloned key is found out: after a key's assertion with a counter was accepted, and any
-- ceremonies of any keys in which this key never reported the counter 0, an assertion of it with a
-- counter that is not greater, and not 0, is refused as cloned.
pub authenticate_webauthn-replayed :
    (id : List ℕ) (n m : ℕ) (cfg cfg' : MfaConfig) (more : List (List ℕ × Option ℕ))
    → authenticate_webauthn id (some n) cfg ≡ accepted cfg'
    → CountsUp id more
    → 0 < m
    → m ≤ n
    → authenticate_webauthn id (some m) (after_all more (after id (some n) cfg)) ≡ cloned
authenticate_webauthn-replayed id n m cfg cfg' more ok up positive low =
    cloned-AtLeast id m n (after_all more (after id (some n) cfg)) positive low (
      AtLeast-after_all n id more (after id (some n) cfg) up
        (stored_counter_accepted id n cfg cfg' ok))
