-- ===== src/Server/Audit/Tampering.antt =====
-- What an intruder who can write the stored log, but not compute the keyed hash, can do unseen
-- (web/lib/audit.js).
use pwdnow_password_manager.Prelude.{
  ℕ, ◌≡◌, refl, ◌∙◌, sym, subst, ap, or_else, List, [], ◌∷◌, ◌++◌, Bool, false, any, append-nil,
  arith,
}
use pwdnow_password_manager.Text.{text_eq_iff}
use pwdnow_password_manager.Server.Audit.{
  AuditData, AuditEvent, AuditKey, Repository, load_audit_log, zeros, seal, verify, checked,
  next_hash, last_hash, sealed_event,
}
use pwdnow_password_manager.Server.Audit.Chain.{IsCollisionFree, chain, end_hash, last_hash-chain}

-- Whether the loaded log reports a failure.
abbrev pub reports_failure : List AuditEvent → Bool
reports_failure events = any (λ e. e.integrity_failure) events

-- The last hash of the events, the newest first.
abbrev sealed_back : AuditKey → List AuditData → List ℕ
sealed_back k [] = zeros
sealed_back k (d ∷ before) = seal k d (sealed_back k before)

abbrev reversed_onto : List AuditData → List AuditData → List AuditData
reversed_onto [] acc = acc
reversed_onto (d ∷ ds) acc = reversed_onto ds (d ∷ acc)

end_hash-eq-sealed_back :
    (k : AuditKey) (acc ds : List AuditData)
    → end_hash k (sealed_back k acc) ds ≡ sealed_back k (reversed_onto ds acc)
end_hash-eq-sealed_back k acc [] = refl
end_hash-eq-sealed_back k acc (d ∷ ds) = end_hash-eq-sealed_back k (d ∷ acc) ds

reversed_onto-reversed_onto :
    (ds acc rest : List AuditData)
    → reversed_onto (reversed_onto ds acc) rest ≡ reversed_onto acc (ds ++ rest)
reversed_onto-reversed_onto [] acc rest = refl
reversed_onto-reversed_onto (d ∷ ds) acc rest = reversed_onto-reversed_onto ds (d ∷ acc) rest

reversed_onto-injective :
    (ds es : List AuditData) → reversed_onto ds [] ≡ reversed_onto es [] → ds ≡ es
reversed_onto-injective ds es same =
    sym (append-nil ds)
    ∙ sym (reversed_onto-reversed_onto ds [] [])
    ∙ ap (λ r. reversed_onto r []) same
    ∙ reversed_onto-reversed_onto es [] []
    ∙ append-nil es

-- An event that is not flagged is the sealed event of its data.
checked-eq-sealed_event :
    (k : AuditKey) (prev : List ℕ) (e : AuditEvent)
    → (checked k prev e).integrity_failure ≡ false
    → (e ≡ sealed_event k prev e.data_of) × (next_hash prev e ≡ seal k e.data_of prev)
unfolding sealed_event
checked-eq-sealed_event k prev e clean = ground (arith, text_eq_iff e.hash (seal k e.data_of prev))

module _ (k : AuditKey) (free : IsCollisionFree k) where
  sealed_back-injective : (ds es : List AuditData) → sealed_back k ds ≡ sealed_back k es → ds ≡ es
  sealed_back-injective [] [] same = refl
  sealed_back-injective [] (e ∷ es) same =
      absurd (free.ne_zeros (k.stringify e ++ sealed_back k es) (sym same))
  sealed_back-injective (d ∷ ds) [] same =
      absurd (free.ne_zeros (k.stringify d ++ sealed_back k ds) same)
  sealed_back-injective (d ∷ ds) (e ∷ es) same =
      let (first, rest) = free.self_delimiting d e (sealed_back k ds) (sealed_back k es) (
        free.no_collision (k.stringify d ++ sealed_back k ds) (k.stringify e ++ sealed_back k es)
          same) in
      let tail = sealed_back-injective ds es rest in cc

  end_hash-injective :
      (ds es : List AuditData) → end_hash k zeros ds ≡ end_hash k zeros es → ds ≡ es
  end_hash-injective ds es same = reversed_onto-injective ds es (
      sealed_back-injective (reversed_onto ds []) (reversed_onto es [])
        (sym (end_hash-eq-sealed_back k [] ds) ∙ same ∙ end_hash-eq-sealed_back k [] es))

  -- A log without a failure is a chain.
  is_chain :
      (prev : List ℕ) (events : List AuditEvent)
      → reports_failure (verify k prev events) ≡ false
      → (ds : List AuditData) × (events ≡ chain k prev ds)
  unfolding verify
  is_chain prev [] clean = ([], refl)
  is_chain prev (e ∷ events) clean =
      let (own, next) = checked-eq-sealed_event k prev e (ground arith) in
      let rest_clean : reports_failure (verify k (next_hash prev e) events) ≡ false =
        ground arith in
      let (ds, rest) =
        is_chain (seal k e.data_of prev) events
          (subst (λ h. reports_failure (verify k h events) ≡ false) next rest_clean) in
      (e.data_of ∷ ds, cc)

  last_hash-chain_start : (ds : List AuditData) → last_hash (chain k zeros ds) ≡ end_hash k zeros ds
  unfolding last_hash
  last_hash-chain_start [] = refl
  last_hash-chain_start (d ∷ ds) = last_hash-chain k free zeros d ds

  -- Tampering is seen: with a keyed hash that has no collisions, a stored log that is loaded
  -- without a failure and ends in the same hash as another such log has the same events, so none
  -- can be changed, removed, inserted or moved before the last one without a flag.
  pub load_audit_log-detects :
      (uid : List ℕ) (original tampered : Repository)
      → reports_failure (load_audit_log k uid original) ≡ false
      → reports_failure (load_audit_log k uid tampered) ≡ false
      → last_hash (or_else (tampered uid) []) ≡ last_hash (or_else (original uid) [])
      → or_else (tampered uid) [] ≡ or_else (original uid) []
  unfolding load_audit_log
  load_audit_log-detects uid original tampered original_clean tampered_clean same_end =
      let (ds, o) = is_chain zeros (or_else (original uid) []) original_clean in
      let (es, t) = is_chain zeros (or_else (tampered uid) []) tampered_clean in
      let ends : end_hash k zeros es ≡ end_hash k zeros ds =
        sym (last_hash-chain_start es)
        ∙ ap last_hash (sym t)
        ∙ same_end
        ∙ ap last_hash o
        ∙ last_hash-chain_start ds in
      t ∙ ap (chain k zeros) (end_hash-injective es ds ends) ∙ sym o
