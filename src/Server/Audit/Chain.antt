-- ===== src/Server/Audit/Chain.antt =====
-- The chain that an untouched log forms (web/lib/audit.js).
use pwdnow_password_manager.Prelude.{
  ℕ, zero, suc, ◌-◌, ◌≡◌, ◌≢◌, refl, sym, ap, List, [], ◌∷◌, ◌++◌, true, false, inl, inr,
  Bool-cases, length, take, drop,
}
use pwdnow_password_manager.Text.{text_eq, text_eq_iff, text_eq_refl}
use pwdnow_password_manager.Server.Audit.{
  AuditData, AuditEvent, AuditKey, zeros, max_events, is_empty, seal, verify, last_hash,
  sealed_event,
}

-- What is relied on of the keyed hash and the text of an event: no two inputs with the same hash,
-- none whose hash is empty or all zeros, and a JSON text whose end is seen.
pub record IsCollisionFree (k : AuditKey) : Type 0 where
  pub no_collision : (s t : List ℕ) → k.hmac s ≡ k.hmac t → s ≡ t
  pub ne_zeros : (s : List ℕ) → k.hmac s ≢ zeros
  pub ne_empty : (s : List ℕ) → is_empty (k.hmac s) ≡ false
  pub self_delimiting :
      (d e : AuditData) (s t : List ℕ) → k.stringify d ++ s ≡ k.stringify e ++ t → (d ≡ e) × (s ≡ t)

-- The events that follow the hash `prev`, and the last hash of them.
abbrev pub chain : AuditKey → List ℕ → List AuditData → List AuditEvent
chain k prev [] = []
chain k prev (d ∷ ds) = sealed_event k prev d ∷ chain k (seal k d prev) ds

abbrev pub end_hash : AuditKey → List ℕ → List AuditData → List ℕ
end_hash k prev [] = prev
end_hash k prev (d ∷ ds) = end_hash k (seal k d prev) ds

-- The newest events, as many as are kept.
abbrev pub window : AuditKey → List AuditData → List AuditEvent
window k ds = drop (length ds - max_events) (chain k zeros ds)

-- The log with its first event flagged.
abbrev pub first_flagged : List AuditEvent → List AuditEvent
first_flagged [] = []
first_flagged (e ∷ es) = record e { integrity_failure = true } ∷ es

pub length-chain :
    (k : AuditKey) (prev : List ℕ) (ds : List AuditData) → length (chain k prev ds) ≡ length ds
length-chain k prev [] = refl
length-chain k prev (d ∷ ds) = ap suc (length-chain k (seal k d prev) ds)

pub chain-append :
    (k : AuditKey) (prev : List ℕ) (ds es : List AuditData)
    → chain k prev (ds ++ es) ≡ chain k prev ds ++ chain k (end_hash k prev ds) es
chain-append k prev [] es = refl
chain-append k prev (d ∷ ds) es =
    ap (λ r. sealed_event k prev d ∷ r) (chain-append k (seal k d prev) ds es)

pub drop-chain :
    (k : AuditKey) (prev : List ℕ) (n : ℕ) (ds : List AuditData)
    → drop n (chain k prev ds) ≡ chain k (end_hash k prev (take n ds)) (drop n ds)
drop-chain k prev zero ds = refl
drop-chain k prev (suc n) [] = refl
drop-chain k prev (suc n) (d ∷ ds) = drop-chain k (seal k d prev) n ds

pub end_hash-append :
    (k : AuditKey) (prev : List ℕ) (ds es : List AuditData)
    → end_hash k prev (ds ++ es) ≡ end_hash k (end_hash k prev ds) es
end_hash-append k prev [] es = refl
end_hash-append k prev (d ∷ ds) es = end_hash-append k (seal k d prev) ds es

module _ (k : AuditKey) (free : IsCollisionFree k) where
  -- Nothing is flagged in a chain that is checked from its own start.
  pub verify-chain :
      (prev : List ℕ) (ds : List AuditData) → verify k prev (chain k prev ds) ≡ chain k prev ds
  unfolding verify sealed_event
  verify-chain prev [] = refl
  verify-chain prev (d ∷ ds) =
      rw (free.ne_empty (k.stringify d ++ prev), text_eq_refl (seal k d prev))
        (ap (λ r. sealed_event k prev d ∷ r) (verify-chain (seal k d prev) ds))

  -- Checked from another start, its first event is flagged.
  pub verify-chain_other :
      (start prev : List ℕ) (ds : List AuditData)
      → start ≢ prev
      → verify k start (chain k prev ds) ≡ first_flagged (chain k prev ds)
  unfolding verify sealed_event
  verify-chain_other start prev [] other = refl
  verify-chain_other start prev (d ∷ ds) other =
      elim (Bool-cases (text_eq (seal k d prev) (seal k d start))) [
        | inl same ↦ absurd (
            other (
              sym (
                (free.self_delimiting d d prev start (
                  free.no_collision (k.stringify d ++ prev) (k.stringify d ++ start)
                    ((text_eq_iff (seal k d prev) (seal k d start)).0 same))).1)))
        | inr differs ↦
            rw (free.ne_empty (k.stringify d ++ prev), differs)
              (ap (λ r. record (sealed_event k prev d) { integrity_failure = true } ∷ r)
                (verify-chain (seal k d prev) ds))
      ]

  -- A chain with an event ends in a hash other than zeros.
  pub end_hash-ne-zeros :
      (prev : List ℕ) (d : AuditData) (ds : List AuditData) → end_hash k prev (d ∷ ds) ≢ zeros
  end_hash-ne-zeros prev d [] = free.ne_zeros (k.stringify d ++ prev)
  end_hash-ne-zeros prev d (d' ∷ ds) = end_hash-ne-zeros (seal k d prev) d' ds

  pub last_hash-chain :
      (prev : List ℕ) (d : AuditData) (ds : List AuditData)
      → last_hash (chain k prev (d ∷ ds)) ≡ end_hash k prev (d ∷ ds)
  unfolding last_hash sealed_event
  last_hash-chain prev d [] = rw (free.ne_empty (k.stringify d ++ prev))
  last_hash-chain prev d (d' ∷ ds) = last_hash-chain (seal k d prev) d' ds
