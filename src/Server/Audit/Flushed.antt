-- ===== src/Server/Audit/Flushed.antt =====
-- What a user's audit log is after the queue is flushed (web/lib/audit.js).
use pwdnow_password_manager.Prelude.{
  ℕ, ◌≡◌, refl, ◌∙◌, sym, subst, ap, List, [], ◌∷◌, ◌++◌, true, false, inl, inr, none, some,
  or_else, Bool-cases, Option-cases, append_assoc, append-nil, if◌then◌else◌,
}
use pwdnow_password_manager.Text.{text_eq, text_eq→eq}
use pwdnow_password_manager.Server.Audit.{
  AuditData, AuditKey, Surroundings, Report, zeros, Repository, Queued, new_data, load_audit_log,
  process_audit_event, flush_audit_queue, verify,
}
use pwdnow_password_manager.Server.Audit.Chain.{IsCollisionFree, window}
use pwdnow_password_manager.Server.Audit.Window.{as_loaded, verify-window, append-window}

-- What the user's events of the queue put into the log, those that failed left out.
abbrev pub recorded : List ℕ → List Queued → List AuditData
recorded uid [] = []
recorded uid (q ∷ queue) = elim q.surroundings [
  | none ↦ recorded uid queue
  | some w ↦
      if text_eq uid q.uid then new_data w q.event ∷ recorded uid queue else recorded uid queue
]

module _ (k : AuditKey) (free : IsCollisionFree k) where
  process_audit_event-own :
      (w : Surroundings) (v : List ℕ) (r : Report) (repo : Repository) (uid : List ℕ)
      (before : List AuditData)
      → text_eq uid v ≡ true
      → or_else (repo uid) [] ≡ window k before
      → or_else (process_audit_event k w v r repo uid) [] ≡ window k (before ++ new_data w r ∷ [])
  unfolding process_audit_event
  process_audit_event-own w v r repo uid before own there =
      let same : uid ≡ v = text_eq→eq uid v own in
      let stored : or_else (repo v) [] ≡ window k before =
        subst (λ u. or_else (repo u) [] ≡ window k before) same there in
      rw (own, stored) (append-window k free before (new_data w r))

  process_audit_event-other :
      (w : Surroundings) (v : List ℕ) (r : Report) (repo : Repository) (uid : List ℕ)
      (before : List AuditData)
      → text_eq uid v ≡ false
      → or_else (repo uid) [] ≡ window k before
      → or_else (process_audit_event k w v r repo uid) [] ≡ window k before
  unfolding process_audit_event
  process_audit_event-other w v r repo uid before other there = rw (other) there

  flush_audit_queue-window :
      (uid : List ℕ) (queue : List Queued) (repo : Repository) (before : List AuditData)
      → or_else (repo uid) [] ≡ window k before
      → or_else (flush_audit_queue k queue repo uid) [] ≡ window k (before ++ recorded uid queue)
  unfolding flush_audit_queue
  flush_audit_queue-window uid [] repo before there = rw (append-nil before) there
  flush_audit_queue-window uid (q ∷ queue) repo before there = elim (Option-cases q.surroundings) [
    | inl failed ↦ rw (failed, recorded) (flush_audit_queue-window uid queue repo before there)
    | inr (w, processed) ↦ elim (Bool-cases (text_eq uid q.uid)) [
      | inl own ↦
          rw
            (
              processed,
              recorded,
              own,
              sym (append_assoc before (new_data w q.event ∷ []) (recorded uid queue)),
            )
            (flush_audit_queue-window uid queue (process_audit_event k w q.uid q.event repo)
              (before ++ new_data w q.event ∷ [])
              (process_audit_event-own w q.uid q.event repo uid before own there))
      | inr other ↦
          rw (processed, recorded, other)
            (flush_audit_queue-window uid queue (process_audit_event k w q.uid q.event repo) before
              (process_audit_event-other w q.uid q.event repo uid before other there))
    ]
  ]

  -- The log after a flush: with a keyed hash that has no collisions, from an empty repository, a
  -- user's log is loaded as the chain of that user's processed events in the order of the queue,
  -- with no event flagged, as long as they are at most 2,000; else as the newest 2,000 of that
  -- chain, of which exactly the first is flagged.
  pub load_audit_log-flush_audit_queue :
      (uid : List ℕ) (queue : List Queued)
      → load_audit_log k uid (flush_audit_queue k queue (λ u. none))
        ≡ as_loaded k (recorded uid queue)
  unfolding load_audit_log
  load_audit_log-flush_audit_queue uid queue =
      ap (verify k zeros) (flush_audit_queue-window uid queue (λ u. none) [] refl)
      ∙ verify-window k free (recorded uid queue)
