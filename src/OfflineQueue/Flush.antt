-- ===== src/OfflineQueue/Flush.antt =====
-- What a flush sends and what it leaves.
use pwdnow_password_manager.Prelude.{
  ℕ, List, [], ◌∷◌, ◌++◌, Bool, true, false, ◌≡◌, refl, ◌∙◌, sym, ap, Option, none, some, ◌==◌,
  arith, inl, inr, Option-cases, append_assoc, append-nil,
}
use pwdnow_password_manager.OfflineQueue.{
  QueueResource, same, QueueEntry, Outbox, Session, remove, has, read_outbox, clear_queued_write,
  FlushResult, flush_loop, flush_outbox,
}
use pwdnow_password_manager.OfflineQueue.Latest.{
  HasKey, read-write_outbox, has_distinct_keys, same_refl,
}

-- The entries that the server takes before it refuses one; those that are left; and whether the refusal says
-- that the session has expired.
abbrev pub taken : (QueueResource → List ℕ → Option ℕ) → Outbox → List QueueResource
taken server [] = []
taken server ((r, e) ∷ o) = elim (server r e.encrypted_value) [
  | none ↦ r ∷ taken server o
  | some status ↦ []
]

abbrev pub left : (QueueResource → List ℕ → Option ℕ) → Outbox → Outbox
left server [] = []
left server ((r, e) ∷ o) = elim (server r e.encrypted_value) [
  | none ↦ left server o
  | some status ↦ (r, e) ∷ o
]

abbrev pub is_unauthorized : (QueueResource → List ℕ → Option ℕ) → Outbox → Bool
is_unauthorized server [] = false
is_unauthorized server ((r, e) ∷ o) = elim (server r e.encrypted_value) [
  | none ↦ false
  | some status ↦ status == 401
]

remove_absent : (r : QueueResource) (o : Outbox) → has r o ≡ false → remove r o ≡ o
unfolding remove has
remove_absent r [] h = refl
remove_absent r ((k, e) ∷ o) h =
    let other : same k r ≡ false = ground arith in
    rw (other) (ap (λ p. (k, e) ∷ p) (remove_absent r o (ground arith)))

-- Clearing the first resource leaves the others.
read-clear_queued_write :
    (session : Session) (r : QueueResource) (e : QueueEntry) (o : Outbox) (stored : Option (List ℕ))
    → HasKey session
    → has_distinct_keys ((r, e) ∷ o) ≡ true
    → read_outbox session stored ≡ (r, e) ∷ o
    → read_outbox session (clear_queued_write session r stored) ≡ o
unfolding clear_queued_write has remove has_distinct_keys
read-clear_queued_write session r e o stored key distinct there =
    let absent : has r o ≡ false = ground arith in
    rw (there, same_refl r, remove_absent r o absent) (read-write_outbox session o stored key)

-- The outcome of a flush.
abbrev pub IsOutcome :
    Session
    → (QueueResource → List ℕ → Option ℕ)
    → Outbox
    → List QueueResource
    → FlushResult × Option (List ℕ)
    → Type 0
IsOutcome session server o before (result, stored) =
    (result.flushed ≡ before ++ taken server o)
    × (result.auth_expired ≡ is_unauthorized server (left server o))
    × (read_outbox session stored ≡ left server o)

flush_loop-IsOutcome :
    (session : Session) (server : QueueResource → List ℕ → Option ℕ) (o : Outbox)
    (before : List QueueResource) (stored : Option (List ℕ))
    → HasKey session
    → has_distinct_keys o ≡ true
    → read_outbox session stored ≡ o
    → IsOutcome session server o before (flush_loop session server o before stored)
unfolding flush_loop has_distinct_keys
flush_loop-IsOutcome session server [] before stored key distinct there =
    (sym (append-nil before), refl, there)
flush_loop-IsOutcome session server ((r, e) ∷ o) before stored key distinct there =
    elim (Option-cases (server r e.encrypted_value)) [
      | inl accepted ↦
          let cleared = read-clear_queued_write session r e o stored key distinct there in
          let (flushed, auth, rest) =
            flush_loop-IsOutcome session server o (before ++ r ∷ [])
              (clear_queued_write session r stored) key (ground arith) cleared in
          rw (accepted, flush_loop, taken, left)
            (flushed ∙ append_assoc before (r ∷ []) (taken server o), auth, rest)
      | inr (status, refused) ↦
          rw (refused, flush_loop, taken, left)
            (sym (append-nil before), rw (refused, is_unauthorized) refl, there)
    ]

-- A flush of the outbox: with a key in memory, no other flush under way and no resource queued twice, it
-- reports as flushed exactly the resources before the first that the server refuses, in the
-- order of the queue, leaves that one and all after it in storage as they were, and reports an
-- expired session exactly if that refusal has status 401.
pub flush_outbox-IsOutcome :
    (session : Session) (server : QueueResource → List ℕ → Option ℕ) (stored : Option (List ℕ))
    → HasKey session
    → has_distinct_keys (read_outbox session stored) ≡ true
    → IsOutcome session server
        (read_outbox session stored)
        []
        (flush_outbox session server false stored)
unfolding flush_outbox
flush_outbox-IsOutcome session server stored key distinct =
    flush_loop-IsOutcome session server (read_outbox session stored) [] stored key distinct refl
