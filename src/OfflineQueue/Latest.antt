-- ===== src/OfflineQueue/Latest.antt =====
-- The outbox holds the latest write of each resource.
use pwdnow_password_manager.Prelude.{
  ℕ, List, [], ◌∷◌, Bool, true, false, ◌||◌, ◌&&◌, not, ◌≡◌, refl, ◌∙◌, sym, ap, subst, Option,
  none, some, or_else, if◌then◌else◌, arith, Bool-cases, inl, inr,
}
use pwdnow_password_manager.OfflineQueue.{
  QueueResource, folders, credentials, asset_holder, same, QueueEntry, Outbox, Session, put, has,
  read_outbox, write_outbox, queue_write,
}

pub same_refl : (r : QueueResource) → same r r ≡ true
unfolding same
same_refl folders = refl
same_refl credentials = refl
same_refl asset_holder = refl

pub same-eq : (r k : QueueResource) → same r k ≡ true → r ≡ k
unfolding same
same-eq folders folders h = refl
same-eq credentials credentials h = refl
same-eq asset_holder asset_holder h = refl
same-eq folders credentials h = absurd (ground arith)
same-eq folders asset_holder h = absurd (ground arith)
same-eq credentials folders h = absurd (ground arith)
same-eq credentials asset_holder h = absurd (ground arith)
same-eq asset_holder folders h = absurd (ground arith)
same-eq asset_holder credentials h = absurd (ground arith)

same_sym : (r k : QueueResource) → same r k ≡ same k r
unfolding same
same_sym folders folders = refl
same_sym credentials credentials = refl
same_sym asset_holder asset_holder = refl
same_sym folders credentials = refl
same_sym folders asset_holder = refl
same_sym credentials folders = refl
same_sym credentials asset_holder = refl
same_sym asset_holder folders = refl
same_sym asset_holder credentials = refl

-- A key is there once.
unfoldable pub has_distinct_keys : Outbox → Bool
unfolding has
has_distinct_keys [] = true
has_distinct_keys ((k, e) ∷ o) = not (has k o) && has_distinct_keys o

unfoldable pub entry_at : QueueResource → Outbox → Option QueueEntry
unfolding same
entry_at r [] = none
entry_at r ((k, e) ∷ o) = if same k r then some e else entry_at r o

abbrev pub HasKey : Session → Type 0
HasKey session = (o : Outbox) → (t : List ℕ) × (session.encrypt o ≡ some t)

-- With a key in memory, what is written is read.
pub read-write_outbox :
    (session : Session) (o : Outbox) (stored : Option (List ℕ))
    → HasKey session
    → read_outbox session (write_outbox session o stored) ≡ o
unfolding read_outbox write_outbox
read-write_outbox session [] stored key = refl
read-write_outbox session (x ∷ o) stored key =
    let (t, e) = key (x ∷ o) in
    ap
      (λ (c : Option (List ℕ)).
        read_outbox session (elim c [ none ↦ stored | some raw ↦ some raw ]))
      e
    ∙ ap (λ d. or_else d []) (session.decrypt-encrypt (x ∷ o) t e)

has-put :
    (r k : QueueResource) (e : QueueEntry) (o : Outbox) → has k (put r e o) ≡ (same r k || has k o)
unfolding has put
has-put r k e [] = ground arith
has-put r k e ((j, old) ∷ o) = elim (Bool-cases (same j r)) [
  | inl here ↦ let eq = same-eq j r here in rw (here, sym eq) (ground arith)
  | inr later ↦ rw (later, has-put r k e o) (ground arith)
]

distinct-put :
    (r : QueueResource) (e : QueueEntry) (o : Outbox)
    → has_distinct_keys o ≡ true
    → has_distinct_keys (put r e o) ≡ true
unfolding has_distinct_keys put has
distinct-put r e [] h = refl
distinct-put r e ((k, old) ∷ o) h = elim (Bool-cases (same k r)) [
  | inl here ↦ rw (here) h
  | inr later ↦
      rw (later, has-put r k e o, same_sym r k, later) (ground (arith, distinct-put r e o))
]

entry_at-put :
    (r k : QueueResource) (e : QueueEntry) (o : Outbox)
    → entry_at k (put r e o) ≡ (if same r k then some e else entry_at k o)
unfolding entry_at put
entry_at-put r k e [] = refl
entry_at-put r k e ((j, old) ∷ o) = elim (Bool-cases (same j r)) [
  | inl here ↦ rw (here, same-eq j r here) (ground arith)
  | inr later ↦ elim (Bool-cases (same j k)) [
    | inl here ↦
        let other : same r k ≡ false =
          same_sym r k ∙ subst (λ i. same i r ≡ false) (same-eq j k here) later in
        rw (later, other, here) refl
    | inr elsewhere ↦ rw (later, elsewhere) (entry_at-put r k e o)
  ]
]

-- A call of queueWrite.
pub record Write : Type 0 where
  pub resource : QueueResource
  pub value : List ℕ
  pub now : ℕ

abbrev pub entry_of : Write → QueueEntry
entry_of w = record { encrypted_value = w.value; queued_at = w.now }

-- The storage after writes, the last one first.
abbrev pub after_writes : Session → List Write → Option (List ℕ) → Option (List ℕ)
after_writes session [] stored = stored
after_writes session (w ∷ ws) stored =
    queue_write session w.resource w.value w.now (after_writes session ws stored)

-- The abstract view: the last write of a resource, if there is one.
abbrev pub last_write : QueueResource → List Write → Option QueueEntry
last_write r [] = none
last_write r (w ∷ ws) = if same w.resource r then some (entry_of w) else last_write r ws

read-queue_write :
    (session : Session) (w : Write) (stored : Option (List ℕ))
    → HasKey session
    → read_outbox session (queue_write session w.resource w.value w.now stored)
      ≡ put w.resource (entry_of w) (read_outbox session stored)
unfolding queue_write
read-queue_write session w stored key =
    read-write_outbox session (put w.resource (entry_of w) (read_outbox session stored)) stored key

-- The outbox is the map from each resource to its latest write: with a key in memory, after any writes to
-- an empty storage, reading it gives for each resource the last value queued for it and its
-- time, or nothing if none was queued, and no resource is there twice.
pub after_writes-last_write :
    (session : Session) (ws : List Write) (r : QueueResource)
    → HasKey session
    → (entry_at r (read_outbox session (after_writes session ws none)) ≡ last_write r ws)
      × (has_distinct_keys (read_outbox session (after_writes session ws none)) ≡ true)
unfolding read_outbox entry_at has_distinct_keys
after_writes-last_write session [] r key = (refl, refl)
after_writes-last_write session (w ∷ ws) r key =
    let stored = after_writes session ws none in
    let (latest, distinct) = after_writes-last_write session ws r key in
    let now_there = read-queue_write session w stored key in
    (
      ap (entry_at r) now_there
          ∙ entry_at-put w.resource r (entry_of w) (read_outbox session stored)
          ∙ ap (λ o. if same w.resource r then some (entry_of w) else o) latest,
      ap has_distinct_keys now_there
          ∙ distinct-put w.resource (entry_of w) (read_outbox session stored) distinct,
    )
