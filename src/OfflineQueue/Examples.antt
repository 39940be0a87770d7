-- ===== src/OfflineQueue/Examples.antt =====
-- The theorems on web/src/utils/offlineQueue.ts at concrete inputs.
use pwdnow_password_manager.Prelude.{
  ℕ, zero, suc, List, [], ◌∷◌, ◌++◌, true, false, ◌≡◌, refl, ap, sym, ◌∙◌, Option, none, some,
  or_else, append_assoc, append-nil,
}
use pwdnow_password_manager.OfflineQueue.{
  QueueResource, folders, credentials, asset_holder, QueueEntry, Outbox, Session, read_outbox,
  flush_outbox,
}
use pwdnow_password_manager.OfflineQueue.Latest.{
  HasKey, has_distinct_keys, entry_at, Write, after_writes, last_write, after_writes-last_write,
}
use pwdnow_password_manager.OfflineQueue.Flush.{IsOutcome, flush_outbox-IsOutcome}

-- The resources by number, each followed by its value's one character and its time.
abbrev tag : QueueResource → ℕ
tag folders = 0
tag credentials = 1
tag asset_holder = 2

abbrev resource_of : ℕ → QueueResource
resource_of zero = folders
resource_of (suc zero) = credentials
resource_of (suc (suc n)) = asset_holder

resource_of-tag : (r : QueueResource) → resource_of (tag r) ≡ r
resource_of-tag folders = refl
resource_of-tag credentials = refl
resource_of-tag asset_holder = refl

-- A value is written with its characters shifted and a 0 at its end.
abbrev shifted : List ℕ → List ℕ → List ℕ
shifted [] rest = 0 ∷ rest
shifted (c ∷ v) rest = suc c ∷ shifted v rest

abbrev written : Outbox → List ℕ
written [] = []
written ((r, e) ∷ o) = tag r ∷ e.queued_at ∷ shifted e.encrypted_value (written o)

abbrev with_entry : QueueResource → QueueEntry → Option Outbox → Option Outbox
with_entry r e none = none
with_entry r e (some o) = some ((r, e) ∷ o)

-- The entry that is being read, if there is one.
abbrev reading : Option (QueueResource × QueueEntry) → List ℕ → Option Outbox
reading none [] = some []
reading none (t ∷ []) = none
reading none (t ∷ n ∷ s) =
    reading (some (resource_of t, record { encrypted_value = []; queued_at = n })) s
reading (some (r, e)) [] = none
reading (some (r, e)) (zero ∷ s) = with_entry r e (reading none s)
reading (some (r, e)) (suc c ∷ s) =
    reading
      (some (r, record { encrypted_value = e.encrypted_value ++ c ∷ []; queued_at = e.queued_at }))
      s

reading-shifted :
    (r : QueueResource) (before v : List ℕ) (now : ℕ) (rest : List ℕ)
    → reading (some (r, record { encrypted_value = before; queued_at = now })) (shifted v rest)
      ≡ with_entry r (record { encrypted_value = before ++ v; queued_at = now }) (reading none rest)
reading-shifted r before [] now rest =
    ap (λ b. with_entry r (record { encrypted_value = b; queued_at = now }) (reading none rest))
      (sym (append-nil before))
reading-shifted r before (c ∷ v) now rest =
    reading-shifted r (before ++ c ∷ []) v now rest
    ∙ ap (λ b. with_entry r (record { encrypted_value = b; queued_at = now }) (reading none rest))
        (append_assoc before (c ∷ []) v)

reading-written : (o : Outbox) → reading none (written o) ≡ some o
reading-written [] = refl
reading-written ((r, e) ∷ o) =
    reading-shifted (resource_of (tag r)) [] e.encrypted_value e.queued_at (written o)
    ∙ rw (resource_of-tag r, reading-written o) refl

some-injective : {A : Type 0} (a b : A) → some a ≡ some b → a ≡ b
some-injective a b h = ap (λ o. or_else o a) h

abbrev plain : Session
plain = record {
  encrypt = λ o. some (written o);
  decrypt = reading none;
  decrypt-encrypt =
      λ o t h. ap (reading none) (sym (some-injective (written o) t h)) ∙ reading-written o;
}

plain-HasKey : HasKey plain
plain-HasKey o = (written o, refl)

abbrev three_writes : List Write
three_writes =
    record { resource = folders; value = 7 ∷ []; now = 30 }
    ∷ record { resource = credentials; value = 8 ∷ []; now = 20 }
    ∷ record { resource = folders; value = 9 ∷ []; now = 10 }
    ∷ []

after_writes-last_write_example :
    (entry_at folders (read_outbox plain (after_writes plain three_writes none))
      ≡ last_write folders three_writes)
    × (has_distinct_keys (read_outbox plain (after_writes plain three_writes none)) ≡ true)
after_writes-last_write_example = after_writes-last_write plain three_writes folders plain-HasKey

-- A server whose session has expired after the folders were taken.
abbrev expiring : QueueResource → List ℕ → Option ℕ
expiring folders value = none
expiring _ value = some 401

flush_outbox-IsOutcome_example :
    IsOutcome plain expiring
      (read_outbox plain (after_writes plain three_writes none))
      []
      (flush_outbox plain expiring false (after_writes plain three_writes none))
flush_outbox-IsOutcome_example =
    flush_outbox-IsOutcome plain expiring (after_writes plain three_writes none) plain-HasKey
      after_writes-last_write_distinct
  where
    after_writes-last_write_distinct :
        has_distinct_keys (read_outbox plain (after_writes plain three_writes none)) ≡ true
    after_writes-last_write_distinct =
        (after_writes-last_write plain three_writes folders plain-HasKey).1
