-- ===== src/OfflineQueue.antt =====
-- The outbox of writes that could not reach the server: web/src/utils/offlineQueue.ts. The item of
-- the browser's storage is the state; the server's answers and the times are arguments.
pub mod Latest
pub mod Flush
mod Examples
use pwdnow_password_manager.Prelude.{
  ℕ, ◌+◌, ◌≡◌, List, [], ◌∷◌, ◌++◌, Bool, true, false, ◌||◌, Option, none, some, ◌==◌,
  if◌then◌else◌, length, or_else, map,
}

pub data QueueResource : Type 0 where
  folders credentials asset_holder : QueueResource

-- `===` of two resources.
unfoldable pub same : QueueResource → QueueResource → Bool
same folders folders = true
same credentials credentials = true
same asset_holder asset_holder = true
same _ _ = false

pub record QueueEntry : Type 0 where
  pub encrypted_value : List ℕ
  pub queued_at : ℕ

-- The keys stand in the order they were added.
abbrev pub Outbox : Type 0
Outbox = List (QueueResource × QueueEntry)

-- encryptForServer of the outbox's JSON, which fails without a key in memory, and back.
pub record Session : Type 0 where
  pub encrypt : Outbox → Option (List ℕ)
  pub decrypt : List ℕ → Option Outbox
  pub decrypt-encrypt : (o : Outbox) (t : List ℕ) → encrypt o ≡ some t → decrypt t ≡ some o

unfoldable pub put : QueueResource → QueueEntry → Outbox → Outbox
unfolding same
put r e [] = (r, e) ∷ []
put r e ((k, old) ∷ o) = if same k r then (k, e) ∷ o else (k, old) ∷ put r e o

unfoldable pub remove : QueueResource → Outbox → Outbox
unfolding same
remove r [] = []
remove r ((k, e) ∷ o) = let rest = remove r o in if same k r then rest else (k, e) ∷ rest

unfoldable pub has : QueueResource → Outbox → Bool
unfolding same
has r [] = false
has r ((k, e) ∷ o) = same k r || has r o

pub record FlushResult : Type 0 where
  pub flushed : List QueueResource
  pub auth_expired : Bool

module _ (session : Session) where
  unfoldable pub read_outbox : Option (List ℕ) → Outbox
  read_outbox none = []
  read_outbox (some raw) = or_else (session.decrypt raw) []

  -- What is stored stays if encryption is not possible.
  unfoldable pub write_outbox : Outbox → Option (List ℕ) → Option (List ℕ)
  write_outbox [] stored = none
  write_outbox (x ∷ o) stored = elim (session.encrypt (x ∷ o)) [
    | none ↦ stored
    | some raw ↦ some raw
  ]

  unfoldable pub queue_write : QueueResource → List ℕ → ℕ → Option (List ℕ) → Option (List ℕ)
  unfolding read_outbox write_outbox put
  queue_write r value now stored =
      write_outbox
        (put r (record { encrypted_value = value; queued_at = now }) (read_outbox stored)) stored

  unfoldable pub clear_queued_write : QueueResource → Option (List ℕ) → Option (List ℕ)
  unfolding read_outbox write_outbox has remove
  clear_queued_write r stored =
      let outbox = read_outbox stored in
      if has r outbox then write_outbox (remove r outbox) stored else stored

  unfoldable pub get_queue_size : Option (List ℕ) → ℕ
  unfolding read_outbox
  get_queue_size stored = length (read_outbox stored)

  -- The loop over the keys; the server answers a PUT with an error's status or without one.
  unfoldable pub flush_loop :
      (QueueResource → List ℕ → Option ℕ)
      → Outbox
      → List QueueResource
      → Option (List ℕ)
      → FlushResult × Option (List ℕ)
  unfolding clear_queued_write
  flush_loop server [] flushed stored = (record { flushed = flushed; auth_expired = false }, stored)
  flush_loop server ((r, e) ∷ o) flushed stored = elim (server r e.encrypted_value) [
    | none ↦ flush_loop server o (flushed ++ r ∷ []) (clear_queued_write r stored)
    | some status ↦ (record { flushed = flushed; auth_expired = status == 401 }, stored)
  ]

  -- `flushing` is the lock.
  unfoldable pub flush_outbox :
      (QueueResource → List ℕ → Option ℕ) → Bool → Option (List ℕ) → FlushResult × Option (List ℕ)
  unfolding flush_loop read_outbox
  flush_outbox server flushing stored =
      if flushing
      then (record { flushed = []; auth_expired = false }, stored)
      else flush_loop server (read_outbox stored) [] stored
