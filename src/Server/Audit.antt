-- ===== src/Server/Audit.antt =====
-- The audit log: web/lib/audit.js. An event carries the keyed hash of its data and of the hash
-- before it; loading the log checks that chain. The keyed hash (HMAC-SHA256 under the key
-- `audit/chain`) and `JSON.stringify` are parameters. A missing hash is the empty string.
pub mod Chain
pub mod Window
pub mod Flushed
pub mod Tampering
mod Examples
use pwdnow_password_manager.Prelude.{
  ℕ, ◌-◌, ◌≡◌, List, [], ◌∷◌, ◌++◌, Bool, true, false, ◌&&◌, ◌||◌, Option, none, some, ltb,
  if◌then◌else◌, length, drop, replicate, or_else,
}
use pwdnow_password_manager.Text.{text, text_eq, starts_with}

-- `compactIpInfo` of what the lookup knows of an address
pub record IpInfo : Type 0 where
  pub country : List ℕ
  pub country_code : List ℕ
  pub country_flag : List ℕ
  pub city : List ℕ
  pub region : List ℕ
  pub org : List ℕ
  pub connection_type : List ℕ
  pub risk_flags : List (List ℕ)

pub record IpRecord : Type 0 where
  pub ip : List ℕ
  pub info : IpInfo
  pub timestamp : ℕ

unfoldable pub compact_ip_info : Option IpRecord → Option IpInfo
compact_ip_info none = none
compact_ip_info (some r) = some r.info

-- The event as it is reported; `details` holds its other fields.
pub record Report : Type 0 where
  pub details : List ℕ
  pub ip : Option (List ℕ)
  pub public_ip : Option (List ℕ)
  pub ip_info : Option IpInfo

pub record AuditData : Type 0 where
  pub id : List ℕ
  pub ts : ℕ
  pub report : Report

pub record AuditEvent : Type 0 where
  pub data_of : AuditData
  pub hash : List ℕ
  pub integrity_failure : Bool

pub record AuditKey : Type 0 where
  pub hmac : List ℕ → List ℕ
  pub stringify : AuditData → List ℕ

-- `'0'.repeat(64)`
unfoldable pub zeros : List ℕ
zeros = replicate 64 48

abbrev pub max_events : ℕ
max_events = 2000

abbrev pub is_empty : List ℕ → Bool
is_empty [] = true
is_empty (c ∷ s) = false

abbrev pub seal : AuditKey → AuditData → List ℕ → List ℕ
seal k d prev = k.hmac (k.stringify d ++ prev)

-- One round of the loop of `loadAuditLog`: the event as it is returned, and the hash that the next one builds on.
abbrev pub checked : AuditKey → List ℕ → AuditEvent → AuditEvent
checked k prev e =
    if is_empty e.hash
    then record e { integrity_failure = true }
    else if text_eq e.hash (seal k e.data_of prev)
    then e
    else record e { integrity_failure = true }

abbrev pub next_hash : List ℕ → AuditEvent → List ℕ
next_hash prev e = if is_empty e.hash then prev else e.hash

unfoldable pub verify : AuditKey → List ℕ → List AuditEvent → List AuditEvent
verify k prev [] = []
verify k prev (e ∷ es) = checked k prev e ∷ verify k (next_hash prev e) es

-- The stored logs of the users.
abbrev pub Repository : Type 0
Repository = List ℕ → Option (List AuditEvent)

unfoldable pub load_audit_log : AuditKey → List ℕ → Repository → List AuditEvent
load_audit_log k uid repo = verify k zeros (or_else (repo uid) [])

unfoldable pub save_audit_log : List ℕ → List AuditEvent → Repository → Repository
save_audit_log uid events repo v = if text_eq v uid then some events else repo v

-- `LOOPBACK_RE`
unfoldable pub is_loopback : List ℕ → Bool
is_loopback ip =
    starts_with (text "127.") ip || text_eq ip (text "::1") || starts_with (text "::ffff:127.") ip

-- What the surroundings yield while an event is processed: its id, the time, the server's public
-- address, and the lookup of that address where it is enabled.
pub record Surroundings : Type 0 where
  pub uuid : List ℕ
  pub now : ℕ
  pub server_ip : Option (List ℕ)
  pub lookup_enabled : Bool
  pub lookup : List ℕ → Option IpRecord

unfoldable pub enrich : Surroundings → Report → Report
unfolding is_loopback compact_ip_info
enrich w r =
    if is_loopback (or_else r.ip [])
    then elim w.server_ip [
      | none ↦ r
      | some public ↦ record r {
        public_ip = some public;
        ip_info = elim r.ip_info [
          | some info ↦ some info
          | none ↦ if w.lookup_enabled then compact_ip_info (w.lookup public) else none
        ];
      }
    ]
    else r

-- `lastEvent?.hash || '0'.repeat(64)`
unfoldable pub last_hash : List AuditEvent → List ℕ
last_hash [] = zeros
last_hash (e ∷ []) = if is_empty e.hash then zeros else e.hash
last_hash (e ∷ e' ∷ es) = last_hash (e' ∷ es)

unfoldable pub trimmed : List AuditEvent → List AuditEvent
trimmed events =
    if ltb max_events (length events) then drop (length events - max_events) events else events

abbrev pub new_data : Surroundings → Report → AuditData
new_data w r = record { id = w.uuid; ts = w.now; report = enrich w r }

unfoldable pub sealed_event : AuditKey → List ℕ → AuditData → AuditEvent
sealed_event k prev d = record { data_of = d; hash = seal k d prev; integrity_failure = false }

unfoldable pub append_data : AuditKey → AuditData → List AuditEvent → List AuditEvent
unfolding sealed_event trimmed last_hash
append_data k d events = trimmed (events ++ sealed_event k (last_hash events) d ∷ [])

unfoldable pub process_audit_event :
    AuditKey → Surroundings → List ℕ → Report → Repository → Repository
unfolding load_audit_log save_audit_log append_data
process_audit_event k w uid r repo =
    save_audit_log uid (append_data k (new_data w r) (load_audit_log k uid repo)) repo

-- A queued event. `surroundings` are those in which it is processed, `none` if the lock or the repository fails
-- then.
pub record Queued : Type 0 where
  pub uid : List ℕ
  pub event : Report
  pub surroundings : Option Surroundings

unfoldable pub append_audit_event : Queued → List Queued → List Queued
append_audit_event q queue = if ltb (length queue) 5000 then queue ++ q ∷ [] else queue

unfoldable pub flush_audit_queue : AuditKey → List Queued → Repository → Repository
unfolding process_audit_event
flush_audit_queue k [] repo = repo
flush_audit_queue k (q ∷ queue) repo =
    let processed : Repository = elim q.surroundings [
      | none ↦ repo
      | some w ↦ process_audit_event k w q.uid q.event repo
    ] in
    flush_audit_queue k queue processed
