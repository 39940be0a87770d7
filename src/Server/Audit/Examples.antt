-- ===== src/Server/Audit/Examples.antt =====
-- The theorems on web/lib/audit.js at concrete inputs.
use pwdnow_password_manager.Prelude.{
  ℕ, suc, ◌≡◌, refl, ◌∙◌, sym, ap, List, [], ◌∷◌, ◌++◌, true, false, Option, none, some, or_else,
  length, drop, append_assoc, replicate, arith,
}
use pwdnow_password_manager.Text.{text}
use pwdnow_password_manager.Server.Audit.{
  IpInfo, Report, AuditData, AuditKey, Surroundings, Queued, Repository, zeros, sealed_event,
  load_audit_log, flush_audit_queue,
}
use pwdnow_password_manager.Server.Audit.Chain.{IsCollisionFree}
use pwdnow_password_manager.Server.Audit.Window.{as_loaded}
use pwdnow_password_manager.Server.Audit.Flushed.{recorded, load_audit_log-flush_audit_queue}
use pwdnow_password_manager.Server.Audit.Tampering.{reports_failure, load_audit_log-detects}

-- Texts in a row, each behind its length and 1; a 0 ends the row.
abbrev written : List (List ℕ) → List ℕ
written [] = 0 ∷ []
written (v ∷ vs) = suc (length v) ∷ v ++ written vs

same_length-append : (v w s t : List ℕ) → length v ≡ length w → v ++ s ≡ w ++ t → (v ≡ w) × (s ≡ t)
same_length-append [] [] s t n e = (refl, e)
same_length-append [] (c ∷ w) s t n e = absurd (omega arith)
same_length-append (c ∷ v) [] s t n e = absurd (omega arith)
same_length-append (c ∷ v) (d ∷ w) s t n e =
    let (same, rest) = same_length-append v w s t (omega arith) (ap (drop 1) e) in
    (ground arith, rest)

written-append :
    (vs ws : List (List ℕ)) (s t : List ℕ) → written vs ++ s ≡ written ws ++ t → (vs ≡ ws) × (s ≡ t)
written-append [] [] s t e = (refl, ap (drop 1) e)
written-append [] (w ∷ ws) s t e = ground arith
written-append (v ∷ vs) [] s t e = ground arith
written-append (v ∷ vs) (w ∷ ws) s t e =
    let n : length v ≡ length w = ground arith in
    let tails : v ++ (written vs ++ s) ≡ w ++ (written ws ++ t) =
      sym (append_assoc v (written vs) s) ∙ ap (drop 1) e ∙ append_assoc w (written ws) t in
    let (same, rest) = same_length-append v w (written vs ++ s) (written ws ++ t) n tails in
    let (others, ends) = written-append vs ws s t rest in (cc, ends)

abbrev optional : Option (List ℕ) → List ℕ
optional none = []
optional (some v) = 1 ∷ v

optional-injective : (o p : Option (List ℕ)) → optional o ≡ optional p → o ≡ p
optional-injective none none e = refl
optional-injective none (some w) e = ground arith
optional-injective (some v) none e = ground arith
optional-injective (some v) (some w) e = ap some (ap (drop 1) e)

abbrev info_texts : IpInfo → List (List ℕ)
info_texts i =
    i.country ∷ i.country_code ∷ i.country_flag ∷ i.city ∷ i.region ∷ i.org ∷ i.connection_type
    ∷ i.risk_flags

info_texts-injective : (i j : IpInfo) → info_texts i ≡ info_texts j → i ≡ j
info_texts-injective i j e = ground arith

abbrev written_info : Option IpInfo → List ℕ
written_info none = []
written_info (some i) = written (info_texts i)

written_info-injective : (o p : Option IpInfo) → written_info o ≡ written_info p → o ≡ p
written_info-injective none none e = refl
written_info-injective none (some j) e = absurd (ground arith)
written_info-injective (some i) none e = absurd (ground arith)
written_info-injective (some i) (some j) e =
    let texts = (written-append (info_texts i) (info_texts j) [] [] (ap (λ r. r ++ []) e)).0 in
    ap some (info_texts-injective i j texts)

abbrev data_texts : AuditData → List (List ℕ)
data_texts d =
    d.id
    ∷ (d.ts ∷ [])
    ∷ d.report.details
    ∷ optional d.report.ip
    ∷ optional d.report.public_ip
    ∷ written_info d.report.ip_info
    ∷ []

data_texts-injective : (d e : AuditData) → data_texts d ≡ data_texts e → d ≡ e
data_texts-injective d e h =
    let ip = optional-injective d.report.ip e.report.ip (ground arith) in
    let public = optional-injective d.report.public_ip e.report.public_ip (ground arith) in
    let info = written_info-injective d.report.ip_info e.report.ip_info (ground arith) in
    ground arith

-- A hash that keeps its input behind a 1.
abbrev keeping : AuditKey
keeping = record { hmac = λ s. 1 ∷ s; stringify = λ d. written (data_texts d) }

keeping-IsCollisionFree : IsCollisionFree keeping
unfolding zeros
keeping-IsCollisionFree = record {
  no_collision = λ s t e. ap (drop 1) e;
  ne_zeros = λ s e. absurd (ground arith);
  ne_empty = λ s. refl;
  self_delimiting = λ d e s t h.
      let (same, rest) = written-append (data_texts d) (data_texts e) s t h in
      (data_texts-injective d e same, rest);
}

abbrev login_event : Report
login_event = record {
  details = text "login";
  ip = some (text "127.0.0.1");
  public_ip = none;
  ip_info = none;
}

abbrev at_home : Surroundings
at_home = record {
  uuid = text "e1";
  now = 1000;
  server_ip = some (text "8.8.8.8");
  lookup_enabled = true;
  lookup = λ ip. none;
}

abbrev queued : List ℕ → Queued
queued uid = record { uid = uid; event = login_event; surroundings = some at_home }

abbrev failed : Queued
failed = record { uid = text "a"; event = login_event; surroundings = none }

-- More events than a log keeps.
abbrev long_queue : List Queued
long_queue = queued (text "b") ∷ failed ∷ replicate 2001 (queued (text "a"))

load_audit_log-flush_audit_queue_example :
    load_audit_log keeping (text "a") (flush_audit_queue keeping long_queue (λ u. none))
    ≡ as_loaded keeping (recorded (text "a") long_queue)
load_audit_log-flush_audit_queue_example =
    load_audit_log-flush_audit_queue keeping keeping-IsCollisionFree (text "a") long_queue

abbrev short_queue : List Queued
short_queue = queued (text "a") ∷ queued (text "b") ∷ queued (text "a") ∷ []

abbrev flushed : Repository
flushed = flush_audit_queue keeping short_queue (λ u. none)

flushed_clean : reports_failure (load_audit_log keeping (text "a") flushed) ≡ false
unfolding sealed_event
flushed_clean =
    ap reports_failure
      (load_audit_log-flush_audit_queue keeping keeping-IsCollisionFree (text "a") short_queue)

-- The same log in a repository without the other user's.
abbrev copied : Repository
copied u = flushed (text "a")

load_audit_log-detects_example : or_else (copied (text "a")) [] ≡ or_else (flushed (text "a")) []
unfolding load_audit_log
load_audit_log-detects_example =
    load_audit_log-detects keeping keeping-IsCollisionFree (text "a") flushed copied flushed_clean
      flushed_clean refl
