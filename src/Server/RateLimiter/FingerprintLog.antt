-- ===== src/Server/RateLimiter/FingerprintLog.antt =====
-- The log of the devices a user signed in from: makeFingerprintLogEntry and mergeFingerprintLog of
-- web/lib/rateLimiter.js.
use pwdnow_password_manager.Prelude.{
  ℕ, zero, suc, ◌+◌, ◌-◌, ◌≤◌, ◌≡◌, refl, ◌∙◌, ap, List, [], ◌∷◌, ◌++◌, Bool, true, false, ◌||◌,
  ◌&&◌, not, Option, none, some, ltb, if◌then◌else◌, length, take, drop, length-drop, length-append,
  drop-append_le, arith, Bool-cases, inl, inr,
}
use pwdnow_password_manager.Text.{text_eq, text_eq_iff, text_eq_refl}

-- The fields that the client may send; a field that is not a string is absent.
pub record Fingerprint : Type 0 where
  pub visitor_id : Option (List ℕ)
  pub screen : Option (List ℕ)
  pub timezone : Option (List ℕ)
  pub locale : Option (List ℕ)

pub record FingerprintEntry : Type 0 where
  pub id : List ℕ
  pub visitor_id : List ℕ
  pub screen : List ℕ
  pub timezone : List ℕ
  pub locale : List ℕ
  pub ip : List ℕ
  pub ua : List ℕ
  pub first_seen : ℕ
  pub last_seen : ℕ
  pub failure_count : ℕ
  pub success_count : ℕ

abbrev pub fingerprint_log_cap : ℕ
fingerprint_log_cap = 32

-- `typeof v === 'string' ? v.slice(0, n) : ''`
abbrev pub clipped : ℕ → Option (List ℕ) → List ℕ
clipped n none = []
clipped n (some v) = take n v

-- `ip` is getClientIp(req), `ua` the request's user agent.
abbrev pub make_fingerprint_log_entry :
    List ℕ → Fingerprint → List ℕ → List ℕ → Bool → ℕ → FingerprintEntry
make_fingerprint_log_entry identity fp ip ua success now = record {
  id = identity;
  visitor_id = clipped 64 fp.visitor_id;
  screen = clipped 32 fp.screen;
  timezone = clipped 64 fp.timezone;
  locale = clipped 16 fp.locale;
  ip = ip;
  ua = take 256 ua;
  first_seen = now;
  last_seen = now;
  failure_count = if success then 0 else 1;
  success_count = if success then 1 else 0;
}

-- The entry at the position that `findIndex` gives.
unfoldable pub seen : List ℕ → List FingerprintEntry → Bool
seen i [] = false
seen i (e ∷ es) = text_eq e.id i || seen i es

abbrev pub seen_again : FingerprintEntry → FingerprintEntry → FingerprintEntry
seen_again ex new = record ex {
  ip = new.ip;
  ua = new.ua;
  last_seen = new.last_seen;
  failure_count = ex.failure_count + new.failure_count;
  success_count = ex.success_count + new.success_count;
}

unfoldable pub update_first : FingerprintEntry → List FingerprintEntry → List FingerprintEntry
update_first new [] = []
update_first new (ex ∷ es) =
    if text_eq ex.id new.id then seen_again ex new ∷ es else ex ∷ update_first new es

unfoldable pub merge_fingerprint_log :
    List FingerprintEntry → FingerprintEntry → List FingerprintEntry
merge_fingerprint_log log new =
    if seen new.id log
    then update_first new log
    else (let list = log ++ (new ∷ []) in
        if ltb fingerprint_log_cap (length list)
        then drop (length list - fingerprint_log_cap) list
        else list)

-- No two entries have the same id.
unfoldable pub has_distinct_ids : List FingerprintEntry → Bool
has_distinct_ids [] = true
has_distinct_ids (e ∷ es) = not (seen e.id es) && has_distinct_ids es

-- A count of an entry, which adds up when the entry is seen again.
record IsCount (count : FingerprintEntry → ℕ) : Type 0 where
  adds_up : (ex new : FingerprintEntry) → count (seen_again ex new) ≡ count ex + count new

-- What the log counts for an id.
unfoldable pub count_for : (FingerprintEntry → ℕ) → List ℕ → List FingerprintEntry → ℕ
count_for count i [] = 0
count_for count i (e ∷ es) =
    let rest = count_for count i es in if text_eq e.id i then count e else rest

-- The failures and the successes that the log counts for an id.
abbrev pub failures_for : List ℕ → List FingerprintEntry → ℕ
failures_for i es = count_for (λ e. e.failure_count) i es

abbrev pub successes_for : List ℕ → List FingerprintEntry → ℕ
successes_for i es = count_for (λ e. e.success_count) i es

seen-update_first :
    (i : List ℕ) (new : FingerprintEntry) (es : List FingerprintEntry)
    → seen i (update_first new es) ≡ seen i es
unfolding seen update_first
seen-update_first i new [] = refl
seen-update_first i new (ex ∷ es) = ground (arith, seen-update_first i new es)

seen-append :
    (i : List ℕ) (new : FingerprintEntry) (es : List FingerprintEntry)
    → seen i (es ++ new ∷ []) ≡ (seen i es || text_eq new.id i)
unfolding seen
seen-append i new [] = ground arith
seen-append i new (ex ∷ es) = ground (arith, seen-append i new es)

distinct-update_first :
    (new : FingerprintEntry) (es : List FingerprintEntry)
    → has_distinct_ids (update_first new es) ≡ has_distinct_ids es
unfolding has_distinct_ids update_first
distinct-update_first new [] = refl
distinct-update_first new (ex ∷ es) =
    ground (arith, distinct-update_first new es, seen-update_first ex.id new es)

distinct-append :
    (new : FingerprintEntry) (es : List FingerprintEntry)
    → seen new.id es ≡ false
    → has_distinct_ids es ≡ true
    → has_distinct_ids (es ++ new ∷ []) ≡ true
unfolding has_distinct_ids seen
distinct-append new [] fresh h = refl
distinct-append new (ex ∷ es) fresh h = ground (
  arith,
  distinct-append new es,
  seen-append ex.id new es,
  text_eq_iff ex.id new.id,
  text_eq_iff new.id ex.id,
)

distinct-drop :
    (n : ℕ) (es : List FingerprintEntry)
    → has_distinct_ids es ≡ true
    → has_distinct_ids (drop n es) ≡ true
unfolding has_distinct_ids
distinct-drop zero es h = h
distinct-drop (suc n) [] h = refl
distinct-drop (suc n) (e ∷ es) h = distinct-drop n es (ground arith)

seen-drop :
    (i : List ℕ) (n : ℕ) (es : List FingerprintEntry)
    → seen i es ≡ false
    → seen i (drop n es) ≡ false
unfolding seen
seen-drop i zero es h = h
seen-drop i (suc n) [] h = refl
seen-drop i (suc n) (e ∷ es) h = seen-drop i n es (ground arith)

module _ (count : FingerprintEntry → ℕ) where
  count_for-append :
      (new : FingerprintEntry) (es : List FingerprintEntry)
      → seen new.id es ≡ false
      → count_for count new.id (es ++ new ∷ []) ≡ count new
  unfolding count_for seen
  count_for-append new [] h = ground (arith, text_eq_refl new.id)
  count_for-append new (ex ∷ es) h = ground (arith, count_for-append new es)

  count_for_unseen :
      (i : List ℕ) (es : List FingerprintEntry) → seen i es ≡ false → count_for count i es ≡ 0
  unfolding count_for seen
  count_for_unseen i [] h = refl
  count_for_unseen i (ex ∷ es) h = ground (arith, count_for_unseen i es)

  count_for-update_first :
      (new : FingerprintEntry) (es : List FingerprintEntry)
      → IsCount count
      → seen new.id es ≡ true
      → count_for count new.id (update_first new es) ≡ count_for count new.id es + count new
  unfolding count_for seen update_first
  count_for-update_first new [] adds h = ground arith
  count_for-update_first new (ex ∷ es) adds h =
      ground (arith, adds.adds_up ex new, count_for-update_first new es adds)

  -- The count of the new entry's id grows by that of the entry.
  count_for-merge :
      (log : List FingerprintEntry) (new : FingerprintEntry)
      → IsCount count
      → length log ≤ 32
      → count_for count new.id (merge_fingerprint_log log new)
        ≡ count_for count new.id log + count new
  unfolding merge_fingerprint_log
  count_for-merge log new adds short = elim (Bool-cases (seen new.id log)) [
    | inl again ↦ rw (again) (count_for-update_first new log adds again)
    | inr fresh ↦
        let n = length (log ++ new ∷ []) - 32 in
        let kept : n ≤ length log = omega (arith, length-append log (new ∷ [])) in
        rw (fresh, count_for_unseen new.id log fresh)
          (elim (Bool-cases (ltb 32 (length (log ++ new ∷ [])))) [
            | inl over ↦ rw (over) (
                ap (count_for count new.id) (drop-append_le n log (new ∷ []) kept)
                ∙ count_for-append new (drop n log) (seen-drop new.id n log fresh)
                ∙ omega arith)
            | inr fits ↦ rw (fits) (count_for-append new log fresh ∙ omega arith)
          ])
  ]

length-update_first :
    (new : FingerprintEntry) (es : List FingerprintEntry) → length (update_first new es) ≡ length es
unfolding update_first
length-update_first new [] = refl
length-update_first new (ex ∷ es) = ground (arith, length-update_first new es)

merge_fingerprint_log-trimmed :
    (log : List FingerprintEntry) (new : FingerprintEntry)
    → length log ≤ 32
    → has_distinct_ids log ≡ true
    → (length (merge_fingerprint_log log new) ≤ 32)
      × (has_distinct_ids (merge_fingerprint_log log new) ≡ true)
unfolding merge_fingerprint_log
merge_fingerprint_log-trimmed log new short distinct = elim (Bool-cases (seen new.id log)) [
  | inl again ↦
      rw (again)
        (omega (arith, length-update_first new log), distinct-update_first new log ∙ distinct)
  | inr fresh ↦
      let n = length (log ++ new ∷ []) - 32 in
      rw (fresh) (elim (Bool-cases (ltb 32 (length (log ++ new ∷ [])))) [
        | inl over ↦ rw (over) (
          omega (arith, length-drop n (log ++ new ∷ []), length-append log (new ∷ [])),
          distinct-drop n (log ++ new ∷ []) (distinct-append new log fresh distinct),
        )
        | inr fits ↦ rw (fits) (ground arith, distinct-append new log fresh distinct)
      ])
]

-- What a login attempt does to the log: if the log keeps at most 32 entries and no id twice, then so
-- does the merged log, and for the id of the attempt it counts the failures and the
-- successes counted before and those of the attempt. So trimming never drops the entry just added.
pub merge_fingerprint_log-merged :
    (log : List FingerprintEntry) (new : FingerprintEntry)
    → length log ≤ 32
    → has_distinct_ids log ≡ true
    → (length (merge_fingerprint_log log new) ≤ 32)
      × (has_distinct_ids (merge_fingerprint_log log new) ≡ true)
      × (failures_for new.id (merge_fingerprint_log log new)
          ≡ failures_for new.id log + new.failure_count)
      × (successes_for new.id (merge_fingerprint_log log new)
          ≡ successes_for new.id log + new.success_count)
merge_fingerprint_log-merged log new short distinct =
    let (few, distinct') = merge_fingerprint_log-trimmed log new short distinct in
    (
      few,
      distinct',
      count_for-merge (λ e. e.failure_count) log new (record { adds_up = λ ex e. refl }) short,
      count_for-merge (λ e. e.success_count) log new (record { adds_up = λ ex e. refl }) short,
    )
