-- ===== src/SessionTracker.antt =====
-- The login sessions that the browser remembers: web/src/utils/sessionTracker.ts. The stored item
-- is the state; the key in memory, the time, the id and what the browser and the server say are
-- arguments. Writing and reading the item is that of web/src/utils/localCrypto.ts.
pub mod Tracked
pub mod Sorted
mod Examples
use pwdnow_password_manager.Prelude.{
  ℕ, ◌+◌, ◌-◌, ◌/◌, ◌≡◌, List, [], ◌∷◌, ◌++◌, Bool, true, false, ◌&&◌, ◌||◌, not, Option, none,
  some, ltb, leb, ◌==◌, if◌then◌else◌, length, drop, keep, map, or_else,
}
use pwdnow_password_manager.Text.{text, text_eq, starts_with, contains}

pub record LoginSession : Type 0 where
  pub id : List ℕ
  pub timestamp : ℕ
  pub device_name : List ℕ
  pub ip : List ℕ
  pub user_agent : List ℕ
  pub is_current : Bool

-- Whether the key in memory is the one of a number.
abbrev pub holds : Option ℕ → ℕ → Bool
holds none k = false
holds (some k') k = k' == k

-- JSON and the encryption of the stored item. A number names a v2 key with its salt, which the
-- browser derives anew at each login; `seal` is `none` where encrypting throws. `unseal` is `none`
-- for a text that cannot be read: what was sealed under a key is read under that key and under no
-- other.
pub record SessionCodec : Type 0 where
  pub stringify : List LoginSession → List ℕ
  pub parse : List ℕ → Option (List LoginSession)
  pub parse-stringify : (sessions : List LoginSession) → parse (stringify sessions) ≡ some sessions
  pub seal : ℕ → List ℕ → Option (List ℕ)
  pub unseal : Option ℕ → List ℕ → Option (List ℕ)
  pub unseal-seal :
      (k : ℕ) (value t : List ℕ) → seal k value ≡ some t → unseal (some k) t ≡ some value
  pub unseal_other :
      (key : Option ℕ) (k : ℕ) (value t : List ℕ)
      → seal k value ≡ some t
      → holds key k ≡ false
      → unseal key t ≡ none

-- What the surroundings say when a session is recorded: `is_brave` is `none` where the
-- question fails, and `my_ip` the address that the server reports, if it does.
pub record Surroundings : Type 0 where
  pub uuid : List ℕ
  pub now : ℕ
  pub agent : List ℕ
  pub hostname : List ℕ
  pub is_brave : Option Bool
  pub my_ip : Option (List ℕ)

-- `i18n.t(key, fallback, { count })`
abbrev pub Translate : Type 0
Translate = List ℕ → List ℕ → Option ℕ → List ℕ

-- `/part/i.test(ua)` for a part in small letters
abbrev pub lower_case : ℕ → ℕ
lower_case c = if leb b'A' c && leb c b'Z' then c + 32 else c

unfoldable pub mentions : List ℕ → List ℕ → Bool
unfolding contains
mentions part ua = contains part (map lower_case ua)

-- `/part\d/i.test(ua)`
unfoldable pub mentions_version : List ℕ → List ℕ → Bool
unfolding mentions
mentions_version part ua =
    mentions (part ++ text "0") ua
    || mentions (part ++ text "1") ua
    || mentions (part ++ text "2") ua
    || mentions (part ++ text "3") ua
    || mentions (part ++ text "4") ua
    || mentions (part ++ text "5") ua
    || mentions (part ++ text "6") ua
    || mentions (part ++ text "7") ua
    || mentions (part ++ text "8") ua
    || mentions (part ++ text "9") ua

unfoldable pub detect_os_from_ua : Translate → List ℕ → List ℕ
unfolding mentions
detect_os_from_ua t ua =
    if mentions (text "macintosh") ua || mentions (text "mac os x") ua
    then text "macOS"
    else if mentions (text "windows nt 10") ua
    then text "Windows 10/11"
    else if mentions (text "windows") ua
    then text "Windows"
    else if mentions (text "iphone") ua || mentions (text "ipad") ua
    then text "iOS"
    else if mentions (text "android") ua
    then text "Android"
    else if mentions (text "linux") ua
    then text "Linux"
    else t (text "common.unknownOS") (text "Unknown OS") none

unfoldable pub detect_browser_from_ua : Translate → Option Bool → List ℕ → List ℕ
unfolding mentions mentions_version
detect_browser_from_ua t is_brave ua =
    if or_else is_brave false
    then text "Brave"
    else if mentions (text "vivaldi") ua
    then text "Vivaldi"
    else if mentions (text "edg/") ua
    then text "Edge"
    else if mentions (text "opr/") ua || mentions (text "opera") ua
    then text "Opera"
    else if mentions_version (text "chrome/") ua && not (mentions (text "chromium") ua)
    then text "Chrome"
    else if mentions_version (text "firefox/") ua
    then text "Firefox"
    else if mentions_version (text "safari/") ua
    then text "Safari"
    else t (text "common.unknownBrowser") (text "Unknown Browser") none

abbrev pub is_empty : List ℕ → Bool
is_empty [] = true
is_empty (c ∷ s) = false

unfoldable pub address_of : Surroundings → List ℕ
address_of w =
    let reported = or_else w.my_ip [] in
    let ip = if is_empty reported then w.hostname else reported in
    if is_empty ip || text_eq ip (text "localhost") || text_eq ip (text "::1")
    then text "127.0.0.1"
    else ip

-- The entry that is recorded.
unfoldable pub session_of : Translate → Surroundings → LoginSession
unfolding detect_os_from_ua detect_browser_from_ua address_of
session_of t w = record {
  id = w.uuid;
  timestamp = w.now;
  device_name =
      detect_os_from_ua t w.agent ++ text " - " ++ detect_browser_from_ua t w.is_brave w.agent;
  ip = address_of w;
  user_agent = w.agent;
  is_current = true;
}

-- `sessions.sort((a, b) => b.timestamp - a.timestamp)`, which keeps the order of equal times
unfoldable pub insert : LoginSession → List LoginSession → List LoginSession
insert s [] = s ∷ []
insert s (x ∷ xs) = if ltb s.timestamp x.timestamp then x ∷ insert s xs else s ∷ x ∷ xs

unfoldable pub sort : List LoginSession → List LoginSession
unfolding insert
sort [] = []
sort (s ∷ ss) = insert s (sort ss)

-- The list with a new current session behind the newest nineteen.
unfoldable pub with_session : LoginSession → List LoginSession → List LoginSession
with_session new existing =
    let trimmed =
      if ltb 19 (length existing) then drop (length existing - 19) existing else existing in
    map (λ (s : LoginSession). record s { is_current = false }) trimmed ++ new ∷ []

module _ (codec : SessionCodec) where
  -- `key` is the v2 key in memory, if it is there. Without it, or if encrypting throws, nothing is
  -- written.
  unfoldable pub write_encrypted_local : Option ℕ → List ℕ → Option (List ℕ) → Option (List ℕ)
  write_encrypted_local none value stored = stored
  write_encrypted_local (some k) value stored = elim (codec.seal k value) [
    | none ↦ stored
    | some token ↦ some token
  ]

  unfoldable pub read_decrypted_local : Option ℕ → Option (List ℕ) → Option (List ℕ)
  read_decrypted_local key none = none
  read_decrypted_local key (some raw) = codec.unseal key raw

  unfoldable pub read_sessions : Option ℕ → Option (List ℕ) → List LoginSession
  unfolding read_decrypted_local
  read_sessions key stored = elim (read_decrypted_local key stored) [
    | none ↦ []
    | some raw ↦ or_else (codec.parse raw) []
  ]

  -- `served` is what the server answers if there is a server session, and `none` without one or
  -- where the request fails.
  unfoldable pub get_sessions :
      Option ℕ → Option (List LoginSession) → Option (List ℕ) → List LoginSession
  unfolding read_sessions sort
  get_sessions key (some (s ∷ served)) stored = sort (s ∷ served)
  get_sessions key _ stored = sort (read_sessions key stored)

  unfoldable pub record_session :
      Option ℕ → Translate → Surroundings → Option (List ℕ) → Option (List ℕ)
  unfolding read_sessions with_session write_encrypted_local
  record_session key t w stored =
      let updated = with_session (session_of t w) (read_sessions key stored) in
      write_encrypted_local key (codec.stringify updated) stored

  unfoldable pub clear_other_sessions : Option ℕ → Option (List ℕ) → Option (List ℕ)
  unfolding read_sessions write_encrypted_local
  clear_other_sessions key stored =
      let current = keep (λ s. s.is_current) (read_sessions key stored) in
      write_encrypted_local key (codec.stringify current) stored

  unfoldable pub clear_all_sessions : Option (List ℕ) → Option (List ℕ)
  clear_all_sessions stored = none

-- For a time that does not lie ahead.
unfoldable pub format_session_time : Translate → ℕ → ℕ → List ℕ
format_session_time t now timestamp =
    let diff = now - timestamp in
    if ltb (diff / 60000) 1
    then t (text "common.sessionActiveNow") (text "Active Now") none
    else if ltb (diff / 60000) 60
    then t (text "common.sessionMinsAgo") (text "{{count}} min ago") (some (diff / 60000))
    else if ltb (diff / 3600000) 24
    then t (text "common.sessionHoursAgo") (text "{{count}} h ago") (some (diff / 3600000))
    else t (text "common.sessionDaysAgo") (text "{{count}} day(s) ago") (some (diff / 86400000))
