-- ===== src/Server/Sessions/Requests.antt =====
-- What a request tells of its sender: the CSRF check of web/lib/csrf.js, and the device and the address
-- that web/lib/session.js records.
use pwdnow_password_manager.Prelude.{
  ℕ, List, [], ◌∷◌, ◌++◌, Bool, true, false, ◌&&◌, ◌||◌, not, Option, leb, ◌==◌, if◌then◌else◌,
  length, drop, take, keep, or_else,
}
use pwdnow_password_manager.Text.{text, text_eq, is_space, starts_with, contains}
use pwdnow_password_manager.SessionTracker.{mentions, mentions_version}

abbrev pub is_empty : List ℕ → Bool
is_empty [] = true
is_empty (c ∷ s) = false

pub record Request : Type 0 where
  pub method : List ℕ
  pub session_cookie : Option (List ℕ)
  pub csrf_cookie : Option (List ℕ)
  pub csrf_header : Option (List ℕ)
  pub user_agent : List ℕ
  pub ip : List ℕ
  pub remote_address : List ℕ
  pub browser_hint : Option (List ℕ)

-- What a login meets: the time, the server's public address, the hash of an address with the day.
pub record Surroundings : Type 0 where
  pub now : ℕ
  pub public_ip : Option (List ℕ)
  pub hash_with_day : List ℕ → List ℕ

-- `[/POST/, …].includes(method)`
abbrev pub is_unsafe : List ℕ → Bool
is_unsafe method =
    text_eq method (text "POST")
    || text_eq method (text "PUT")
    || text_eq method (text "PATCH")
    || text_eq method (text "DELETE")

-- requireCsrf lets the request pass.
unfoldable pub passes_csrf : Request → Bool
passes_csrf req =
    if not (is_unsafe req.method)
    then true
    else not (is_empty (or_else req.csrf_header []))
      && not (is_empty (or_else req.csrf_cookie []))
      && text_eq (or_else req.csrf_header []) (or_else req.csrf_cookie [])

unfoldable pub get_client_ip : Request → List ℕ
get_client_ip req =
    if not (is_empty req.ip)
    then req.ip
    else if not (is_empty req.remote_address)
    then req.remote_address
    else text "127.0.0.1"

unfoldable pub parse_ua : List ℕ → List ℕ
unfolding mentions mentions_version
parse_ua ua =
    (if mentions (text "macintosh") ua || mentions (text "mac os x") ua
      then text "macOS"
      else if mentions (text "windows nt 10") ua
      then text "Windows 10/11"
      else if mentions (text "windows") ua
      then text "Windows"
      else if mentions (text "iphone") ua || mentions (text "ipad") ua
      then text "iOS"
      else if mentions (text "android") ua
      then text "Android"
      else if mentions (text "linux") ua
      then text "Linux"
      else text "Unknown OS")
    ++ text " - "
    ++ (if mentions (text "vivaldi") ua
        then text "Vivaldi"
        else if mentions (text "edg/") ua
        then text "Edge"
        else if mentions (text "opr/") ua || mentions (text "opera") ua
        then text "Opera"
        else if mentions_version (text "chrome/") ua && not (mentions (text "chromium") ua)
        then text "Chrome"
        else if mentions_version (text "firefox/") ua
        then text "Firefox"
        else if mentions_version (text "safari/") ua
        then text "Safari"
        else text "Unknown Browser")

-- A character of `[\w\s\-.]`.
abbrev pub is_allowed : ℕ → Bool
is_allowed c =
    (leb b'a' c && leb c b'z')
    || (leb b'A' c && leb c b'Z')
    || (leb b'0' c && leb c b'9')
    || c == b'_'
    || is_space c
    || c == b'-'
    || c == b'.'

-- `s.replace(part, put)`: the first occurrence.
unfoldable pub replace_first : List ℕ → List ℕ → List ℕ → List ℕ
unfolding starts_with
replace_first part put [] = if is_empty part then put else []
replace_first part put (c ∷ s) =
    let rest = replace_first part put s in
    if starts_with part (c ∷ s) then put ++ drop (length part) (c ∷ s) else c ∷ rest

unfoldable pub device_name_of : Request → List ℕ
unfolding parse_ua replace_first contains
device_name_of req =
    let name = parse_ua req.user_agent in
    let hint = keep is_allowed (take 50 (or_else req.browser_hint [])) in
    if not (is_empty hint) && not (text_eq hint (text "Unknown")) && contains (text "Chrome") name
    then replace_first (text "Chrome") hint name
    else name

unfoldable pub display_ip : Surroundings → Request → List ℕ
unfolding get_client_ip
display_ip w req =
    let ip = get_client_ip req in
    if text_eq ip (text "127.0.0.1")
      || text_eq ip (text "::1")
      || text_eq ip (text "::ffff:127.0.0.1")
    then (if is_empty (or_else w.public_ip []) then text "Local" else or_else w.public_ip [])
    else take 8 (w.hash_with_day ip)
