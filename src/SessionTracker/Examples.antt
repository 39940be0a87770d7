-- ===== src/SessionTracker/Examples.antt =====
-- The theorem on web/src/utils/sessionTracker.ts at a concrete run.
use pwdnow_password_manager.Prelude.{
  subst, Option, eq→==, ℕ, ◌≤◌, ◌≡◌, refl, ◌∙◌, ap, arith, if◌then◌else◌, List, [], ◌∷◌, true,
  false, none, some, length,
}
use pwdnow_password_manager.Text.{text}
use pwdnow_password_manager.Text.Rows.{written, reading, reading-written}
use pwdnow_password_manager.SessionTracker.{
  holds, LoginSession, SessionCodec, Surroundings, Translate, get_sessions, detect_os_from_ua,
}
use pwdnow_password_manager.SessionTracker.Sorted.{current, is_newest_first}
use pwdnow_password_manager.SessionTracker.Tracked.{
  Seals, visible, Operation, recording, clearing_others, after, last_login, get_sessions-after,
}

abbrev plain : Translate
plain key fallback count = fallback

-- An iPhone's agent text contains `Mac OS X`.
detect_os_from_ua_iphone :
    detect_os_from_ua plain (text "Mozilla/5.0 (iPhone; CPU iPhone OS 17_0 like Mac OS X)")
    ≡ text "macOS"
unfolding detect_os_from_ua
detect_os_from_ua_iphone = refl

abbrev texts_of : List LoginSession → List (List ℕ)
texts_of [] = []
texts_of (s ∷ ss) =
    s.id
    ∷ (s.timestamp ∷ [])
    ∷ s.device_name
    ∷ s.ip
    ∷ s.user_agent
    ∷ (if s.is_current then 1 ∷ [] else [])
    ∷ texts_of ss

abbrev grouped : List (List ℕ) → List LoginSession
grouped (id ∷ (time ∷ []) ∷ name ∷ ip ∷ agent ∷ mark ∷ rest) =
    record {
      id = id;
      timestamp = time;
      device_name = name;
      ip = ip;
      user_agent = agent;
      is_current = elim mark [ [] ↦ false | _ ↦ true ];
    }
    ∷ grouped rest
grouped _ = []

grouped-texts_of : (ss : List LoginSession) → grouped (texts_of ss) ≡ ss
grouped-texts_of [] = refl
grouped-texts_of (s ∷ ss) = ground (arith, grouped-texts_of ss)

-- Under a key the text is open behind the key's number.
abbrev opened : Option ℕ → List ℕ → Option (List ℕ)
opened key [] = none
opened key (k ∷ value) = if holds key k then some value else none

opened_own : (k : ℕ) (value t : List ℕ) → some (k ∷ value) ≡ some t → opened (some k) t ≡ some value
opened_own k value t e =
    let same : k ∷ value ≡ t = cc in
    subst (λ t. opened (some k) t ≡ some value) same (rw (eq→== k k refl) refl)

opened_other :
    (key : Option ℕ) (k : ℕ) (value t : List ℕ)
    → some (k ∷ value) ≡ some t
    → holds key k ≡ false
    → opened key t ≡ none
opened_other key k value t e other =
    let same : k ∷ value ≡ t = cc in subst (λ t. opened key t ≡ none) same (rw other refl)

abbrev text_codec : SessionCodec
text_codec = record {
  stringify = λ ss. written (texts_of ss);
  parse = λ s. some (grouped (reading [] s));
  parse-stringify = λ ss.
      ap (λ vs. some (grouped vs)) (reading-written (texts_of ss)) ∙ ap some (grouped-texts_of ss);
  seal = λ k value. some (k ∷ value);
  unseal = opened;
  unseal-seal = λ k value t e. opened_own k value t e;
  unseal_other = λ key k value t e other. opened_other key k value t e other;
}

text_codec-Seals : Seals text_codec
text_codec-Seals k value = (k ∷ value, refl)

abbrev at : ℕ → Surroundings
at time = record {
  uuid = time ∷ [];
  now = time;
  agent = text "Mozilla/5.0 (X11; Linux x86_64) Firefox/120.0";
  hostname = text "localhost";
  is_brave = none;
  my_ip = none;
}

-- Logins under two keys and one without a key, then the others cleared.
abbrev two_logins : List Operation
two_logins =
    clearing_others (some 7)
    ∷ recording none (at 20)
    ∷ recording (some 7) (at 30)
    ∷ recording (some 6) (at 10)
    ∷ []

get_sessions-after_example :
    (length (get_sessions text_codec (some 7) none (after plain text_codec two_logins)) ≤ 20)
    × (is_newest_first (get_sessions text_codec (some 7) none (after plain text_codec two_logins))
        ≡ true)
    × (current (get_sessions text_codec (some 7) none (after plain text_codec two_logins))
        ≡ visible (some 7) (last_login plain two_logins))
get_sessions-after_example =
    get_sessions-after plain text_codec two_logins (some 7) text_codec-Seals
