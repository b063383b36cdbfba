-- ===== src/Pam/Request.antt =====
-- The arguments of the module, the request it sends and the reply it reads
-- (pam_faceauth/src/lib.rs).
use omarchy_faceauth.Prelude.{
  ℕ, Bool, true, false, ◌&&◌, ◌||◌, not, Option, none, some, List, [], ◌∷◌, ◌++◌, Text, codes,
  text_eq, strip_prefix, Duration, secs, ltb, ◌==◌, if◌then◌else◌, retain,
}
use omarchy_faceauth.Prelude.Texts.{starts_with, take}
use omarchy_faceauth.Presence.Config.{clamp}
use omarchy_faceauth.Prelude.Chars.{is_control, utf8_len, trim_start, any, parse_u64}

pub record Args : Type 0 where
  pub socket : Text
  pub timeout : Duration
  pub consent : Bool

abbrev pub default_socket : Text
default_socket = codes "/run/faceauth/sock"

abbrev pub default_timeout : ℕ
default_timeout = 8

-- Names go into the auth log without what could forge a line.
unfoldable pub sanitise : Text → Text
sanitise s = take 64 (retain (λ c. not (is_control c)) s)

unfoldable pub default_args : Args
default_args = record { socket = default_socket; timeout = secs default_timeout; consent = false }

abbrev set_timeout : Args → Option ℕ → Args
set_timeout a none = a
set_timeout a (some t) = record a { timeout = secs (clamp t 1 600) }

-- One word of the PAM line. A word the module does not know changes nothing.
unfoldable pub parse_word : Args → Text → Args
parse_word a s = elim (strip_prefix (codes "socket=") s) [
  | some v ↦ record a { socket = v }
  | none ↦ elim (strip_prefix (codes "timeout=") s) [
    | some v ↦ set_timeout a (parse_u64 v)
    | none ↦ if text_eq s (codes "consent") then record a { consent = true } else a
  ]
]

unfoldable pub parse_words : Args → List Text → Args
parse_words a [] = a
parse_words a (s ∷ ss) = parse_words (parse_word a s) ss

-- The words are those of `argv`, null pointers left out; its log lines are not modelled.
unfoldable pub parse_args : List Text → Args
unfolding parse_words parse_word default_args
parse_args argv = parse_words default_args argv

-- A character that a name in the request may not hold.
abbrev pub needs_escape : ℕ → Bool
needs_escape c = c == b'"' || c == b'\\' || is_control c

abbrev pub user_key : Text
user_key = codes "{\"user\":\""

abbrev pub plain_tail : Text
plain_tail = codes "\"}\n"

abbrev pub consent_tail : Text
consent_tail = codes "\",\"consent\":true}\n"

abbrev pub is_none_left : Text → Bool
is_none_left [] = true
is_none_left (_ ∷ _) = false

-- The only place a request is built.
unfoldable pub request_line : Text → Bool → Option Text
request_line user consent =
    if is_none_left user || ltb 256 (utf8_len user) || any needs_escape user
    then none
    else some (user_key ++ user ++ (if consent then consent_tail else plain_tail))

pub data Said : Type 0 where
  match refused other : Said

abbrev pub match_tag : Text
match_tag = codes "{\"result\":\"match\","

abbrev pub refused_tag : Text
refused_tag = codes "{\"result\":\"refused\","

-- A reply is read by its leading tag only.
unfoldable pub classify : Text → Bool → Said
classify line consent =
    let t = trim_start line in
    if starts_with match_tag t
    then match
    else if consent && starts_with refused_tag t
    then refused
    else other
