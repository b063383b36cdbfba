-- ===== src/Pam/Json.antt =====
-- A reader of the JSON of a request, by the grammar of RFC 8259, which knows nothing of how requests
-- are built (pam_faceauth/src/lib.rs).
use omarchy_faceauth.Prelude.{
  ℕ, zero, suc, ◌≡◌, ap, ◌+◌, ◌-◌, ◌*◌, Bool, true, false, ◌&&◌, ◌||◌, Option, none, some, [], ◌∷◌,
  Text, codes, text_eq, strip_prefix, ltb, leb, ◌==◌, if◌then◌else◌, map_or, arith,
}

-- Within a string: at a character, behind a backslash, or so many hexadecimal digits before the end of
-- a `\u`, with the value of those that came.
pub data Mode : Type 0 where
  plain escaped : Mode
  hex : ℕ → ℕ → Mode

-- What a character does there.
pub data Effect : Type 0 where
  ends broken : Effect
  silent : Mode → Effect
  spells : ℕ → Effect

abbrev pub hex_value : ℕ → Option ℕ
hex_value c =
    if leb 48 c && leb c 57
    then some (c - 48)
    else if leb 65 c && leb c 70
    then some (c - 55)
    else if leb 97 c && leb c 102
    then some (c - 87)
    else none

abbrev pub more_hex : ℕ → ℕ → Effect
more_hex zero v = spells v
more_hex (suc n) v = silent (hex (suc n) v)

-- A `\u` spells its code; the halves of a surrogate pair stay two. No other character below 32 may
-- stand in a string.
abbrev pub effect : Mode → ℕ → Effect
effect plain c =
    if c == b'"'
    then ends
    else if c == b'\\'
    then silent escaped
    else if ltb c 32
    then broken
    else spells c
effect escaped c =
    if c == b'"' || c == b'\\' || c == b'/'
    then spells c
    else if c == b'b'
    then spells 8
    else if c == b'f'
    then spells 12
    else if c == b'n'
    then spells 10
    else if c == b'r'
    then spells 13
    else if c == b't'
    then spells 9
    else if c == b'u'
    then silent (hex 4 0)
    else broken
effect (hex zero v) c = broken
effect (hex (suc n) v) c = map_or (hex_value c) broken (λ d. more_hex n (v * 16 + d))

abbrev pub consed : ℕ → Option (Text × Text) → Option (Text × Text)
consed c none = none
consed c (some (s, rest)) = some (c ∷ s, rest)

-- A string behind its first quote: what it spells, and the text behind its last quote.
abbrev pub string : Mode → Text → Option (Text × Text)
string m [] = none
string m (c ∷ s) = elim (effect m c) [
  | ends ↦ some ([], s)
  | broken ↦ none
  | silent m' ↦ string m' s
  | spells d ↦ consed d (string plain s)
]

-- What stands behind the user: the end, or that consent is asked.
abbrev pub consent_of : Text → Option Bool
consent_of rest =
    if text_eq rest (codes "}\n")
    then some false
    else if text_eq rest (codes ",\"consent\":true}\n")
    then some true
    else none

abbrev pub with_consent : Text → Option Bool → Option (Text × Bool)
with_consent user none = none
with_consent user (some consent) = some (user, consent)

-- An object of a user, and, if it is asked, consent.
abbrev pub read : Text → Option (Text × Bool)
read r =
    map_or (strip_prefix (codes "{\"user\":\"") r) none
      (λ s. map_or (string plain s) none (λ p. with_consent p.0 (consent_of p.1)))

effect-plain :
    (c : ℕ)
    → (c == b'"') ≡ false
    → (c == b'\\') ≡ false
    → ltb c 32 ≡ false
    → effect plain c ≡ spells c
effect-plain c q b l = ground arith

pub string-plain :
    (c : ℕ) (s : Text)
    → (c == b'"') ≡ false
    → (c == b'\\') ≡ false
    → ltb c 32 ≡ false
    → string plain (c ∷ s) ≡ consed c (string plain s)
string-plain c s q b l =
    ap
      (λ (e : Effect). elim e [
        | ends ↦ some ([], s)
        | broken ↦ none
        | silent m' ↦ string m' s
        | spells d ↦ consed d (string plain s)
      ])
      (effect-plain c q b l)
