-- ===== src/Pam/Wire.antt =====
-- What a request and an argument line say (pam_faceauth/src/lib.rs).
use mathlib.Core.Path.{subst}
use omarchy_faceauth.Prelude.{
  ◌≤◌, ◌≡◌, refl, ap, ◌∙◌, Bool, true, false, ◌||◌, some, List, [], ◌∷◌, ◌++◌, Text, codes, text_eq,
  append-strip_prefix, secs, arith, if◌then◌else◌,
}
use omarchy_faceauth.Prelude.Chars.{any}
use omarchy_faceauth.Pam.Json.{plain, string, consed, read, string-plain}
use omarchy_faceauth.Pam.Request.{
  Args, parse_word, parse_words, parse_args, default_args, needs_escape, user_key, plain_tail,
  consent_tail, request_line,
}

string-clean :
    (u rest : Text) → any needs_escape u ≡ false → string plain (u ++ b'"' ∷ rest) ≡ some (u, rest)
string-clean [] rest h = refl
string-clean (c ∷ u) rest h =
    string-plain c (u ++ b'"' ∷ rest) (ground arith) (ground arith) (ground arith)
    ∙ ap (consed c) (string-clean u rest (ground arith))

request_parts :
    (user r : Text) (consent : Bool)
    → request_line user consent ≡ some r
    → (any needs_escape user ≡ false)
      × (user_key ++ user ++ (if consent then consent_tail else plain_tail) ≡ r)
unfolding request_line
request_parts user r consent h = ground arith

reads_back :
    (user : Text) (consent : Bool)
    → any needs_escape user ≡ false
    → read (user_key ++ user ++ (if consent then consent_tail else plain_tail))
      ≡ some (user, consent)
reads_back user true clean = rw (string-clean user (codes ",\"consent\":true}\n") clean) refl
reads_back user false clean = rw (string-clean user (codes "}\n") clean) refl

-- Read as JSON, escapes and all, a request is the object of the user it was built for, with consent
-- exactly if it was asked: no name reads as another name or adds a field.
pub request-reads_back :
    (user r : Text) (consent : Bool)
    → request_line user consent ≡ some r
    → read r ≡ some (user, consent)
request-reads_back user r consent h =
    let (clean, parts) = request_parts user r consent h in
    subst (λ x. read x ≡ some (user, consent)) parts (reads_back user consent clean)

-- The timeout of a plain look lies between one second and ten minutes, whatever the words say.
parse_word-timeout :
    (a : Args) (s : Text)
    → (secs 1 ≤ a.timeout) × (a.timeout ≤ secs 600)
    → (secs 1 ≤ (parse_word a s).timeout) × ((parse_word a s).timeout ≤ secs 600)
unfolding parse_word
parse_word-timeout a s h = ground arith

parse_words-timeout :
    (a : Args) (ss : List Text)
    → (secs 1 ≤ a.timeout) × (a.timeout ≤ secs 600)
    → (secs 1 ≤ (parse_words a ss).timeout) × ((parse_words a ss).timeout ≤ secs 600)
unfolding parse_words
parse_words-timeout a [] h = h
parse_words-timeout a (s ∷ ss) h =
    parse_words-timeout (parse_word a s) ss (parse_word-timeout a s h)

-- Does one of the words equal "consent"?
abbrev pub says_consent : List Text → Bool
says_consent [] = false
says_consent (s ∷ ss) = text_eq s (codes "consent") || says_consent ss

parse_word-consent :
    (a : Args) (s : Text) → (parse_word a s).consent ≡ (a.consent || text_eq s (codes "consent"))
unfolding parse_word
parse_word-consent a s =
    ground
      (arith, append-strip_prefix (codes "socket=") s, append-strip_prefix (codes "timeout=") s)

parse_words-consent :
    (a : Args) (ss : List Text) → (parse_words a ss).consent ≡ (a.consent || says_consent ss)
unfolding parse_words
parse_words-consent a [] = ground arith
parse_words-consent a (s ∷ ss) =
    ground (arith, parse_words-consent (parse_word a s) ss, parse_word-consent a s)

-- Whatever the words of the PAM line, the timeout lies between one second and ten minutes, and
-- consent is asked exactly when one word is `consent` itself: no other word, misspelt or not,
-- switches it on or off.
pub parse_args_bounds :
    (argv : List Text)
    → (secs 1 ≤ (parse_args argv).timeout)
      × ((parse_args argv).timeout ≤ secs 600)
      × ((parse_args argv).consent ≡ says_consent argv)
unfolding parse_args
parse_args_bounds argv =
    let bounds = parse_words-timeout default_args argv (unfold default_args in omega arith) in
    (bounds.0, bounds.1, parse_words-consent default_args argv)
