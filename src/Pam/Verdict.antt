-- ===== src/Pam/Verdict.antt =====
-- When the module answers yes or no (pam_faceauth/src/lib.rs, `authenticate`).
use omarchy_faceauth.Prelude.{
  ◌≡◌, ◌≢◌, Bool, true, false, Option, none, some, List, Text, arith, starts_with, ap, sym, ◌∙◌,
  ◌&&◌, if◌then◌else◌, inl, inr, Option-cases,
}
use omarchy_faceauth.Prelude.Chars.{trim_start}
use omarchy_faceauth.Pam.Request.{
  parse_args, request_line, match_tag, refused_tag, classify, Said, match, refused, other,
}
use omarchy_faceauth.Pam.Module.{
  pam_success, pam_auth_err, pam_ignore, Socket, Dial, dialled, Transaction, is_remote, code_of,
  daemon_says, authenticate,
}

-- The reply begins with this tag, spaces before it apart.
abbrev pub Begins : Text → Option Text → Type 0
Begins tag none = ⊥
Begins tag (some line) = starts_with tag (trim_start line) ≡ true

verdict_match :
    (m c r : Bool) → (if m then match else if c && r then refused else other) ≡ match → m ≡ true
verdict_match m c r h = ground arith

verdict_refused :
    (m c r : Bool)
    → (if m then match else if c && r then refused else other) ≡ refused
    → (c ≡ true) × (r ≡ true)
verdict_refused m c r h = ground arith

-- The reply, if one was read, was classified so.
abbrev Classified : Said → Bool → Option Text → Type 0
Classified said consent none = ⊥
Classified said consent (some line) = classify line consent ≡ said

Begins-match :
    (consent : Bool) (reply : Option Text) → Classified match consent reply → Begins match_tag reply
unfolding classify
Begins-match consent none h = h
Begins-match consent (some line) h =
    verdict_match (starts_with match_tag (trim_start line)) consent
      (starts_with refused_tag (trim_start line)) h

Begins-refused :
    (consent : Bool) (reply : Option Text)
    → Classified refused consent reply
    → (consent ≡ true) × Begins refused_tag reply
unfolding classify
Begins-refused consent none h = absurd h
Begins-refused consent (some line) h =
    verdict_refused (starts_with match_tag (trim_start line)) consent
      (starts_with refused_tag (trim_start line)) h

says-Classified :
    (s : Socket) (user : Text) (consent : Bool) (said : Said)
    → (daemon_says s user consent).1 ≡ said
    → said ≢ other
    → (s.peer_is_root ≡ true)
      × ((daemon_says s user consent).0 ≡ request_line user consent)
      × ((daemon_says s user consent).0 ≢ none)
      × Classified said consent s.reply
unfolding daemon_says
says-Classified s user consent said h n = ground arith

authenticate_asked :
    (t : Transaction) (argv : List Text) (dial : Dial)
    → (authenticate t argv dial).1 ≢ pam_ignore
    → (user : Text) × (t.user ≡ some (some user))
      × (is_remote t.rhost ≡ false)
      × (authenticate t argv dial ≡ (
        (daemon_says (dialled dial (parse_args argv)) user (parse_args argv).consent).0,
        code_of (daemon_says (dialled dial (parse_args argv)) user (parse_args argv).consent).1,
      ))
unfolding authenticate
authenticate_asked t argv dial h = elim (Option-cases t.user) [
  | inl e ↦ absurd (h (ground arith))
  | inr (none, e) ↦ absurd (h (ground arith))
  | inr (some user, e) ↦ (user, e, ground arith, ground arith)
]

code_match : (said : Said) → code_of said ≡ pam_success → said ≡ match
code_match said h = ground arith

code_refused : (said : Said) → code_of said ≡ pam_auth_err → said ≡ refused
code_refused said h = ground arith

-- PAM is told success only for a local transaction of a user with a UTF-8 name, when the peer at
-- the configured socket runs as root, was sent exactly that user's request and answered with a
-- line that begins with the match tag.
pub success_needs_match :
    (t : Transaction) (argv : List Text) (dial : Dial)
    → (authenticate t argv dial).1 ≡ pam_success
    → (user : Text) × (t.user ≡ some (some user))
      × (is_remote t.rhost ≡ false)
      × ((dialled dial (parse_args argv)).peer_is_root ≡ true)
      × ((authenticate t argv dial).0 ≡ request_line user (parse_args argv).consent)
      × ((authenticate t argv dial).0 ≢ none)
      × Begins match_tag (dialled dial (parse_args argv)).reply
success_needs_match t argv dial h =
    let (user, named, local, e) = authenticate_asked t argv dial (λ k. cc) in
    let consent = (parse_args argv).consent in
    let s = dialled dial (parse_args argv) in
    let said = code_match (daemon_says s user consent).1 (ground (arith, e)) in
    let (root, sent, some_sent, reply) = says-Classified s user consent match said (λ k. cc) in
    (
      user,
      named,
      local,
      root,
      ap (λ p. p.0) e ∙ sent,
      λ k. some_sent (sym (ap (λ p. p.0) e) ∙ k),
      Begins-match consent s.reply reply,
    )

-- PAM is told of a failure only on a consent line, when the peer at the configured socket answered
-- with a line that begins with the refused tag.
pub failure_needs_refusal :
    (t : Transaction) (argv : List Text) (dial : Dial)
    → (authenticate t argv dial).1 ≡ pam_auth_err
    → ((parse_args argv).consent ≡ true) × Begins refused_tag (dialled dial (parse_args argv)).reply
failure_needs_refusal t argv dial h =
    let (user, named, local, e) = authenticate_asked t argv dial (λ k. cc) in
    let consent = (parse_args argv).consent in
    let s = dialled dial (parse_args argv) in
    let said = code_refused (daemon_says s user consent).1 (ground (arith, e)) in
    let (root, sent, some_sent, reply) = says-Classified s user consent refused said (λ k. cc) in
    Begins-refused consent s.reply reply
