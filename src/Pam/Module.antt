-- ===== src/Pam/Module.antt =====
-- The conversation with the daemon and the verdict handed to PAM (pam_faceauth/src/lib.rs).
-- What PAM, the socket and the daemon answer are the inputs of a run.
use omarchy_faceauth.Prelude.{
  Duration, Bool, false, ◌&&◌, ◌||◌, not, Option, none, some, List, Text, ltb, if◌then◌else◌,
}
use omarchy_faceauth.Prelude.Chars.{utf8_len}
use omarchy_faceauth.Pam.Request.{
  Args, parse_args, request_line, is_none_left, Said, match, refused, other, classify,
}

pub data PamCode : Type 0 where
  pam_success pam_auth_err pam_ignore : PamCode

-- The socket as a run finds it, at the path and with the read timeout it is given: whether it connects, whether its peer is root, whether the
-- timeouts can be set, whether the request is written, and the line read, if the read succeeds.
pub record Socket : Type 0 where
  pub connects : Bool
  pub peer_is_root : Bool
  pub timeouts_set : Bool
  pub writes : Bool
  pub reply : Option Text

-- What PAM knows: the user's name (`none`: PAM has none; `some none`: it is not UTF-8), and the
-- remote host, if one is set.
pub record Transaction : Type 0 where
  pub user : Option (Option Text)
  pub rhost : Option Text

abbrev read_reply : Bool → Option Text → Said
read_reply consent none = other
read_reply consent (some line) = classify line consent

-- What answers at a path, read with a timeout; `none` waits without limit.
abbrev pub Dial : Type 0
Dial = Text → Option Duration → Socket

-- A consent request has no deadline.
abbrev pub dialled : Dial → Args → Socket
dialled dial a = dial a.socket (if a.consent then none else some a.timeout)

-- The whole conversation: the request written, if any, and what the daemon said.
unfoldable pub daemon_says : Socket → Text → Bool → Option Text × Said
daemon_says s user consent = elim (request_line user consent) [
  | none ↦ (none, other)
  | some request ↦
      if s.connects && s.peer_is_root && s.timeouts_set && s.writes
      then (some request, read_reply consent s.reply)
      else (none, other)
]

abbrev pub code_of : Said → PamCode
code_of match = pam_success
code_of refused = pam_auth_err
code_of other = pam_ignore

abbrev pub is_remote : Option Text → Bool
is_remote none = false
is_remote (some host) = not (is_none_left host)

unfoldable pub authenticate : Transaction → List Text → Dial → Option Text × PamCode
authenticate t argv dial = elim t.user [
  | none ↦ (none, pam_ignore)
  | some none ↦ (none, pam_ignore)
  | some (some user) ↦
      if is_none_left user || ltb 256 (utf8_len user)
      then (none, pam_ignore)
      else if is_remote t.rhost
      then (none, pam_ignore)
      else let args = parse_args argv in
        let (sent, said) = daemon_says (dialled dial args) user args.consent in (sent, code_of said)
]
