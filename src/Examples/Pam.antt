-- ===== src/Examples/Pam.antt =====
-- The PAM module at concrete inputs (pam_faceauth/src/lib.rs).
use omarchy_faceauth.Prelude.{◌≡◌, refl, true, false, none, some, List, [], ◌∷◌, ◌++◌, Text, codes}
use omarchy_faceauth.Pam.Request.{
  parse_args, request_line, user_key, consent_tail, match_tag, classify,
}
use omarchy_faceauth.Pam.Module.{
  Transaction, Dial, dialled, authenticate, daemon_says, pam_success, pam_auth_err,
}
use omarchy_faceauth.Pam.Wire.{request-reads_back}
use omarchy_faceauth.Pam.Json.{read}
use omarchy_faceauth.Pam.Verdict.{Begins, success_needs_match}

abbrev for_ann : Transaction
for_ann = record { user = some (some (codes "ann")); rhost = none }

abbrev replies : Text → Dial
replies line path limit = record {
  connects = true;
  peer_is_root = true;
  timeouts_set = true;
  writes = true;
  reply = some line;
}

abbrev says_match : Dial
says_match = replies (codes "{\"result\":\"match\",\"frames\":2}\n")

abbrev says_refused : Dial
says_refused = replies (codes "{\"result\":\"refused\",\"reason\":\"shaken\"}\n")

abbrev consent_line : List Text
consent_line = codes "consent" ∷ []

succeeds : (authenticate for_ann [] says_match).1 ≡ pam_success
unfolding authenticate daemon_says request_line classify parse_args
succeeds = refl

success_needs_match_example : Begins match_tag (dialled says_match (parse_args [])).reply
success_needs_match_example = (success_needs_match for_ann [] says_match succeeds).6

fails : (authenticate for_ann consent_line says_refused).1 ≡ pam_auth_err
unfolding authenticate daemon_says request_line classify parse_args
fails = refl

request-reads_back_example :
    read (user_key ++ codes "ann" ++ consent_tail) ≡ some (codes "ann", true)
unfolding request_line
request-reads_back_example =
    request-reads_back (codes "ann") (user_key ++ codes "ann" ++ consent_tail) true refl

-- An escape in a name would be read as what it spells.
reads_escape : read (codes "{\"user\":\"al\\u0069ce\"}\n") ≡ some (codes "alice", false)
reads_escape = refl

abbrev long_line : List Text
long_line = codes "timeout=9999" ∷ codes "consnet" ∷ []
