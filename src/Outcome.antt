-- ===== src/Outcome.antt =====
-- What an attempt or a request ends with, and why a request was refused
-- (faceauth-daemon/src/auth/outcome.rs). The development builds' `Sweep` is left out.
pub mod Refusals
use omarchy_faceauth.Prelude.{
  ℕ, Bool, true, false, Option, none, some, List, Text, codes, text_eq, strip_prefix, ◌++◌, F32,
  Duration, ltb, if◌then◌else◌,
}
use omarchy_faceauth.Presence.Watch.{State}

-- The lock screen's probe intervals, in seconds.
pub record Cadence : Type 0 where
  pub ac : F32
  pub performance : F32
  pub balanced : F32
  pub power_saver : F32

pub data Outcome : Type 0 where
  match : (score : Option F32) (frames elapsed_ms : ℕ) → Outcome
  no_match : (score : Option F32) (frames elapsed_ms : ℕ) → Outcome
  no_face : (elapsed_ms : ℕ) → Outcome
  denied : (reason : Text) (elapsed_ms : ℕ) → Outcome
  not_enrolled : Outcome
  error : (message : Text) → Outcome
  probe :
      (face attentive : Bool) (face_px : F32) (scannable likely : Bool) (cadence : Cadence)
      (elapsed_ms : ℕ)
      → Outcome
  pong :
      (version model : Text) (templates : ℕ) (sealed : Bool) (bound : List Text)
      (floors : Option (F32 × F32)) (load_error : Option Text)
      → Outcome
  enrolled : (added total : ℕ) (consistency_min consistency_mean : F32) (path : Text) → Outcome
  deleted : Outcome
  noted : Outcome
  presence_mode :
      (mode : Text) (watching : Bool) (state : Option State) (away_for : Option F32) → Outcome
  cooldown : (seconds : ℕ) → Outcome
  consent_denied : (reason : Text) (elapsed_ms : ℕ) → Outcome
  refused : (reason : Text) (elapsed_ms : ℕ) → Outcome

-- The outcome as an unprivileged caller may see it: without scores.
unfoldable pub redacted : Outcome → Outcome
redacted (match score frames ms) = match none frames ms
redacted (no_match score frames ms) = no_match none frames ms
redacted o = o

-- Why a consent request ended without an approval.
pub data Refusal : Type 0 where
  shaken dismissed : Refusal
  confirm : Text → Refusal
  wrong_password no_answer gone no_window no_nod no_session other_user too_many refused_recently :
      Refusal

-- The `reason` on the wire.
unfoldable pub wire : Refusal → Text
wire shaken = codes "shaken"
wire dismissed = codes "dismissed"
wire (confirm why) = codes "confirm: " ++ why
wire wrong_password = codes "wrong password"
wire no_answer = codes "no answer"
wire gone = codes "requester gone"
wire no_window = codes "the consent window did not open"
wire no_nod = codes "no nod"
wire no_session = codes "no active graphical session to ask in"
wire other_user = codes "another user's request is on screen"
wire too_many = codes "too many requests waiting"
wire refused_recently = codes "refused a moment ago"

-- The `match` on the reasons that are whole words.
plain_reason : Text → Option Refusal
plain_reason reason =
    if text_eq reason (codes "shaken")
    then some shaken
    else if text_eq reason (codes "dismissed")
    then some dismissed
    else if text_eq reason (codes "wrong password")
    then some wrong_password
    else if text_eq reason (codes "no answer")
    then some no_answer
    else if text_eq reason (codes "requester gone")
    then some gone
    else if text_eq reason (codes "the consent window did not open")
    then some no_window
    else if text_eq reason (codes "no nod")
    then some no_nod
    else if text_eq reason (codes "no active graphical session to ask in")
    then some no_session
    else if text_eq reason (codes "another user's request is on screen")
    then some other_user
    else if text_eq reason (codes "too many requests waiting")
    then some too_many
    else if text_eq reason (codes "refused a moment ago")
    then some refused_recently
    else none

-- The refusal a wire `reason` names, if it is one of these.
unfoldable pub parse : Text → Option Refusal
unfolding plain_reason
parse reason = elim (strip_prefix (codes "confirm: ") reason) [
  | some why ↦ some (confirm why)
  | none ↦ plain_reason reason
]

-- The user's own no.
unfoldable pub is_explicit_no : Refusal → Bool
is_explicit_no shaken = true
is_explicit_no dismissed = true
is_explicit_no (confirm why) = true
is_explicit_no r = false

unfoldable pub deny_consent : Refusal → ℕ → Outcome
unfolding wire
deny_consent why elapsed_ms = consent_denied (wire why) elapsed_ms

-- Who is asking (consent/requester.rs), as far as a verdict reads it.
pub record CallerInfo : Type 0 where
  pub kill_pid : ℕ
  pub via : Text
  pub requester : Option ℕ

unfoldable pub denied_text : Text → CallerInfo → Text
denied_text why caller =
    why
    ++ (if ltb 0 caller.kill_pid
        then codes " Kill the requester, or dismiss."
        else codes " Dismiss.")

-- The user's no, as the caller's lane can take it.
unfoldable pub refuse : CallerInfo → Refusal → ℕ → Outcome
unfolding wire deny_consent
refuse caller why elapsed_ms =
    if text_eq caller.via (codes "polkit")
    then refused (wire why) elapsed_ms
    else deny_consent why elapsed_ms
