-- ===== src/Server/Request.antt =====
-- A request line's fields (faceauth-daemon/src/server/handle.rs), and who sends it. Parsing the
-- line is serde's. A token is held as its bytes.
use omarchy_faceauth.Prelude.{
  ℕ, Bool, ◌||◌, Option, none, some, [], Text, codes, text_eq, Instant, F32, is_some, if◌then◌else◌,
}
use omarchy_faceauth.Consent.Token.{Token}
use omarchy_faceauth.Consent.State.{Answer, password, dismiss, rearm}
use omarchy_faceauth.Server.ProcView.{AgentPeer}

-- Where an enrolment walk-through starts (enrol/stream.rs).
pub record Start : Type 0 where
  pub label : Text
  pub start_at : Option Text

pub record Request : Type 0 where
  pub user : Text
  pub probe : Bool
  pub ping : Bool
  pub enroll : Option Text
  pub enroll_pose : Option Text
  pub enrol_session : Option Start
  pub enrol_watch : Bool
  pub enrol_control : Option Text
  pub seconds : Option F32
  pub count : Option ℕ
  pub delete_templates : Bool
  pub consent : Bool
  pub consent_password : Option Text
  pub consent_dismiss : Bool
  pub consent_ack : Bool
  pub consent_rearm : Bool
  pub consent_passwordless : Option ℕ
  pub consent_token : Option Token
  pub context_action : Option Text
  pub context_message : Option Text
  pub context_cookie : Option Text
  pub context_caller_pid : Option ℕ
  pub context_subject_pid : Option ℕ
  pub presence_mode : Option Text

-- The peer's credentials; its pidfd, if the kernel gives one, with whether its process has exited
-- and the inode that `fstat` reads.
pub record Peer : Type 0 where
  pub uid : ℕ
  pub pid : ℕ
  pub pidfd : Option (Bool × Option ℕ)

abbrev pub exited : Option (Bool × Option ℕ) → Option Bool
exited none = none
exited (some (gone, inode)) = some gone

-- The peer as a kernel fact.
abbrev pub as_agent : ℕ → Option (Bool × Option ℕ) → Option AgentPeer
as_agent pid (some (gone, some inode)) = some (record { pid = pid; id = inode })
as_agent pid (some (gone, none)) = none
as_agent pid none = none

-- Does it answer a pending consent request?
unfoldable pub is_answer : Request → Bool
is_answer r =
    is_some r.consent_password
    || r.consent_dismiss
    || r.consent_ack
    || r.consent_rearm
    || is_some r.consent_passwordless

abbrev pub or_empty : Option Text → Text
or_empty none = []
or_empty (some t) = t

abbrev pub token_text : Option Token → Token
token_text none = []
token_text (some t) = t

unfoldable pub answer_of : Request → Answer
answer_of r =
    if r.consent_dismiss
    then dismiss
    else if r.consent_rearm
    then rearm
    else password (or_empty r.consent_password)

-- What a request is, as the agent heard it from polkitd (consent/requester.rs).
pub record PolkitContext : Type 0 where
  pub action : Text
  pub message : Text
  pub agent : Option AgentPeer
  pub caller_pid : Option ℕ
  pub subject_pid : Option ℕ
  pub at : Instant

-- The words that steer a walk-through.
unfoldable pub is_control_word : Text → Bool
is_control_word w =
    text_eq w (codes "continue") || text_eq w (codes "redo") || text_eq w (codes "cancel")
