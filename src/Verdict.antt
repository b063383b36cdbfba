-- ===== src/Verdict.antt =====
-- What a consent request makes of a scan and of a gesture (faceauth-daemon/src/auth/consent_flow.rs,
-- `consent_round` and `consent_finish`). What the camera, the gesture detectors, the window and the
-- system's password check answer is read from a `Turn` or an argument. Windows, notices and the log
-- are left out.
pub mod Turns
pub mod Approved
use omarchy_faceauth.Prelude.{
  ℕ, Bool, true, false, not, ◌&&◌, Option, none, some, List, [], ◌∷◌, Text, codes, F32, Duration,
  is_some, if◌then◌else◌,
}
use omarchy_faceauth.Outcome.{
  Outcome, match, error, consent_denied, deny_consent, refuse, CallerInfo, wrong_password,
  no_answer, no_nod,
}
use omarchy_faceauth.Outcome
use omarchy_faceauth.Consent.Token.{Token}
use omarchy_faceauth.Consent.State.{Answer, Queue}
use omarchy_faceauth.Consent.State
use omarchy_faceauth.Consent.Card.{take_passwordless}
use omarchy_faceauth.Passwordless.{is_passwordless_command}
use omarchy_faceauth.Server.Rounds.{Round, ended}

pub data Gesture : Type 0 where
  nodded shaken : Gesture
  password : Text → Gesture
  dismissed gone timeout face_lost confirm_unclear : Gesture
  confirm_failed : Text → Gesture
  no_window rider_armed session_locked moved : Gesture

-- What the check of the face after the nods finds.
pub data Confirm : Type 0 where
  live no_signal : Confirm
  refused : Text → Confirm

-- A face that matched, and the nods after it: whether the window answered, whether it did again for
-- each rider armed meanwhile, the gesture that ended them, the confirm, and what was wrong with the
-- frames of the nods, if anything.
pub record Met : Type 0 where
  pub score : Option F32
  pub frames : ℕ
  pub shown : Bool
  pub riders : List Bool
  pub gesture : Gesture
  pub confirm : Confirm
  pub nod_frames : Option Text

-- How a scan ends.
pub data Scan : Type 0 where
  met : Met → Scan
  no_face : Scan
  no_match : (score : Option F32) (frames : ℕ) → Scan
  denied : Text → Scan
  answered : Answer → Scan
  failed : Text → Scan

-- The nods, begun again at every rider.
unfoldable pub waited : List Bool → Gesture → Gesture
waited [] g = g
waited (shown ∷ riders) g = let rest = waited riders g in if shown then rest else no_window

-- A nod counts once the face is confirmed, and the frames of the nods with it.
abbrev pub after_nods : Confirm → Option Text → Gesture
after_nods live none = nodded
after_nods live (some why) = confirm_failed why
after_nods no_signal wrong = confirm_unclear
after_nods (refused why) wrong = confirm_failed why

abbrev pub confirmed : Confirm → Option Text → Gesture → Gesture
confirmed c wrong nodded = after_nods c wrong
confirmed c wrong g = g

unfoldable pub hook : Met → Gesture
unfolding waited
hook m = if m.shown then confirmed m.confirm m.nod_frames (waited m.riders m.gesture) else no_window

abbrev pub is_ok : Gesture → Bool
is_ok nodded = true
is_ok (password pw) = true
is_ok g = false

abbrev pub gesture_of : Answer → Gesture
gesture_of (Answer.password pw) = password pw
gesture_of Answer.dismiss = dismissed
gesture_of Answer.gone = gone
gesture_of Answer.rearm = gone

-- The gesture and the outcome that a scan ends with, after so many milliseconds.
unfoldable pub scanned : Scan → ℕ → Option Gesture × Outcome
unfolding hook
scanned (met m) ms =
    (some (hook m), if is_ok (hook m) then match m.score m.frames ms else deny_consent no_nod ms)
scanned no_face ms = (none, Outcome.no_face ms)
scanned (no_match score frames) ms = (none, Outcome.no_match score frames ms)
scanned (denied why) ms = (none, Outcome.denied why ms)
scanned (answered a) ms = (some (gesture_of a), Outcome.no_face ms)
scanned (failed why) ms = (none, error why)

-- What a turn of the round reads.
pub record Turn : Type 0 where
  pub ms : ℕ
  pub answered : Bool
  -- The away time of the watch, if there is one, and whether it has passed.
  pub watched : Bool
  pub away : Bool
  pub hold : Option Duration
  pub held : Option Round
  pub locked : Bool
  pub scan : Scan
  pub charged : Option Duration
  pub attention : Option Round

-- How a turn ends the round.
pub data Ending : Type 0 where
  round : Round → Ending
  finish : Option Gesture → Outcome → Ending

-- A wait that ends the round, or the next turn.
abbrev pub waits : Option Round → Option Ending
waits none = none
waits (some r) = some (round r)

-- After a scan that did not accept the face: a hold at once, or a wait.
abbrev pub missed : Turn → Option Ending
missed t = if is_some t.charged then none else waits t.attention

abbrev pub unmet : Turn → Outcome → Option Ending
unmet t (Outcome.no_face ms) = if t.watched then some (round Round.face_lost) else waits t.attention
unmet t (Outcome.no_match score frames ms) = missed t
unmet t (Outcome.denied why ms) = missed t
unmet t o = some (finish none o)

abbrev pub judge : Turn → CallerInfo → Option Gesture → Outcome → Option Ending
judge t caller (some gone) o = some (round (ended (deny_consent Outcome.gone t.ms)))
judge t caller (some no_window) o = some (round (ended (deny_consent Outcome.no_window t.ms)))
judge t caller (some face_lost) o = some (round Round.face_lost)
judge t caller (some session_locked) o = some (round Round.session_locked)
judge t caller (some moved) o = none
judge t caller (some confirm_unclear) o = waits t.attention
judge t caller (some (confirm_failed why)) o =
    some (finish (some (confirm_failed why)) (refuse caller (Outcome.confirm why) t.ms))
judge t caller (some timeout) o = waits t.attention
judge t caller none o = unmet t o
judge t caller (some g) o = some (finish (some g) o)

-- A turn of the round: none where it goes round again.
unfoldable pub turn : Turn → CallerInfo → Option Ending
unfolding scanned
turn t caller =
    if t.watched && not t.answered && t.away
    then some (round Round.face_lost)
    else if is_some t.hold && not t.answered
    then waits t.held
    else if t.locked
    then some (round Round.session_locked)
    else judge t caller (scanned t.scan t.ms).0 (scanned t.scan t.ms).1

abbrev pub elapsed_of : Outcome → ℕ
elapsed_of (match score frames ms) = ms
elapsed_of (Outcome.no_match score frames ms) = ms
elapsed_of (Outcome.no_face ms) = ms
elapsed_of (Outcome.denied why ms) = ms
elapsed_of (consent_denied why ms) = ms
elapsed_of (Outcome.refused why ms) = ms
elapsed_of o = 0

abbrev pub password_ok : (Text → Bool) → Option Gesture → Bool
password_ok pam (some (password pw)) = pam pw
password_ok pam g = false

-- A gesture and an outcome as the verdict, before a good password.
abbrev pub weighed : CallerInfo → Bool → Option Gesture → Outcome → Outcome
weighed caller good (some timeout) (match score frames ms) = deny_consent no_answer ms
weighed caller good (some dismissed) o = refuse caller Outcome.dismissed (elapsed_of o)
weighed caller good (some shaken) o = refuse caller Outcome.shaken (elapsed_of o)
weighed caller good (some (password pw)) o =
    if good then o else deny_consent wrong_password (elapsed_of o)
weighed caller good g o = o

-- `pam` is the system's check of the user's password, and 1065353216 the float 1.0.
unfoldable pub verdict : CallerInfo → (Text → Bool) → ℕ → Option Gesture → Outcome → Outcome
verdict caller pam ms g o =
    if password_ok pam g then match (some 1065353216) 0 ms else weighed caller false g o

abbrev pub is_match : Outcome → Bool
is_match (match score frames ms) = true
is_match o = false

-- `consent_finish`: the verdict, the queue with the rider taken, and the minutes of passwordless sudo
-- that it turns on.
unfoldable pub consent_finish :
    CallerInfo
    → Text
    → (Text → Bool)
    → ℕ
    → Queue
    → Text
    → Token
    → Option Gesture
    → Outcome
    → Outcome × Queue × Option ℕ
unfolding verdict
consent_finish caller command pam ms q user token g o =
    let v = verdict caller pam ms g o in
    let (q', minutes) = take_passwordless q user token in
    (v, q', if is_match v && not (is_passwordless_command command) then minutes else none)
