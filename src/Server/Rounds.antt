-- ===== src/Server/Rounds.antt =====
-- A consent request across camera rounds (faceauth-daemon/src/server/rounds.rs, `consent_rounds`).
-- A step is what the request does between two sleeps, or between two takes of the authenticator;
-- what other threads do to the shared records comes between the steps.
pub mod Parking
pub mod Waking
pub mod Sources
use omarchy_faceauth.Prelude.{
  ℕ, ◌+◌, ◌-◌, ◌/◌, Bool, true, false, not, ◌&&◌, Option, none, some, List, [], ◌∷◌, ◌++◌, Text,
  codes, Instant, Duration, secs, leb, ltb, is_some_and, map_or, if◌then◌else◌,
}
use omarchy_faceauth.Outcome.{Outcome, error, no_face, deny_consent}
use omarchy_faceauth.Outcome
use omarchy_faceauth.Presence.Lock.{LockState, How, adopt, lock, resumed}
use omarchy_faceauth.Consent.State.{Answer, Fd, Queue, requester_gone, poll}
use omarchy_faceauth.Consent.State
use omarchy_faceauth.Rearm.Wait.{heartbeat}

-- What one camera round says (auth/consent_flow.rs).
pub data Round : Type 0 where
  ended : Outcome → Round
  face_lost session_locked : Round

-- The gestures that a parked request can end with.
pub data Gesture : Type 0 where
  password : Text → Gesture
  dismissed : Gesture

-- What a step reads: the time, the shared records as it finds them, whether the authenticator is
-- free, and what the authenticator, the lock helper and the compositor answer if they are asked.
pub record Seen : Type 0 where
  pub now : Instant
  pub lock : LockState
  pub consent : Queue
  -- Has the peer of a requester's socket hung up?
  pub peer_gone : Fd → Bool
  pub camera : Bool
  -- `consent_begin`, by whether it opens the window: its error, or a session.
  pub begins : Bool → Option Outcome
  pub round : Round
  pub locked : Bool
  pub helper : Bool
  pub last_match : Option Instant
  pub finishes : Gesture → Outcome → Outcome

-- Where a request is.
pub data Phase : Type 0 where
  starting : (begin_by : Instant) (already_locked : Bool) → Phase
  asking : (started : Instant) (already_locked : Bool) → Phase
  parked : (started lock_time last_beat : Instant) → Phase
  finishing : Gesture → (ms : ℕ) → Phase
  done : Outcome → Phase

-- What a step has others do.
pub data Act : Type 0 where
  begins_session : (window : Bool) → Act
  looks locks adopts tells_locked beats wakes ends_session : Act

-- The acts, the shared records as the step leaves them, and the next phase.
abbrev pub Stepped : Type 0
Stepped = List Act × LockState × Queue × Phase

abbrev pub ms_since : Instant → Instant → ℕ
ms_since started now = (now - started) / 1_000_000

-- Wait for the camera, at most twenty seconds.
unfoldable pub start : Text → Seen → Instant → Bool → Stepped
start user s begin_by already =
    if s.camera
    then (
      begins_session (not already) ∷ [],
      s.lock,
      s.consent,
      map_or (s.begins (not already)) (asking s.now already) done,
    )
    else if requester_gone s.peer_gone s.consent user
    then ([], s.lock, s.consent, done (deny_consent Outcome.gone 0))
    else if ltb begin_by s.now
    then ([], s.lock, s.consent, done (error (codes "busy")))
    else ([], s.lock, s.consent, starting begin_by s.locked)

-- Lock the session, or take over the lock that is there.
unfoldable pub park : Seen → List Act → Instant → Bool → Stepped
park s acts started true =
    let (st, t) = adopt s.lock s.now in (acts ++ adopts ∷ [], st, s.consent, parked started t s.now)
park s acts started false =
    let (st, t) = lock s.lock s.helper s.now in
    (
      acts ++ locks ∷ tells_locked ∷ [],
      st,
      s.consent,
      parked started (map_or t s.now (λ t. t)) s.now,
    )

unfoldable pub after_round : Seen → Instant → Round → Stepped
unfolding park
after_round s started (ended o) = (looks ∷ [], s.lock, s.consent, done o)
after_round s started face_lost = park s (looks ∷ []) started false
after_round s started session_locked = park s (looks ∷ []) started true

-- One round with the camera.
unfoldable pub ask : Text → Seen → Instant → Bool → Stepped
unfolding after_round park
ask user s started already =
    if requester_gone s.peer_gone s.consent user
    then ([], s.lock, s.consent, done (deny_consent Outcome.gone (ms_since started s.now)))
    else if already
    then park s [] started true
    else if s.camera
    then after_round s started s.round
    else ([], s.lock, s.consent, asking started false)

-- No answer from the window: is the user back?
unfoldable pub look_back : Seen → List Act → Queue → Instant → Instant → Instant → Stepped
look_back s acts q started lock_time last_beat =
    let matched = s.camera && is_some_and s.last_match (λ m. ltb lock_time m) in
    let (st, how) = resumed s.lock s.now matched (secs 2) s.locked in
    map_or how (acts, st, q, parked started lock_time last_beat)
      (λ _. (acts ++ wakes ∷ [], st, q, asking started false))

unfoldable pub on_answer :
    Seen → List Act → Queue → Instant → Instant → Instant → Option Answer → Stepped
unfolding look_back
on_answer s acts q started lock_time last_beat none = look_back s acts q started lock_time last_beat
on_answer s acts q started lock_time last_beat (some Answer.rearm) =
    (acts, s.lock, q, parked started lock_time last_beat)
on_answer s acts q started lock_time last_beat (some Answer.gone) =
    (acts, s.lock, q, done (deny_consent Outcome.gone (ms_since started s.now)))
on_answer s acts q started lock_time last_beat (some (Answer.password pw)) =
    (acts, s.lock, q, finishing (password pw) (ms_since started s.now))
on_answer s acts q started lock_time last_beat (some Answer.dismiss) =
    (acts, s.lock, q, finishing dismissed (ms_since started s.now))

-- A round of the wait without the camera.
unfoldable pub wait : Text → Seen → Instant → Instant → Instant → Stepped
unfolding on_answer
wait user s started lock_time last_beat =
    let beat = leb heartbeat (s.now - last_beat) in
    let acts : List Act = if beat then beats ∷ [] else [] in
    let (q, answer) = poll s.peer_gone s.consent user in
    on_answer s acts q started lock_time (if beat then s.now else last_beat) answer

unfoldable pub end : Seen → Gesture → ℕ → Stepped
end s g ms =
    if s.camera
    then (ends_session ∷ [], s.lock, s.consent, done (s.finishes g (no_face ms)))
    else ([], s.lock, s.consent, finishing g ms)

unfoldable pub step : Text → Seen → Phase → Stepped
unfolding start ask wait end
step user s (starting begin_by already) = start user s begin_by already
step user s (asking started already) = ask user s started already
step user s (parked started lock_time last_beat) = wait user s started lock_time last_beat
step user s (finishing g ms) = end s g ms
step user s (done o) = ([], s.lock, s.consent, done o)

-- A request over what its steps read: all its acts, and where it is at the end.
unfoldable pub run : Text → Phase → List Seen → List Act × Phase
unfolding step
run user p [] = ([], p)
run user p (s ∷ seen) =
    let (acts, st, q, p') = step user s p in
    let (later, last) = run user p' seen in (acts ++ later, last)

-- `consent_rounds` from its first line.
unfoldable pub begun : Instant → Bool → Phase
begun now already_locked = starting (now + secs 20) already_locked
