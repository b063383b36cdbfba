-- ===== src/Consent/Calls.antt =====
-- Every call that writes the live record, as one step (faceauth-daemon/src/consent/state.rs).
use omarchy_faceauth.Prelude.{◌≡◌, Bool, Option, none, some, Text, arith, ℕ}
use omarchy_faceauth.Consent.Token.{Token}
use omarchy_faceauth.Consent.State.{Answer, Live, Queue, Fd, poll}
use omarchy_faceauth.Consent.Card.{
  take_rearm, answer, ack, set_token, clear_token, reset_ack, arm_passwordless, take_passwordless,
  rider_for_payload, set_face_present,
}

pub data Call : Type 0 where
  answers : Text → Option Token → Answer → Call
  acks : Text → Option Token → Call
  sets clears resets takes : Text → Token → Call
  arms : Text → Token → ℕ → Call
  shows : Text → Token → (sudo mark_shown : Bool) → Call
  follows : Text → Bool → Call
  polls rearms : Text → Call

unfoldable pub apply : (Fd → Bool) → Queue → Call → Queue
apply gone q (answers user tok a) = (answer q user tok a).0
apply gone q (acks user tok) = (ack q user tok).0
apply gone q (sets user tok) = (set_token q user tok).0
apply gone q (clears user tok) = clear_token q user tok
apply gone q (resets user tok) = reset_ack q user tok
apply gone q (takes user tok) = (take_passwordless q user tok).0
apply gone q (arms user tok minutes) = (arm_passwordless q user tok minutes).0
apply gone q (shows user tok sudo mark_shown) = (rider_for_payload q user tok sudo mark_shown).0
apply gone q (follows user present) = (set_face_present q user present).0
apply gone q (polls user) = (poll gone q user).0
apply gone q (rearms user) = (take_rearm q user).0

-- The same request: its user, its uid and its requester.
abbrev pub SameRequest : Option Live → Option Live → Type 0
SameRequest none none = Unit {0}
SameRequest (some l) (some m) = (l.uid ≡ m.uid) × (l.user ≡ m.user) × (l.requester ≡ m.requester)
SameRequest _ _ = ⊥

pub record Keeps (q q' : Queue) : Type 0 where
  pub queue : q'.waiting ≡ q.waiting
  pub ids : q'.next_id ≡ q.next_id
  pub request : SameRequest q.live q'.live

-- No call on the record touches the queue, or puts another request in the window.
pub apply-Keeps : (gone : Fd → Bool) (q : Queue) (c : Call) → Keeps q (apply gone q c)
unfolding apply answer ack set_token clear_token reset_ack take_passwordless arm_passwordless
    rider_for_payload set_face_present poll take_rearm
apply-Keeps gone q (answers user tok a) = ground arith
apply-Keeps gone q _ = ground arith
