-- ===== src/Server/Handle.antt =====
-- One connection from its request line to its reply, or to its place in the consent queue
-- (faceauth-daemon/src/server/handle.rs).
pub mod Fine
pub mod Allowed
pub mod Standing
use omarchy_faceauth.Prelude.{
  ℕ, Bool, true, false, ◌&&◌, ◌||◌, not, Option, none, some, List, [], ◌∷◌, ◌++◌, Text, codes,
  Duration, ◌==◌, is_some, is_some_and, map_or, if◌then◌else◌,
}
use omarchy_faceauth.Prelude.Splits.{trim, decimal}
use omarchy_faceauth.Outcome.{
  Outcome, error, noted, redacted, CallerInfo, deny_consent, refuse, Refusal, no_session,
  other_user, too_many, refused_recently, gone,
}
use omarchy_faceauth.Outcome
use omarchy_faceauth.Backoff.{refusal_standing, said_no, is_explicit_no}
use omarchy_faceauth.Consent.State.{
  Queue, Place, NoTurn, Joined, placed, no_place, join, drop_place, drop_turn,
}
use omarchy_faceauth.Consent.State
use omarchy_faceauth.Requester.{clip}
use omarchy_faceauth.Requester.FromPid.{from_pid}
use omarchy_faceauth.Server.ProcView.{AgentPeer}
use omarchy_faceauth.Server.Admit.{lid_closed_in, is_own_pid, may_ask}
use omarchy_faceauth.Server.Locality.{
  Locality, local, remote, locality_with, active_graphical_session,
}
use omarchy_faceauth.Server.Locality.Wording.{why_text}
use omarchy_faceauth.Server.Request.{
  Request, Peer, exited, as_agent, is_answer, PolkitContext, is_control_word, or_empty,
}
use omarchy_faceauth.Server.Answers.{Contexts, answer_lane, push_context}
use omarchy_faceauth.Server.Switch.{presence_query}
use omarchy_faceauth.Server.World.{World, Daemon, Act, notifies, releases_slot}
use omarchy_faceauth.Server.Lanes.{
  Lane, ping_lane, probe_lane, walk_lane, enroll_lane, delete_lane, active_for, look_lane,
}

-- What becomes of the connection: a reply; an error of the socket, without one; its stream handed
-- to the running walk-through; or a place in the consent queue.
pub data Next : Type 0 where
  answers : Outcome → Next
  drops watches : Next
  waits : Place → CallerInfo → Next

pub record Done : Type 0 where
  pub state : Daemon
  pub acts : List Act
  pub next : Next

abbrev pub says : Daemon → Outcome → Done
says d o = record { state = d; acts = []; next = answers o }

abbrev pub errs : Daemon → Text → Done
errs d why = says d (error why)

abbrev pub from_lane : Daemon → Lane → Done
from_lane d (acts, o) = record { state = d; acts = acts; next = answers o }

-- Scores go to root peers only.
abbrev pub for_peer : Peer → Outcome → Outcome
for_peer peer o = if peer.uid == 0 then o else redacted o

pub data Gate : Type 0 where
  refuses : Text → Gate
  lets : Option AgentPeer → Gate

abbrev pub local_only : Text → Text
local_only why = codes "face authentication is local only: " ++ why

by_locality : World → Request → Locality → Gate
by_locality w r (remote why) = refuses (local_only (why_text r.user why))
by_locality w r (local agent) =
    if r.consent && lid_closed_in w.lids then refuses (codes "the lid is closed") else lets agent

-- The checks that every request passes, in their order.
unfoldable pub gate : World → Peer → Request → Gate
unfolding by_locality
gate w peer r =
    if is_some_and (w.procs.user_uid r.user) (λ u. u == 0)
    then refuses (codes "root is never authenticated by face")
    else if not (may_ask peer.uid (w.procs.user_uid r.user))
    then refuses (codes "not permitted")
    else by_locality w r (locality_with w.procs peer.pid (exited peer.pidfd) r.user)

context_of : World → Peer → Request → Text → PolkitContext
context_of w peer r action = record {
  action = clip action;
  message = clip (or_empty r.context_message);
  agent = as_agent peer.pid peer.pidfd;
  caller_pid = r.context_caller_pid;
  subject_pid = r.context_subject_pid;
  at = w.now;
}

unfoldable pub steer_lane : World → Daemon → Peer → Request → Done
unfolding active_for
steer_lane w d peer r =
    if not (peer.uid == 0) && not (active_for w.walking r.user peer.uid)
    then errs d (codes "no enrolment session for you is running")
    else map_or r.enrol_control (record { state = d; acts = []; next = watches })
        (λ word.
          if is_control_word word
          then says (record d { control = d.control ++ word ∷ [] }) noted
          else errs d (codes "unknown control"))

abbrev is_gone : NoTurn → Bool
is_gone NoTurn.gone = true
is_gone _ = false

-- What `join` refuses with, answered.
unfoldable pub no_turn_outcome : NoTurn → Outcome
no_turn_outcome (NoTurn.other_user holder) = deny_consent other_user 0
no_turn_outcome _ = deny_consent too_many 0

abbrev remote_reason : Text → Locality → Option Text
remote_reason user (remote why) = some (why_text user why)
remote_reason user (local agent) = none

-- The requester that polkitd named has to be local too.
unfoldable pub requester_remote : World → Request → CallerInfo → Option Text
requester_remote w r caller =
    map_or caller.requester none
      (λ rp. remote_reason r.user (locality_with w.procs rp (w.pidfd_of rp) r.user))

-- `CallerInfo::from_pid` for a peer: the contexts left, and the caller as a verdict reads it.
unfoldable pub caller_of : World → Daemon → ℕ → ℕ → Option AgentPeer → Contexts × CallerInfo
caller_of w d pid uid agent =
    let (contexts, c) = from_pid w.files w.rounds w.now d.contexts pid uid agent in
    (contexts, record { kill_pid = c.kill_pid; via = c.via; requester = c.requester })

-- A request with a place: the standing refusal, then polkit's requester, then its wait. The place
-- is given back where the request ends.
unfoldable pub placed_lane :
    World → Daemon → Peer → Request → ℕ → Option AgentPeer → Queue → Place → Done
unfolding requester_remote
placed_lane w d peer r uid agent q p =
    let (contexts, caller) = caller_of w d peer.pid uid agent in
    let (refusals, standing) = refusal_standing d.refusals uid w.now in
    let left = record d { consent = drop_place q p; refusals = refusals; contexts = contexts } in
    map_or standing
      (map_or (requester_remote w r caller)
        (record {
          state = record d { consent = q; refusals = refusals; contexts = contexts };
          acts = releases_slot ∷ [];
          next = waits p caller;
        })
        (λ why. record {
          state = left;
          acts = releases_slot ∷ [];
          next = answers (error (local_only why));
        }))
      (λ s. record {
        state = left;
        acts = releases_slot ∷ (if s.1 then notifies r.user s.0 ∷ [] else []);
        next = answers (refuse caller refused_recently 0);
      })

abbrev pub after_join : World → Daemon → Peer → Request → ℕ → Option AgentPeer → Joined → Done
after_join w d peer r uid agent (no_place why) = says d (no_turn_outcome why)
after_join w d peer r uid agent (placed q p) = placed_lane w d peer r uid agent q p

unfoldable pub consent_lane : World → Daemon → Peer → Request → Option AgentPeer → Done
consent_lane w d peer r agent =
    let uid = map_or (w.procs.user_uid r.user) peer.uid (λ u. u) in
    if not (active_graphical_session w.procs uid)
    then says d (deny_consent no_session 0)
    else after_join w d peer r uid agent (join d.consent uid)

-- The last lane: consent, or a plain look.
unfoldable pub attempt_lane : World → Daemon → Peer → Request → Option AgentPeer → Done
attempt_lane w d peer r agent =
    if r.consent
    then consent_lane w d peer r agent
    else let (acts, o) = look_lane w peer r in
      record { state = d; acts = acts; next = answers (for_peer peer o) }

-- The lanes that change templates, watch a walk-through, or look: everything behind `ping`.
unfoldable pub later_lanes : World → Daemon → Peer → Request → Option AgentPeer → Done
later_lanes w d peer r agent =
    if (is_some r.enroll || r.delete_templates) && not (peer.uid == 0)
    then errs d (codes "not permitted: enrolment and deletion require root")
    else map_or r.enrol_session
        (if r.enrol_watch || is_some r.enrol_control
          then steer_lane w d peer r
          else map_or r.enroll
              (if r.delete_templates
                then from_lane d (delete_lane w r)
                else if r.probe
                then from_lane d (probe_lane w r)
                else attempt_lane w d peer r agent)
              (λ label. from_lane d (enroll_lane w r label)))
        (λ start.
          if not (peer.uid == 0)
          then errs d (codes "not permitted: enrolment requires root")
          else from_lane d (walk_lane w r start))

unfoldable pub mode_lane : World → Daemon → Peer → Request → Text → Done
mode_lane w d peer r mode =
    let (byte, o) = presence_query w.procs.user_uid d.mode w.watched peer.uid r.user mode in
    says (record d { mode = byte }) o

unfoldable pub window_lane : Daemon → Request → Done
window_lane d r = let (q, o) = answer_lane d.consent r in says (record d { consent = q }) o

-- What a request that was let in gets.
unfoldable pub lanes : World → Daemon → Peer → Request → Option AgentPeer → Done
unfolding context_of
lanes w d peer r agent =
    map_or r.context_action
      (if is_answer r
        then window_lane d r
        else map_or r.presence_mode
            (if r.ping then from_lane d (ping_lane w r) else later_lanes w d peer r agent)
            (mode_lane w d peer r))
      (λ action.
        says (record d { contexts = push_context peer.uid (context_of w peer r action) d.contexts })
          noted)

abbrev pub behind_gate : World → Daemon → Peer → Request → Gate → Done
behind_gate w d peer r (refuses why) = errs d why
behind_gate w d peer r (lets agent) = lanes w d peer r agent

-- `handle`, up to the place in the queue. `line` is what `read_request` gives: an error, no line,
-- or a line.
unfoldable pub handle : World → Daemon → Peer → Option (Option Text) → Done
handle w d peer line =
    if is_own_pid peer.pid w.own_pid
    then errs d (codes "the daemon does not ask itself")
    else map_or line (record { state = d; acts = []; next = drops })
        (λ read. map_or read (errs d (codes "bad request")) (λ text.
          map_or (w.parses (trim text)) (errs d (codes "bad request"))
            (λ r. behind_gate w d peer r (gate w peer r))))

-- The place lost while waiting: the place is given back, and the answer says why.
unfoldable pub lose_place : Daemon → Place → NoTurn → Daemon × Outcome
lose_place d p why = (
  record d { consent = drop_place d.consent p },
  deny_consent (if is_gone why then gone else other_user) 0,
)

-- The end of a request that had its turn, with what its rounds came to: the user's no starts a
-- standing refusal, and the window is free.
unfoldable pub finish : Daemon → Peer → ℕ → Duration → Outcome → Daemon × Outcome
finish d peer uid now o =
    let refusals = if is_explicit_no o then (said_no d.refusals uid now).0 else d.refusals in
    (record d { consent = drop_turn d.consent; refusals = refusals }, for_peer peer o)
