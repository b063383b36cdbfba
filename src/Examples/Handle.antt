-- ===== src/Examples/Handle.antt =====
-- One connection at concrete inputs (faceauth-daemon/src/server/handle.rs, read.rs, presence.rs).
use omarchy_faceauth.Prelude.{
  ℕ, ◌≡◌, ◌≢◌, refl, true, false, none, some, List, [], ◌∷◌, Text, codes, secs, All, arith,
}
use omarchy_faceauth.Prelude.Splits
use omarchy_faceauth.Outcome.{
  Outcome, match, no_face, refuse, refused_recently, consent_denied, noted, presence_mode,
}
use omarchy_faceauth.Outcome
use omarchy_faceauth.Backoff.{said_no}
use omarchy_faceauth.Backoff
use omarchy_faceauth.Consent.State.{Queue, placed, join}
use omarchy_faceauth.Consent.State
use omarchy_faceauth.Presence.Config.{shipped, PresenceConfig, secure, set_presence_mode}
use omarchy_faceauth.Presence.Config
use omarchy_faceauth.Presence.Watch.{present}
use omarchy_faceauth.Server.ProcView.{ok}
use omarchy_faceauth.Server.ProcView
use omarchy_faceauth.Server.Locality.{active_graphical_session}
use omarchy_faceauth.Server.Locality
use omarchy_faceauth.Server.Admit
use omarchy_faceauth.Requester.Proc.{Proc}
use omarchy_faceauth.Server.Read.{Got, byte, interrupted}
use omarchy_faceauth.Server.Request.{Request, Peer}
use omarchy_faceauth.Server.Switch.{Watched, Snapshot, presence_query, is_enrolled}
use omarchy_faceauth.Server.Switch
use omarchy_faceauth.Server.Switch.Allowed.{switched_by_watched}
use omarchy_faceauth.Server.Handle
use omarchy_faceauth.Server.Lanes
use omarchy_faceauth.Server.Request
use omarchy_faceauth.Server.World.{World, Daemon, Authenticator}
use omarchy_faceauth.Server.Handle.{handle, caller_of, finish, consent_lane, answers}
use omarchy_faceauth.Server.Handle.Fine.{IsAllowed}
use omarchy_faceauth.Server.Handle.Allowed.{handle-Fine}
use omarchy_faceauth.Server.Handle.Standing.{no_stands}
use omarchy_faceauth.Examples.Desk.{desk}

abbrev three_rounds : List (ℕ × Got)
three_rounds = (0, byte b'a') ∷ (5, interrupted) ∷ (secs 2, byte 10) ∷ (secs 3, byte b'b') ∷ []

abbrev ann : Text
ann = codes "ann"

abbrev anns_watch : Watched
anns_watch = record {
  config = record shipped { enabled = true; user = ann };
  enrolled = ann ∷ [];
  last =
      some
        (record { state = present; attentive = true; away_for = none; locked_by_presence = false });
}

switched : (presence_query desk.user_uid 0 anns_watch 1000 ann (codes "secure")).0 ≡ 1
unfolding presence_query shipped Config.parse_mode set_presence_mode Switch.presence_mode_change
switched = refl

switches : (presence_query desk.user_uid 0 anns_watch 1000 ann (codes "secure")).0 ≢ 0
switches e = omega (arith, switched)

switched_by_watched_example : is_enrolled (ann ∷ []) ann ≡ true
switched_by_watched_example =
    (switched_by_watched desk.user_uid 0 anns_watch 1000 ann (codes "secure") switches).3

tells :
    (presence_query desk.user_uid 0 anns_watch 1000 ann (codes "query")).1
    ≡ presence_mode (codes "default") true (some present) none
unfolding presence_query shipped Config.mode_name Config.presence_mode
tells = refl

abbrev plain : Request
plain = record {
  user = ann;
  probe = false;
  ping = false;
  enroll = none;
  enroll_pose = none;
  enrol_session = none;
  enrol_watch = false;
  enrol_control = none;
  seconds = none;
  count = none;
  delete_templates = false;
  consent = false;
  consent_password = none;
  consent_dismiss = false;
  consent_ack = false;
  consent_rearm = false;
  consent_passwordless = none;
  consent_token = none;
  context_action = none;
  context_message = none;
  context_cookie = none;
  context_caller_pid = none;
  context_subject_pid = none;
  presence_mode = none;
}

abbrev camera : Authenticator
camera = record {
  ping = λ u. noted;
  probe = λ u. noted;
  authenticate = λ u. match (some 7) 2 1800;
  enroll = λ u l s n p. noted;
  delete = λ u. ok false;
  walk_through = λ u s. noted;
  enrolled_users = ann ∷ [];
}

-- sudo in ann's shell.
abbrev sudo : Proc
sudo = record { exe = λ p. codes "/usr/bin/sudo"; read = λ p what. some (codes "sudo") }

abbrev office : World
office = record {
  own_pid = 500;
  procs = desk;
  lids = none;
  parses = λ t. some plain;
  now = secs 30;
  files = sudo;
  rounds = [];
  pidfd_of = λ pid. some false;
  takes = λ wait. some camera;
  walking = none;
  watched = anns_watch;
  clamp_seconds = λ s. 0;
}

abbrev idle : Daemon
idle = record {
  consent = record { live = none; waiting = []; next_id = 0 };
  refusals = [];
  contexts = [];
  mode = 0;
  control = [];
}

abbrev lock_screen : Peer
lock_screen = record { uid = 1000; pid = 40; pidfd = some (false, none) }

look_answered : (handle office idle lock_screen (some (some []))).next ≡ answers (match none 2 1800)
unfolding handle Admit.is_own_pid Handle.gate Admit.may_ask Locality.locality_with
    Locality.locality_of Locality.judge Locality.climb ProcView.is_ssh_comm Splits.trim
    ProcView.cgroup_path Splits.lines Splits.after_first Locality.place Locality.in_session
    ProcView.session_id_from_cgroup Splits.split Splits.strip_suffix Handle.lanes Request.is_answer
    Handle.later_lanes Handle.attempt_lane Lanes.look_lane Admit.admit_plain_look Outcome.redacted
look_answered = refl

handle-Fine_example :
    All (IsAllowed office lock_screen) (handle office idle lock_screen (some (some []))).acts
handle-Fine_example = (handle-Fine office idle lock_screen (some (some []))).acts

abbrev elevation : Request
elevation = record plain { consent = true }

abbrev dismissed : Outcome
dismissed = consent_denied (codes "dismissed") 900

foreground : active_graphical_session desk 1000 ≡ true
unfolding active_graphical_session Splits.words
foreground = refl

no_stands_example :
    (consent_lane office
      (finish idle lock_screen 1000 (secs 10) dismissed).0
      lock_screen
      elevation
      none).next
    ≡ answers (
        refuse
          (caller_of office (finish idle lock_screen 1000 (secs 10) dismissed).0 40 1000 none).1
          refused_recently
          0)
unfolding said_no join finish Backoff.is_explicit_no State.drop_turn
no_stands_example =
    (no_stands office idle lock_screen lock_screen elevation none 1000 (secs 10) dismissed _
      (record { id = 0; uid = 1000 }) tt refl refl foreground refl (omega arith) (omega arith)).0
