-- ===== src/Server/Handle/Standing.antt =====
-- A user's no stands against the next request (faceauth-daemon/src/server/handle.rs).
use omarchy_faceauth.Prelude.{
  ℕ, ◌+◌, ◌-◌, ◌≤◌, ◌<◌, ◌≡◌, refl, true, Option, some, Instant, Duration, arith, ◌∷◌, [],
}
use omarchy_faceauth.Outcome.{Outcome, refuse, refused_recently}
use omarchy_faceauth.Backoff.{said_no, refusal_standing, is_explicit_no}
use omarchy_faceauth.Backoff.Table.{IsUnique, notice_once}
use omarchy_faceauth.Consent.State.{Queue, Place, placed, join, drop_place}
use omarchy_faceauth.Server.ProcView.{AgentPeer}
use omarchy_faceauth.Server.Locality.{active_graphical_session}
use omarchy_faceauth.Server.Request.{Request, Peer}
use omarchy_faceauth.Server.World.{World, Daemon, notifies, releases_slot}
use omarchy_faceauth.Server.Handle.{answers, placed_lane, consent_lane, caller_of, finish}

finish-refusals :
    (d : Daemon) (peer : Peer) (uid : ℕ) (said : Instant) (o : Outcome)
    → is_explicit_no o ≡ true
    → (finish d peer uid said o).0.refusals ≡ (said_no d.refusals uid said).0
unfolding finish
finish-refusals d peer uid said o h = ground arith

placed_lane-standing :
    (w : World) (d : Daemon) (peer : Peer) (r : Request) (uid : ℕ) (agent : Option AgentPeer)
    (q : Queue) (p : Place) (left : Duration)
    → (refusal_standing d.refusals uid w.now).1 ≡ some (left, true)
    → let done = placed_lane w d peer r uid agent q p in
      (done.next ≡ answers (refuse (caller_of w d peer.pid uid agent).1 refused_recently 0))
      × (done.state.consent ≡ drop_place q p)
      × (done.acts ≡ releases_slot ∷ notifies r.user left ∷ [])
unfolding placed_lane
placed_lane-standing w d peer r uid agent q p left h = (ground arith, ground arith, ground arith)

consent_lane-placed :
    (w : World) (d : Daemon) (peer : Peer) (r : Request) (agent : Option AgentPeer) (uid : ℕ)
    (q : Queue) (p : Place)
    → w.procs.user_uid r.user ≡ some uid
    → active_graphical_session w.procs uid ≡ true
    → join d.consent uid ≡ placed q p
    → consent_lane w d peer r agent ≡ placed_lane w d peer r uid agent q p
unfolding consent_lane
consent_lane-placed w d peer r agent uid q p is_user seen joined =
    rw is_user (rw seen (rw joined refl))

-- Once a request has ended in the user's no, the next one of that user that is let into the queue
-- while the refusal stands is answered as that no was, with a notice of it to the user; its place
-- is given back, and no window is asked for.
pub no_stands :
    (w : World) (d : Daemon) (peer asker : Peer) (r : Request) (agent : Option AgentPeer) (uid : ℕ)
    (said : Instant) (o : Outcome) (q : Queue) (p : Place)
    → IsUnique d.refusals
    → is_explicit_no o ≡ true
    → w.procs.user_uid r.user ≡ some uid
    → active_graphical_session w.procs uid ≡ true
    → join (finish d peer uid said o).0.consent uid ≡ placed q p
    → said ≤ w.now
    → w.now < said + (said_no d.refusals uid said).1
    → let done = consent_lane w (finish d peer uid said o).0 asker r agent in
      let left = said + (said_no d.refusals uid said).1 - w.now in
      (done.next
        ≡ answers (
            refuse
              (caller_of w (finish d peer uid said o).0 asker.pid uid agent).1
              refused_recently
              0))
      × (done.state.consent ≡ drop_place q p)
      × (done.acts ≡ releases_slot ∷ notifies r.user left ∷ [])
no_stands w d peer asker r agent uid said o q p unique denied is_user seen joined after before =
    let d' = (finish d peer uid said o).0 in
    let told = (notice_once d.refusals uid said w.now w.now unique after (omega arith) before).0 in
    rw (consent_lane-placed w d' asker r agent uid q p is_user seen joined) (
      placed_lane-standing w d' asker r uid agent q p _
        (rw (finish-refusals d peer uid said o denied) told))
