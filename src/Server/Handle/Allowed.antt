-- ===== src/Server/Handle/Allowed.antt =====
-- Whom a request lets do what (faceauth-daemon/src/server/handle.rs).
use omarchy_faceauth.Prelude.{
  if-cases, map_or-cases, ap, some, ◌∙◌, ℕ, ◌≡◌, ◌≢◌, inl, inr, refl, Bool, true, false, not, ◌&&◌,
  ◌||◌, Option, none, List, [], ◌∷◌, ◌++◌, Text, All, map_or, if◌then◌else◌, is_some, ◌==◌, arith,
  Duration, Bool-cases,
}
use omarchy_faceauth.Prelude.Splits.{trim}
use omarchy_faceauth.Outcome.{Outcome}
use omarchy_faceauth.Backoff.{refusal_standing}
use omarchy_faceauth.Consent.State.{Queue, Place, Joined, placed, no_place, join, drop_place}
use omarchy_faceauth.Consent.Card.{token_matches}
use omarchy_faceauth.Server.ProcView.{AgentPeer}
use omarchy_faceauth.Server.Admit.{is_own_pid, may_ask, admit_plain_look}
use omarchy_faceauth.Server.Locality.{active_graphical_session}
use omarchy_faceauth.Server.Request.{Request, Peer, Start, is_answer, is_control_word}
use omarchy_faceauth.Server.Answers.{answer_lane}
use omarchy_faceauth.Server.World.{World, Daemon, Act, refreshes, notifies, busy_wait, enrol_wait}
use omarchy_faceauth.Server.Lanes.{
  Lane, ping_lane, probe_lane, walk_lane, enroll_lane, delete_lane, active_for, look_lane,
  refresh_if,
}
use omarchy_faceauth.Server.Handle.{
  says, errs, from_lane, Gate, refuses, lets, gate, steer_lane, requester_remote, placed_lane,
  consent_lane, caller_of, attempt_lane, later_lanes, mode_lane, window_lane, lanes, behind_gate,
  handle, after_join,
}
use omarchy_faceauth.Server.Handle.Fine.{Gated, IsAllowed, Sent, Fine, All-append, with_camera-All}

plain-NotRoot : (uid : ℕ) → admit_plain_look uid ≡ none → uid ≢ 0
unfolding admit_plain_look
plain-NotRoot uid h e = ground arith

join-live : (q q' : Queue) (uid : ℕ) (p : Place) → join q uid ≡ placed q' p → q'.live ≡ q.live
unfolding join
join-live q q' uid p h = ground arith

is_root : (uid : ℕ) → (b : Bool) → (b && not (uid == 0)) ≡ false → b ≡ true → uid ≡ 0
is_root uid b h e = ground arith

gate-Gated :
    (w : World) (peer : Peer) (r : Request) (agent : Option AgentPeer)
    → is_own_pid peer.pid w.own_pid ≡ false
    → gate w peer r ≡ lets agent
    → Gated w peer r.user
unfolding gate is_own_pid may_ask
gate-Gated w peer r agent other h = record {
  not_self = ground arith;
  not_root = λ e. ground arith;
  own = ground arith;
  agent = agent;
  here = ground arith;
}

module _ (w : World) (d : Daemon) (peer : Peer) (line : Option (Option Text)) where
  errs-Fine : (why : Text) → Fine w d peer line (errs d why)
  errs-Fine why = record { acts = tt; state = inl refl; window = inl refl }

  -- A lane that writes nothing.
  lane-Fine : (lane : Lane) → All (IsAllowed w peer) lane.0 → Fine w d peer line (from_lane d lane)
  lane-Fine (acts, o) h = record { acts = h; state = inl refl; window = inl refl }

  module _ (r : Request) (sent : Sent w line r) (g : Gated w peer r.user) where
    -- A lane that writes outside the window.
    writes-Fine :
        (d' : Daemon) (o : Outcome)
        → d'.consent.live ≡ d.consent.live
        → Fine w d peer line (says d' o)
    writes-Fine d' o h = record { acts = tt; state = inr (r, sent, g); window = inl h }

    ping_lane-All : All (IsAllowed w peer) (ping_lane w r).0
    unfolding ping_lane
    ping_lane-All = with_camera-All (IsAllowed w peer) w busy_wait _ (λ a. (g, tt))

    probe_lane-All : All (IsAllowed w peer) (probe_lane w r).0
    unfolding probe_lane
    probe_lane-All = with_camera-All (IsAllowed w peer) w busy_wait _ (λ a. (g, tt))

    look_lane-All : All (IsAllowed w peer) (look_lane w peer r).0
    unfolding look_lane admit_plain_look
    look_lane-All =
        map_or-cases (λ (l : Lane). All (IsAllowed w peer) l.0) (admit_plain_look peer.uid) _ _
          (λ e.
            with_camera-All (IsAllowed w peer) w busy_wait _
              (λ a. ((g, plain-NotRoot peer.uid e), tt)))
          (λ why e. tt)

    module _ (root : peer.uid ≡ 0) where
      refreshed :
          (acts : List Act)
          → All (IsAllowed w peer) acts
          → All (IsAllowed w peer) (acts ++ refreshes ∷ [])
      refreshed acts h = All-append (IsAllowed w peer) acts (refreshes ∷ []) h (root, tt)

      walk_lane-All : (start : Start) → All (IsAllowed w peer) (walk_lane w r start).0
      unfolding walk_lane
      walk_lane-All start =
          refreshed _
            (with_camera-All (IsAllowed w peer) w enrol_wait _ (λ a. (root, ((g, root), tt))))

      delete_lane-All : All (IsAllowed w peer) (delete_lane w r).0
      unfolding delete_lane
      delete_lane-All =
          refreshed _ (with_camera-All (IsAllowed w peer) w busy_wait _ (λ a. ((g, root), tt)))

      refresh_if-All :
          (b : Bool) (l : Lane)
          → All (IsAllowed w peer) l.0
          → All (IsAllowed w peer) (refresh_if b l).0
      refresh_if-All true (acts, o) h = refreshed acts h
      refresh_if-All false (acts, o) h = h

      enroll_lane-All : (label : Text) → All (IsAllowed w peer) (enroll_lane w r label).0
      unfolding enroll_lane
      enroll_lane-All label =
          refresh_if-All _ _
            (with_camera-All (IsAllowed w peer) w busy_wait _ (λ a. ((g, root), tt)))

    window_lane-Fine : Fine w d peer line (window_lane d r)
    unfolding window_lane answer_lane
    window_lane-Fine = elim (Bool-cases (token_matches d.consent r.user r.consent_token)) [
      | inl e ↦ record { acts = tt; state = inr (r, sent, g); window = inr (r, sent, e) }
      | inr e ↦ record { acts = tt; state = inr (r, sent, g); window = inl (ground arith) }
    ]

    steer_lane-Fine : Fine w d peer line (steer_lane w d peer r)
    unfolding steer_lane
    steer_lane-Fine =
        if-cases (Fine w d peer line)
          (not (peer.uid == 0) && not (active_for w.walking r.user peer.uid)) _ _ (λ e. errs-Fine _)
          (λ e.
            map_or-cases (Fine w d peer line) r.enrol_control _ _
              (λ e. record { acts = tt; state = inl refl; window = inl refl })
              (λ word e.
                if-cases (Fine w d peer line) (is_control_word word) _ _ (λ e. writes-Fine _ _ refl)
                  (λ e. errs-Fine _)))

    placed_lane-Fine :
        (uid : ℕ) (agent : Option AgentPeer) (q : Queue) (p : Place)
        → q.live ≡ d.consent.live
        → Fine w d peer line (placed_lane w d peer r uid agent q p)
    unfolding placed_lane drop_place
    placed_lane-Fine uid agent q p kept =
        map_or-cases (Fine w d peer line) (refusal_standing d.refusals uid w.now).1 _ _
          (λ e.
            map_or-cases (Fine w d peer line)
              (requester_remote w r (caller_of w d peer.pid uid agent).1) _ _
              (λ e. record {
                acts = ((r.user, g), tt);
                state = inr (r, sent, g);
                window = inl kept;
              })
              (λ why e. record {
                acts = ((r.user, g), tt);
                state = inr (r, sent, g);
                window = inl kept;
              }))
          (λ s e. record {
            acts = ((r.user, g), told s.1 s.0);
            state = inr (r, sent, g);
            window = inl kept;
          })
      where
        told :
            (first : Bool) (left : Duration)
            → All (IsAllowed w peer) (if first then notifies r.user left ∷ [] else [])
        told true left = (g, tt)
        told false left = tt

    after_join-Fine :
        (uid : ℕ) (agent : Option AgentPeer) (j : Joined)
        → join d.consent uid ≡ j
        → Fine w d peer line (after_join w d peer r uid agent j)
    after_join-Fine uid agent (no_place why) h = record {
      acts = tt;
      state = inl refl;
      window = inl refl;
    }
    after_join-Fine uid agent (placed q p) h =
        placed_lane-Fine uid agent q p (join-live d.consent q uid p h)

    consent_lane-Fine :
        (agent : Option AgentPeer) → Fine w d peer line (consent_lane w d peer r agent)
    unfolding consent_lane
    consent_lane-Fine agent =
        let uid = map_or (w.procs.user_uid r.user) peer.uid (λ u. u) in
        if-cases (Fine w d peer line) (not (active_graphical_session w.procs uid)) _ _
          (λ e. record { acts = tt; state = inl refl; window = inl refl })
          (λ e. after_join-Fine uid agent (join d.consent uid) refl)

    attempt_lane-Fine :
        (agent : Option AgentPeer) → Fine w d peer line (attempt_lane w d peer r agent)
    unfolding attempt_lane
    attempt_lane-Fine agent =
        if-cases (Fine w d peer line) r.consent _ _ (λ e. consent_lane-Fine agent)
          (λ e. record { acts = look_lane-All; state = inl refl; window = inl refl })

    later_lanes-Fine :
        (agent : Option AgentPeer) → Fine w d peer line (later_lanes w d peer r agent)
    unfolding later_lanes
    later_lanes-Fine agent =
        if-cases (Fine w d peer line)
          ((is_some r.enroll || r.delete_templates) && not (peer.uid == 0)) _ _ (λ e. errs-Fine _)
          (λ root.
            map_or-cases (Fine w d peer line) r.enrol_session _ _
              (λ e.
                if-cases (Fine w d peer line) (r.enrol_watch || is_some r.enrol_control) _ _
                  (λ e. steer_lane-Fine)
                  (λ e.
                    map_or-cases (Fine w d peer line) r.enroll _ _
                      (λ e.
                        if-cases (Fine w d peer line) r.delete_templates _ _
                          (λ e. lane-Fine _ (delete_lane-All (ground arith)))
                          (λ e.
                            if-cases (Fine w d peer line) r.probe _ _
                              (λ e. lane-Fine _ probe_lane-All) (λ e. attempt_lane-Fine agent)))
                      (λ label e. lane-Fine _ (enroll_lane-All (ground arith) label))))
              (λ start e.
                if-cases (Fine w d peer line) (not (peer.uid == 0)) _ _ (λ e. errs-Fine _)
                  (λ root. lane-Fine _ (walk_lane-All (ground arith) start))))

    lanes-Fine : (agent : Option AgentPeer) → Fine w d peer line (lanes w d peer r agent)
    unfolding lanes mode_lane
    lanes-Fine agent =
        map_or-cases (Fine w d peer line) r.context_action _ _
          (λ e.
            if-cases (Fine w d peer line) (is_answer r) _ _ (λ e. window_lane-Fine)
              (λ e.
                map_or-cases (Fine w d peer line) r.presence_mode _ _
                  (λ e.
                    if-cases (Fine w d peer line) r.ping _ _ (λ e. lane-Fine _ ping_lane-All)
                      (λ e. later_lanes-Fine agent))
                  (λ mode e. writes-Fine _ _ refl)))
          (λ action e. writes-Fine _ _ refl)

  behind_gate-Fine :
      (r : Request) (h : Gate)
      → Sent w line r
      → is_own_pid peer.pid w.own_pid ≡ false
      → gate w peer r ≡ h
      → Fine w d peer line (behind_gate w d peer r h)
  behind_gate-Fine r (refuses why) sent other h = errs-Fine why
  behind_gate-Fine r (lets agent) sent other h =
      lanes-Fine r sent (gate-Gated w peer r agent other h) agent

  -- Whatever a peer sends: the daemon pings, probes, looks, or gives notice of a refusal, only for
  -- a peer that may ask about that user (another process than the daemon, root's or the user's
  -- own, local to the machine, and the user not root); it looks only for a peer that is not root;
  -- it enrols, deletes, walks through an enrolment or rewrites the access list only for root. The
  -- shared state changes only for a peer that may ask about the user its request names, and the
  -- request on screen only for a request that names its user and sends its token.
  pub handle-Fine : Fine w d peer line (handle w d peer line)
  unfolding handle
  handle-Fine =
      if-cases (Fine w d peer line) (is_own_pid peer.pid w.own_pid) _ _ (λ e. errs-Fine _)
        (λ other.
          map_or-cases (Fine w d peer line) line _ _
            (λ e. record { acts = tt; state = inl refl; window = inl refl })
            (λ read e₁.
              map_or-cases (Fine w d peer line) read _ _ (λ e. errs-Fine _)
                (λ text e₂.
                  map_or-cases (Fine w d peer line) (w.parses (trim text)) _ _ (λ e. errs-Fine _)
                    (λ r e₃.
                      behind_gate-Fine r (gate w peer r) (text, e₁ ∙ ap some e₂, e₃) other refl))))
