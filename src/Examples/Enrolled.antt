-- ===== src/Examples/Enrolled.antt =====
-- An enrolment, and the places for connections, at concrete inputs (faceauth-daemon/src/enrol and
-- faceauth-daemon/src/server/serve.rs).
use omarchy_faceauth.Prelude.{◌≡◌, true, false, none, some, [], ◌∷◌, codes, arith}
use omarchy_faceauth.Store.Templates.{GestureCal, no_gesture}
use omarchy_faceauth.Enrol.Recorded.{Recorded, nod, record_rounds, reads_of, any_of, session-reads}
use omarchy_faceauth.Enrol.Session.{
  State, watches, says, ends, calls, claim, is_active, abandon, calls-IsHeld,
}
use omarchy_faceauth.Server.Slots.{accepted, released, dropped, events, IsCounted, events-IsCounted}

-- A session that records one nod on top of an earlier one's.
abbrev tuned : GestureCal
tuned = record no_gesture { nod_reads_to_deg = 24 ∷ 26 ∷ [] }

abbrev one_nod : Recorded
one_nod = record {
  stored_as = codes "nod";
  dyaw = 1;
  dpitch = 9;
  nods = true;
  shakes = false;
  reads_to = some 8;
}

session-reads_example :
    (record_rounds (tuned, []) (one_nod ∷ [])).0.nod_reads_to_deg ≡ reads_of nod (one_nod ∷ [])
unfolding reads_of any_of
session-reads_example = (session-reads tuned (one_nod ∷ [])).0

-- A session that a window watches and steers, and that is abandoned after its end.
abbrev idle : State
idle = record { active = none; watchers = []; control = codes "late" ∷ [] }

calls-IsHeld_example :
    is_active
      (abandon
        (calls
          (watches 4 true ∷ says (codes "continue") ∷ ends (λ w. true) ∷ [])
          (claim idle (codes "ann") 1000)).0
        (calls
          (watches 4 true ∷ says (codes "continue") ∷ ends (λ w. true) ∷ [])
          (claim idle (codes "ann") 1000)).1).0
    ≡ false
calls-IsHeld_example =
    (calls-IsHeld (codes "ann") 1000 idle
      (watches 4 true ∷ says (codes "continue") ∷ ends (λ w. true) ∷ []) (omega arith)).2

-- A connection whose handler gives its place back early and then ends.
events-IsCounted_example : IsCounted (
    events
      (accepted 1 ∷ accepted 2 ∷ released 1 ∷ dropped 1 ∷ [])
      (record { active = 0; slots = [] }))
events-IsCounted_example = events-IsCounted (accepted 1 ∷ accepted 2 ∷ released 1 ∷ dropped 1 ∷ [])
