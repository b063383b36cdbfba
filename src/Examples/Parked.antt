-- ===== src/Examples/Parked.antt =====
-- A consent request that is parked, at concrete inputs (faceauth-daemon/src/server/rounds.rs).
use omarchy_faceauth.Prelude.{
  ℕ, ◌≡◌, ◌↔◌, ◌⊎◌, refl, Bool, true, false, Option, none, some, List, [], ◌∷◌, Text, codes,
  Instant, secs,
}
use omarchy_faceauth.Outcome.{Outcome, match}
use omarchy_faceauth.Presence.Lock.{LockState, adopt, lock, resumed, resumed_begin}
use omarchy_faceauth.Consent.State.{Queue, no_rider, live_of, requester_gone, poll}
use omarchy_faceauth.Server.Rounds.{
  Seen, asking, parked, done, Round, ended, face_lost, start, park, after_round, ask, look_back,
  on_answer, wait, step, run, begun,
}
use omarchy_faceauth.Server.Rounds.Parking.{Follows, run-Follows}
use omarchy_faceauth.Server.Rounds.Waking.{IsBack, wakes_iff}
use omarchy_faceauth.Server.Rounds.Sources.{IsOwn, Among, run-Among}

abbrev ann : Text
ann = codes "ann"

abbrev on_screen : Queue
on_screen = record {
  live = some (record {
    uid = 1000;
    user = ann;
    token = 7 ∷ [];
    acked = true;
    answer = none;
    rider = no_rider;
    requester = some 4;
  });
  waiting = [];
  next_id = 1;
}

abbrev unlocked : LockState
unlocked = record { locked_at = none; last_check = none }

abbrev granted : Outcome
granted = match none 9 900

-- What a step reads at a time, with the lock found, the round's end and the last match given.
abbrev seen : ℕ → LockState → Round → Option Instant → Bool → Seen
seen at lock round last_match hung_up = record {
  now = secs at;
  lock = lock;
  consent = on_screen;
  peer_gone = λ fd. hung_up;
  camera = true;
  begins = λ window. none;
  round = round;
  locked = false;
  helper = true;
  last_match = last_match;
  finishes = λ g o. o;
}

-- The request begins, loses the face, locks the session at the third second, finds a match of the
-- fifth second there, and is granted in its next round.
abbrev met : List Seen
met =
    seen 1 unlocked face_lost none false
    ∷ seen 3 unlocked face_lost none false
    ∷ seen 6 (record { locked_at = some (secs 3); last_check = none }) face_lost (some (secs 5))
        false
    ∷ seen 7 unlocked (ended granted) (some (secs 5)) false
    ∷ []

run-Follows_example : Follows false (run ann (begun 0 false) met).0 (run ann (begun 0 false) met).1
run-Follows_example = run-Follows ann 0 false met

run-granted : (run ann (begun 0 false) met).1 ≡ done granted
unfolding run step start begun ask after_round park wait on_answer look_back requester_gone live_of
    poll lock adopt resumed resumed_begin
run-granted = refl

run-Among_example : IsOwn granted ⊎ Among granted met
run-Among_example = run-Among ann 0 false met granted run-granted

-- The third step, alone: the user is back by the match.
abbrev third : Seen
third =
    seen 6 (record { locked_at = some (secs 3); last_check = none }) face_lost (some (secs 5)) false

quiet : (poll third.peer_gone third.consent ann).1 ≡ none
unfolding poll live_of
quiet = refl

wakes_iff_example :
    ((step ann third (parked (secs 1) (secs 3) (secs 3))).3 ≡ asking (secs 1) false)
    ↔ IsBack third (secs 3)
wakes_iff_example = (wakes_iff ann third (secs 1) (secs 3) (secs 3) quiet).0
