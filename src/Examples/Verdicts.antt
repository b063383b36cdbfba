-- ===== src/Examples/Verdicts.antt =====
-- Verdicts on a consent request at concrete inputs (faceauth-daemon/src/auth/consent_flow.rs).
use omarchy_faceauth.Prelude.{◌≡◌, refl, true, false, none, some, [], ◌∷◌, codes}
use omarchy_faceauth.Outcome.{Outcome, match, CallerInfo}
use omarchy_faceauth.Consent.State.{Queue}
use omarchy_faceauth.Verdict.{
  nodded, Met, met, live, Turn, finish, hook, waited, scanned, turn, is_match, verdict,
  consent_finish,
}
use omarchy_faceauth.Verdict.Turns.{IsApproval}
use omarchy_faceauth.Verdict.Approved.{finish-Approved}

abbrev sudo : CallerInfo
sudo = record { kill_pid = 12; via = codes "sudo"; requester = none }

-- ann nods at a card on which ten minutes of passwordless sudo were armed and shown.
abbrev nods : Met
nods = record {
  score = none;
  frames = 9;
  shown = true;
  riders = true ∷ [];
  gesture = nodded;
  confirm = live;
  nod_frames = none;
}

abbrev nod_turn : Turn
nod_turn = record {
  ms = 900;
  answered = false;
  watched = true;
  away = false;
  hold = none;
  held = none;
  locked = false;
  scan = met nods;
  charged = none;
  attention = none;
}

abbrev granted : Outcome
granted = match none 9 900

abbrev card : Queue
card = record {
  live = some (record {
    uid = 1000;
    user = codes "ann";
    token = 7 ∷ [];
    acked = true;
    answer = none;
    rider = record { lane = some true; face_present = true; minutes = some 10; shown = true };
    requester = none;
  });
  waiting = [];
  next_id = 1;
}

nod_run : turn nod_turn sudo ≡ some (finish (some nodded) granted)
unfolding turn scanned hook waited
nod_run = refl

approves :
    is_match
      (consent_finish sudo
        (codes "pacman -Syu")
        (λ pw. false)
        950
        card
        (codes "ann")
        (7 ∷ [])
        (some nodded)
        granted).0
    ≡ true
unfolding consent_finish verdict
approves = refl

finish-Approved_example : IsApproval (λ pw. false) nod_turn (some nodded)
finish-Approved_example =
    (finish-Approved sudo (codes "pacman -Syu") (codes "ann") (λ pw. false) 950 card (7 ∷ [])
        nod_turn (some nodded) granted nod_run).0
      approves
