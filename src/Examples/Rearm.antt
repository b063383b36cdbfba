-- ===== src/Examples/Rearm.antt =====
-- The waits between rounds at concrete inputs (faceauth-daemon/src/auth/rearm.rs).
use omarchy_faceauth.Prelude.{
  ◌≡◌, ◌≢◌, ◌⊎◌, refl, inl, inr, true, false, none, some, [], ◌∷◌, secs, arith,
}
use omarchy_faceauth.Presence.Config.{default_mode}
use omarchy_faceauth.Presence.Watch.{Observation}
use omarchy_faceauth.Rearm.Gate.{new, look, arm}
use omarchy_faceauth.Rearm.Wait.{
  Round, HoldRound, Waiting, nothing, quiet, face_lost, attention_wait, hold_wait,
}
use omarchy_faceauth.Rearm.Arming.{Fed, feed, Any, arm_after_away}
use omarchy_faceauth.Rearm.Clock.{stranger_times_out, hold_no_loss, IsUnconfirmed, IsLooked}

abbrev nobody : Fed
nobody = record { face = false; attentive = false; identity = none }

abbrev back : Fed
back = record { face = true; attentive = true; identity = some true }

arms_when_back :
    (look (feed (new true default_mode) (nobody ∷ [])) back.face back.attentive back.identity).1
    ≡ arm
unfolding look feed new
arms_when_back = refl

arm_after_away_example : (true ≡ false) ⊎ Any (nobody ∷ [])
arm_after_away_example = (arm_after_away true default_mode (nobody ∷ []) back arms_when_back).3

-- A stranger's face, turned to the screen.
abbrev stranger_seen : Observation (Unit {0})
stranger_seen = record {
  face = true;
  attentive = true;
  frame = none;
  bbox = none;
  identity = some false;
  near_miss = false;
}

abbrev late_round : Round (Unit {0})
late_round = record {
  polled = nothing;
  locked = false;
  before = secs 25;
  first_look = λ b. some stranger_seen;
  second_look = some stranger_seen;
  after = secs 26;
}

late_round-IsUnconfirmed : IsUnconfirmed late_round
late_round-IsUnconfirmed = record { quiet = refl; unlocked = refl; looks = λ b. refl; again = refl }

late_round-IsLooked : IsLooked late_round
late_round-IsLooked = record { first_back = λ b e. cc; second_back = λ e. cc }

-- A round before it, whose look fails.
abbrev failing_round : Round (Unit {0})
failing_round = record late_round { first_look = λ b. none }

failing_round-IsUnconfirmed : IsUnconfirmed failing_round
failing_round-IsUnconfirmed = record {
  quiet = refl;
  unlocked = refl;
  looks = λ b. tt;
  again = refl;
}

abbrev waiting : Waiting
unfolding new
waiting = record { gate = new true default_mode; looks = 0; seen = 0; last_beat = 0; beats = 0 }

stranger_times_out_example :
    (w : Waiting) × (attention_wait waiting (some (secs 20)) (failing_round ∷ late_round ∷ [])
      ≡ some (face_lost, w))
unfolding new
stranger_times_out_example =
    stranger_times_out waiting (secs 20) (failing_round ∷ late_round ∷ [])
      (failing_round-IsUnconfirmed, (late_round-IsUnconfirmed, tt))
      (inr (inl (late_round-IsLooked, omega arith)))

abbrev hold_round : HoldRound (Unit {0})
hold_round = record {
  start = 0;
  slept = quiet;
  before = secs 1;
  look_taken = λ b. some stranger_seen;
  after = secs 2;
}

hold_no_loss_example : hold_wait (secs 30) 0 0 none (hold_round ∷ []) ≢ some face_lost
hold_no_loss_example = hold_no_loss (secs 30) 0 0 (hold_round ∷ [])
