-- ===== src/Examples/Refusing.antt =====
-- Refusals, their wire strings, standing refusals and holds at concrete inputs
-- (faceauth-daemon/src/auth/outcome.rs, auth/cooldown.rs and server/backoff.rs).
use omarchy_faceauth.Prelude.{◌≤◌, ◌≡◌, refl, none, some, List, [], ◌∷◌, codes, secs, arith}
use omarchy_faceauth.Outcome.{CallerInfo}
use omarchy_faceauth.Backoff.{new, refuse, standing, Refusals, refusal_standing, entry}
use omarchy_faceauth.Backoff.Escalation.{standing-refuse, refuse_bounds, quiet_forgets}
use omarchy_faceauth.Backoff.Table.{refusal_standing-answer, answer}
use omarchy_faceauth.Cooldown.{Strikes, charge, hold}
use omarchy_faceauth.Cooldown.Holds.{hold_stands, fifth_failure_holds}
use omarchy_faceauth.Cooldown.Rate.{fails, asks, Event}

standing-refuse_example : standing (refuse new 0).0 (secs 20) ≡ some (secs 40)
unfolding refuse new
standing-refuse_example = standing-refuse new 0 (secs 20) (omega arith)

refuse_bounds_example : (secs 60 ≤ (refuse new 5).1) × ((refuse new 5).1 ≤ secs 480)
refuse_bounds_example = refuse_bounds new 5

quiet_forgets_example : (refuse (refuse new 0).0 (secs 700)).1 ≡ secs 60
unfolding refuse
quiet_forgets_example = quiet_forgets (refuse new 0).0 0 (secs 700) refl (omega arith)

abbrev desktop : CallerInfo
desktop = record { kill_pid = 42; via = codes "polkit"; requester = none }

abbrev no_refusals : Refusals
no_refusals = []

refusal_standing-answer_example :
    (refusal_standing no_refusals 1000 0).1 ≡ answer (entry no_refusals 1000) 0
refusal_standing-answer_example = refusal_standing-answer no_refusals 1000 0 tt

-- A hold of a minute that began at nought, after one served.
abbrev held_once : Strikes
held_once = record { times = []; last = some 0; until = some (secs 30); holds = 0 }

hold_stands_example :
    hold (hold held_once (secs 10)).0 (secs 20) ≡ ((hold held_once (secs 10)).0, some (secs 10))
unfolding hold
hold_stands_example =
    hold_stands held_once (secs 10) (secs 20) (secs 20) refl (omega arith) (omega arith)

abbrev four_misses : Strikes
four_misses = record { times = 1 ∷ 2 ∷ 3 ∷ 4 ∷ []; last = some 4; until = none; holds = 0 }

fifth_failure_holds_example : (hold (charge four_misses 5) 5).1 ≡ some (secs 30)
fifth_failure_holds_example = fifth_failure_holds four_misses 5 refl refl

abbrev some_misses : List Event
some_misses = fails 1 ∷ asks 2 ∷ fails 3 ∷ asks 4 ∷ []
