-- ===== src/Examples/Presence.antt =====
-- The presence watch and the session lock at concrete inputs (faceauth-daemon/src/presence).
use omarchy_faceauth.Prelude.{
  ℕ, ◌+◌, ◌≤◌, ◌≡◌, ◌≢◌, ◌⊎◌, refl, Bool, true, false, none, some, List, [], ◌∷◌, secs, arith,
}
use omarchy_faceauth.Presence.Config.{
  PresenceConfig, obscured_lock_for, AwayTime, default_mode, secure, shipped, away_for,
}
use omarchy_faceauth.Presence.Watch.{
  away, note_recent, resumed as watch_resumed, BBox, Observation, Watch, new, step, partial_holds,
}
use omarchy_faceauth.Presence.Lock.{LockState, adopt}
use omarchy_faceauth.Presence.OpenBound.{
  Event, look, noted, resumes, run, react, vouched, vouched_by, obscured_limit, open_bound,
}
use omarchy_faceauth.Presence.Traces.{Look, after}
use omarchy_faceauth.Presence.Verdict.{stranger_locks, secure_clock}
use omarchy_faceauth.Presence.Unlock.{lock_time_kept}

abbrev Frame : Type 0
Frame = Unit {0}

abbrev same : Frame × BBox → Frame → Bool
same r f = true

abbrev box : BBox
box = (0, 0, 1, 1)

abbrev user_seen : Observation Frame
user_seen = record {
  face = true;
  attentive = true;
  frame = some tt;
  bbox = some box;
  identity = some true;
  near_miss = false;
}

abbrev stranger_seen : Observation Frame
stranger_seen = record user_seen { identity = some false }

abbrev empty_chair : Observation Frame
empty_chair = record {
  face = false;
  attentive = false;
  frame = none;
  bbox = none;
  identity = none;
  near_miss = false;
}

abbrev fresh : Watch Frame
unfolding new shipped
fresh = new shipped

stranger_locks_example : (step same fresh stranger_seen 0 secure).1.state ≡ away
unfolding new shipped
stranger_locks_example = (stranger_locks same fresh stranger_seen 0 refl refl refl refl refl).0

secure_clock_example :
    ((step same fresh user_seen 5 secure).0.last_seen ≡ fresh.last_seen)
    ⊎ (((step same fresh user_seen 5 secure).0.last_seen ≡ some 5)
        × (((user_seen.face ≡ true) × (user_seen.identity ≡ some true))
            ⊎ (partial_holds 5 fresh.last_full (some (secs 120)) ≡ true)))
unfolding new shipped obscured_lock_for
secure_clock_example = secure_clock same fresh user_seen 5

abbrev seen_at : ℕ → Look Frame
seen_at t = record { seen = user_seen; at = t; mode = default_mode }

abbrev empty_at : ℕ → Look Frame
empty_at t = record { seen = empty_chair; at = t; mode = default_mode }

keeps_reference : (after same (new shipped) (seen_at 1 ∷ [])).reference ≡ some (tt, box)
unfolding after step new
keeps_reference = refl

abbrev never_away : PresenceConfig
unfolding shipped
never_away = record shipped { away_seconds = AwayTime.never }

abbrev last_seen_early : Watch Frame
unfolding new shipped
last_seen_early = record fresh { last_seen = some 1 }

late :
    (n : ℕ)
    → 21 ≤ n
    → (((empty_at (secs n)).seen.face ≡ false) × ((empty_at (secs n)).seen.frame ≡ none))
      × ((d : ℕ) × (away_for last_seen_early.cfg default_mode ≡ some d) × (1 + d ≤ secs n))
unfolding new shipped away_for
late n h = ((refl, refl), (secs 20, refl, omega arith))

abbrev day : List (Event Frame)
day = look user_seen (secs 5) secure ∷ noted (secs 9) ∷ resumes (secs 12) true ∷ []

stays_open : (step same (run same (new shipped) day) user_seen (secs 15) secure).0.state ≢ away
unfolding step run new shipped react note_recent watch_resumed
stays_open e = cc

open_bound_example :
    ((step same (run same (new shipped) day) user_seen (secs 15) secure).0.last_seen ≡ none)
    ⊎ (secs 15
        ≤ vouched (vouched_by 0 day) (look user_seen (secs 15) secure) + obscured_limit + secs 20)
unfolding shipped
open_bound_example = open_bound same shipped day user_seen (secs 15) stays_open

abbrev locked_then : LockState
locked_then = record { locked_at = some 5; last_check = none }

lock_time_kept_example : adopt locked_then 9 ≡ (locked_then, 5)
lock_time_kept_example = (lock_time_kept locked_then 5 9 true refl).1
