-- ===== src/Cooldown.antt =====
-- Failed attempts and the holds they earn (faceauth-daemon/src/auth/cooldown.rs, `Strikes`).
pub mod Holds
pub mod Rate
use omarchy_faceauth.Prelude.{
  ℕ, ◌+◌, ◌-◌, ◌*◌, ◌^◌, min, Bool, true, false, ◌&&◌, Option, none, some, List, [], ◌∷◌, ◌++◌,
  Instant, Duration, secs, ltb, leb, if◌then◌else◌, map_or, length, retain,
}

abbrev pub cooldown_failures : ℕ
cooldown_failures = 5

abbrev pub cooldown_window : Duration
cooldown_window = secs 60

abbrev pub cooldown_hold : Duration
cooldown_hold = secs 30

abbrev pub cooldown_max_doublings : ℕ
cooldown_max_doublings = 4

abbrev pub cooldown_quiet : Duration
cooldown_quiet = secs 600

pub record Strikes : Type 0 where
  pub times : List Instant
  pub last : Option Instant
  pub until : Option Instant
  pub holds : ℕ

-- `Strikes::default`.
unfoldable pub new : Strikes
new = record { times = []; last = none; until = none; holds = 0 }

unfoldable pub charge : Strikes → Instant → Strikes
charge s now =
    let quiet = map_or s.last true (λ l. leb cooldown_quiet (now - l)) in
    record s {
      times = s.times ++ now ∷ [];
      last = some now;
      holds = if ltb 0 s.holds && quiet then 0 else s.holds;
    }

-- `times.last().copied().unwrap_or(d)`.
unfoldable pub last_or : Instant → List Instant → Instant
last_or d [] = d
last_or d (t ∷ ts) = last_or t ts

-- A hold that has run out: one more served, counted without wrapping.
unfoldable pub serve : Strikes → Strikes
serve s = record s { times = []; until = none; holds = min (s.holds + 1) 4294967295 }

-- The rest of `hold`, with no hold in force.
unfoldable pub judge : Strikes → Instant → Strikes × Option Duration
unfolding last_or
judge s now =
    let times = retain (λ t. ltb (now - t) cooldown_window) s.times in
    let needed : ℕ = if ltb 0 s.holds then 1 else cooldown_failures in
    let until = last_or now times + cooldown_hold * 2 ^ min s.holds cooldown_max_doublings in
    if ltb (length times) needed
    then (record s { times = times }, none)
    else (record s { times = []; until = some until }, some (until - now))

-- The hold in force, if any.
unfoldable pub hold : Strikes → Instant → Strikes × Option Duration
unfolding serve judge
hold s now = elim s.until [
  | none ↦ judge s now
  | some u ↦ if ltb now u then (s, some (u - now)) else judge (serve s) now
]
