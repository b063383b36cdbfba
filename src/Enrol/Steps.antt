-- ===== src/Enrol/Steps.antt =====
-- The walk-through's steps and rounds (faceauth-daemon/src/enrol/steps.rs), without the development
-- builds' recording step. The prompts are left out.
pub mod Walks
use omarchy_faceauth.Prelude.{
  ℕ, ◌+◌, ◌-◌, Bool, true, false, ◌||◌, Option, none, some, List, [], ◌∷◌, Text, codes, text_eq,
  F32, ltb, length, map_or, if◌then◌else◌,
}

-- `HOLD_ZONES` of dot.rs.
abbrev pub hold_zones : List Text
hold_zones =
    codes "centre" ∷ codes "left" ∷ codes "right" ∷ codes "centre" ∷ codes "up" ∷ codes "down" ∷ []

pub record Round : Type 0 where
  pub kind : Text
  pub stored_as : Text
  pub times : ℕ
  pub seconds : F32

abbrev pub round_of : Text → Text → ℕ → F32 → Round
round_of kind stored_as times seconds = record {
  kind = kind;
  stored_as = stored_as;
  times = times;
  seconds = seconds;
}

-- 8.0, 6.0 and 12.0 seconds.
abbrev eight : F32
eight = 1090519040

abbrev six : F32
six = 1086324736

abbrev twelve : F32
twelve = 1094713344

abbrev pub rounds : List Round
rounds =
    round_of (codes "nod") (codes "nod") 2 eight
    ∷ round_of (codes "shake") (codes "shake") 2 eight
    ∷ round_of (codes "glance-right") (codes "aside") 2 six
    ∷ round_of (codes "glance-left") (codes "aside") 2 six
    ∷ round_of (codes "keyboard") (codes "glance") 1 eight
    ∷ round_of (codes "read") (codes "read") 1 twelve
    ∷ round_of (codes "talk") (codes "talk") 1 eight
    ∷ round_of (codes "lean") (codes "lean") 1 eight
    ∷ []

-- The loop of `round_at`, with `n` rounds before this one.
unfoldable pub find_round : List Round → ℕ → ℕ → Option (Round × ℕ)
find_round [] n i = none
find_round (r ∷ rs) n i =
    if ltb i (n + r.times) then some (r, i - n + 1) else find_round rs (n + r.times) i

-- Round `i` of the flat list, and which repeat of it.
unfoldable pub round_at : ℕ → Option (Round × ℕ)
unfolding find_round
round_at i = find_round rounds 0 i

unfoldable pub total : List Round → ℕ
total [] = 0
total (r ∷ rs) = r.times + total rs

unfoldable pub round_count : ℕ
unfolding total
round_count = total rounds

pub data Step : Type 0 where
  welcome centre range path : Step
  hold : ℕ → Step
  verify bridge : Step
  round : ℕ → Step

unfoldable pub next : Step → Option Step
unfolding round_count
next welcome = some centre
next centre = some range
next range = some path
next path = some (hold 0)
next (hold i) = if ltb (i + 1) (length hold_zones) then some (hold (i + 1)) else some verify
next verify = some bridge
next bridge = some (round 0)
next (round i) = if ltb (i + 1) round_count then some (round (i + 1)) else none

abbrev pub start_name : Option Text → Text
start_name name = map_or name (codes "welcome") (λ n. n)

unfoldable pub from_start : Option Text → Step
from_start name =
    let n = start_name name in
    if text_eq n (codes "distance") || text_eq n (codes "centre")
    then centre
    else if text_eq n (codes "range")
    then range
    else if text_eq n (codes "path")
    then path
    else if text_eq n (codes "hold")
    then hold 0
    else if text_eq n (codes "bridge") || text_eq n (codes "gestures")
    then bridge
    else welcome

unfoldable pub last_step : Option Text → Step
unfolding round_count
last_step start =
    let n = start_name start in
    if text_eq n (codes "distance")
      || text_eq n (codes "centre")
      || text_eq n (codes "path")
      || text_eq n (codes "hold")
    then verify
    else round (round_count - 1)
