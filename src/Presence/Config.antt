-- ===== src/Presence/Config.antt =====
-- The `[presence]` configuration and the two modes (faceauth-daemon/src/presence/config.rs).
-- A number of seconds is held as the `Duration` it converts to.
use omarchy_faceauth.Prelude.{
  ℕ, ◌*◌, max, Bool, true, false, ◌&&◌, not, Option, none, some, List, [], ◌∷◌, ◌++◌, Text, codes,
  text_eq, Duration, secs, ltb, leb, ◌==◌, if◌then◌else◌,
}

pub data PresenceMode : Type 0 where
  default_mode secure : PresenceMode

abbrev pub is_secure : PresenceMode → Bool
is_secure secure = true
is_secure default_mode = false

-- A number of seconds, or the word "never".
pub data AwayTime : Type 0 where
  seconds : Duration → AwayTime
  never : AwayTime

-- A number of minutes, or the word "never".
pub data ObscuredFaceLock : Type 0 where
  minutes : ℕ → ObscuredFaceLock
  never : ObscuredFaceLock

pub record PresenceConfig : Type 0 where
  pub enabled : Bool
  pub user : Text
  pub mode : PresenceMode
  pub tick_seconds : Duration
  pub battery_tick_seconds : Duration
  pub away_seconds : AwayTime
  pub secure_away_seconds : Duration
  pub obscured_face_lock : ObscuredFaceLock
  pub secure_obscured_face_lock : ℕ

abbrev pub secure_obscured_lock_minutes : ℕ
secure_obscured_lock_minutes = 2

-- The two ends of SECURE_OBSCURED_LOCK_RANGE.
abbrev pub secure_obscured_lock_lo : ℕ
secure_obscured_lock_lo = 1

abbrev pub secure_obscured_lock_hi : ℕ
secure_obscured_lock_hi = 10

-- `u32::clamp`.
abbrev pub clamp : ℕ → ℕ → ℕ → ℕ
clamp x lo hi = if ltb x lo then lo else if ltb hi x then hi else x

default_away : AwayTime → Option Duration
default_away (seconds s) = some s
default_away AwayTime.never = none

unfoldable pub away_for : PresenceConfig → PresenceMode → Option Duration
unfolding default_away
away_for c secure = some c.secure_away_seconds
away_for c default_mode = default_away c.away_seconds

of_minutes : ℕ → Duration
of_minutes m = secs (m * 60)

default_obscured : ObscuredFaceLock → Option Duration
unfolding of_minutes
default_obscured (minutes m) = some (of_minutes (max m 1))
default_obscured ObscuredFaceLock.never = none

unfoldable pub obscured_lock_for : PresenceConfig → PresenceMode → Option Duration
unfolding default_obscured of_minutes
obscured_lock_for c secure =
    some (
      of_minutes
        (clamp c.secure_obscured_face_lock secure_obscured_lock_lo secure_obscured_lock_hi))
obscured_lock_for c default_mode = default_obscured c.obscured_face_lock

pub data LockWarning : Type 0 where
  secure_outside_range : (given used : ℕ) → LockWarning
  obscured_under_a_minute : LockWarning

abbrev is_zero_minutes : ObscuredFaceLock → Bool
is_zero_minutes (minutes m) = m == 0
is_zero_minutes ObscuredFaceLock.never = false

-- The warnings of the start-up log, by what they name rather than by their wording.
unfoldable pub obscured_lock_warnings : PresenceConfig → List LockWarning
obscured_lock_warnings c =
    let m = c.secure_obscured_face_lock in
    let lo = secure_obscured_lock_lo in
    let hi = secure_obscured_lock_hi in
    (if not (leb lo m && leb m hi) then secure_outside_range m (clamp m lo hi) ∷ [] else [])
    ++ (if is_zero_minutes c.obscured_face_lock then obscured_under_a_minute ∷ [] else [])

-- `PresenceConfig::default`: the shipped values.
unfoldable pub shipped : PresenceConfig
shipped = record {
  enabled = false;
  user = [];
  mode = default_mode;
  tick_seconds = secs 5;
  battery_tick_seconds = secs 10;
  away_seconds = seconds (secs 20);
  secure_away_seconds = secs 20;
  obscured_face_lock = ObscuredFaceLock.never;
  secure_obscured_face_lock = secure_obscured_lock_minutes;
}

unfoldable pub parse_mode : Text → Option PresenceMode
parse_mode s =
    if text_eq s (codes "default")
    then some default_mode
    else if text_eq s (codes "secure")
    then some secure
    else none

unfoldable pub mode_name : PresenceMode → Text
mode_name default_mode = codes "default"
mode_name secure = codes "secure"

-- The atomic byte `MODE`: what `presence_mode` reads of it, and what `set_presence_mode` stores.
unfoldable pub presence_mode : ℕ → PresenceMode
presence_mode byte = if byte == 1 then secure else default_mode

unfoldable pub set_presence_mode : PresenceMode → ℕ
set_presence_mode m = if is_secure m then 1 else 0
