-- ===== src/Presence/Lock.antt =====
-- The one record of the session lock (faceauth-daemon/src/presence/lock.rs, `SessionLock`). The
-- lock helper and the compositor are outside the daemon: what they answered is an argument.
use omarchy_faceauth.Prelude.{
  ◌-◌, Bool, true, not, Option, none, some, Instant, Duration, leb, if◌then◌else◌, is_some, map_or,
}

pub record LockState : Type 0 where
  pub locked_at : Option Instant
  pub last_check : Option Instant

-- How a session was seen to unlock.
pub data How : Type 0 where
  elsewhere by_face without_a_face : How

unfoldable pub new : LockState
new = record { locked_at = none; last_check = none }

-- `get_or_insert`.
unfoldable pub adopt : LockState → Instant → LockState × Instant
adopt st at = let t = map_or st.locked_at at (λ t. t) in (record st { locked_at = some t }, t)

-- `lock`: `helper` is whether the lock helper succeeded, `now` the time read after it. `none` is
-- the helper's error.
unfoldable pub lock : LockState → Bool → Instant → LockState × Option Instant
unfolding adopt
lock st helper now = elim st.locked_at [
  | some t ↦ (st, some t)
  | none ↦ let (st', t) = adopt st now in if helper then (st', some t) else (st, none)
]

-- What `resumed` has found out when it lets go of the mutex the first time: an answer, or that
-- the compositor is to be asked.
pub data Begun : Type 0 where
  answered : Option How → Begun
  ask : Begun

unfoldable pub resumed_begin : LockState → Instant → Bool → Duration → LockState × Begun
resumed_begin st now matched check_every =
    if not (is_some st.locked_at)
    then (st, answered (some elsewhere))
    else if matched
    then (record st { locked_at = none }, answered (some by_face))
    else if map_or st.last_check true (λ c. leb check_every (now - c))
    then (record st { last_check = some now }, ask)
    else (st, answered none)

-- The rest, after the compositor has said whether the session is still locked.
unfoldable pub resumed_end : LockState → Bool → LockState × Option How
resumed_end st still_locked =
    if still_locked then (st, none) else (record st { locked_at = none }, some without_a_face)

abbrev pub finish : LockState × Begun → Bool → LockState × Option How
finish (st, answered how) still_locked = (st, how)
finish (st, ask) still_locked = resumed_end st still_locked

-- The whole call, with no other asker between its two halves.
unfoldable pub resumed : LockState → Instant → Bool → Duration → Bool → LockState × Option How
unfolding resumed_begin resumed_end
resumed st now matched check_every still_locked =
    finish (resumed_begin st now matched check_every) still_locked
