-- ===== src/Presence/Unlock.antt =====
-- What the session lock promises its askers (faceauth-daemon/src/presence/lock.rs).
use mathlib.Core.Path.{subst}
use omarchy_faceauth.Prelude.{
  ◌-◌, ◌≤◌, ◌≡◌, ◌⊎◌, ◌≢◌, Bool, false, Option, none, some, List, [], ◌∷◌, Instant, Duration, arith,
}
use omarchy_faceauth.Presence.Lock.{
  LockState, Begun, ask, adopt, lock, resumed_begin, resumed_end, resumed,
}

-- A recorded lock keeps the time it was first recorded at, through any further lock or adoption;
-- and whatever returns a time has recorded it.
pub lock_time_kept :
    (st : LockState) (t now : Instant) (helper : Bool)
    → st.locked_at ≡ some t
    → (lock st helper now ≡ (st, some t)) × (adopt st now ≡ (st, t))
unfolding lock
lock_time_kept st t now helper e = ground arith

-- What an asker is told agrees with the record it leaves: nothing while the lock stands, which is
-- then unchanged and was not met by a face match, and a way of unlocking exactly when the lock is
-- forgotten.
pub resumed_agrees :
    (st : LockState) (now : Instant) (matched : Bool) (every : Duration) (still : Bool)
    → let (st', how) = resumed st now matched every still in
      ((how ≡ none) × (st'.locked_at ≡ st.locked_at) × (st.locked_at ≢ none) × (matched ≡ false))
      ⊎ ((how ≢ none) × (st'.locked_at ≡ none))
unfolding resumed
resumed_agrees st now matched every still = ground arith

-- One half of a call of `resumed`, or another asker's lock, in the order they take the mutex.
pub data Turn : Type 0 where
  begins : Instant → Bool → Turn
  ends : Bool → Turn
  adopts : Instant → Turn

abbrev asked_at : Instant → Begun → List Instant → List Instant
asked_at now ask ts = now ∷ ts
asked_at now (Begun.answered how) ts = ts

-- The times at which the compositor is asked, in any interleaving of the askers' turns.
unfoldable pub asks : Duration → LockState → List Turn → List Instant
asks every st [] = []
asks every st (begins now matched ∷ ts) =
    let (st', b) = resumed_begin st now matched every in asked_at now b (asks every st' ts)
asks every st (ends still ∷ ts) = asks every (resumed_end st still).0 ts
asks every st (adopts at ∷ ts) = asks every (adopt st at).0 ts

-- Every time is at least `d` after the one before it.
abbrev pub Spaced : Duration → Option Instant → List Instant → Type 0
Spaced d before [] = Unit {0}
Spaced d none (t ∷ ts) = Spaced d (some t) ts
Spaced d (some b) (t ∷ ts) = (d ≤ t - b) × Spaced d (some t) ts

begins-Spaced :
    (every : Duration) (st : LockState) (now : Instant) (matched : Bool) (ts : List Instant)
    → let (st', b) = resumed_begin st now matched every in
      Spaced every st'.last_check ts → Spaced every st.last_check (asked_at now b ts)
unfolding resumed_begin
begins-Spaced every st now matched ts h = ground arith

ends_check : (st : LockState) (still : Bool) → (resumed_end st still).0.last_check ≡ st.last_check
unfolding resumed_end
ends_check st still = ground arith

-- However the askers' turns interleave, two questions to the compositor are never closer than
-- `check_every`, counted from the last check on record.
pub asks-Spaced :
    (every : Duration) (st : LockState) (ts : List Turn)
    → Spaced every st.last_check (asks every st ts)
unfolding asks adopt
asks-Spaced every st [] = tt
asks-Spaced every st (begins now matched ∷ ts) =
    let st' = (resumed_begin st now matched every).0 in
    begins-Spaced every st now matched (asks every st' ts) (asks-Spaced every st' ts)
asks-Spaced every st (ends still ∷ ts) =
    let st' = (resumed_end st still).0 in
    subst (λ c. Spaced every c (asks every st' ts)) (ends_check st still) (asks-Spaced every st' ts)
asks-Spaced every st (adopts at ∷ ts) = asks-Spaced every (adopt st at).0 ts
