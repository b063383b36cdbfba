-- ===== src/Cooldown/Holds.antt =====
-- How long a hold lasts and how holds lengthen (faceauth-daemon/src/auth/cooldown.rs).
use omarchy_faceauth.Prelude.{
  ℕ, zero, suc, ◌+◌, ◌-◌, ◌*◌, ◌^◌, ◌≤◌, ◌<◌, min, ◌≡◌, refl, Bool, Option, none, some, List, [],
  ◌∷◌, ◌++◌, Instant, secs, arith, ltb, length, retain, All, leb, if◌then◌else◌, length-append,
}
use omarchy_faceauth.Cooldown.{
  Strikes, charge, hold, judge, serve, last_or, cooldown_hold, cooldown_window,
  cooldown_max_doublings,
}

abbrev pub option_list {ℓ} : {A : Type ℓ} → Option A → List A
option_list none = []
option_list (some a) = a ∷ []

-- A hold, once told, stands: at every later moment before it ends the same end is told, and the
-- record does not change.
pub hold_stands :
    (s : Strikes) (now later d : ℕ)
    → (hold s now).1 ≡ some d
    → now ≤ later
    → later < now + d
    → hold (hold s now).0 later ≡ ((hold s now).0, some (now + d - later))
unfolding hold
hold_stands s now later d h p q = ground arith

last_or-append : (d t : Instant) (ts : List Instant) → last_or d (ts ++ t ∷ []) ≡ t
unfolding last_or
last_or-append d t [] = refl
last_or-append d t (x ∷ ts) = last_or-append x t ts

retain-last_kept :
    (now t : Instant) (ts : List Instant)
    → now - t < cooldown_window
    → retain (λ u. ltb (now - u) cooldown_window) (ts ++ t ∷ [])
      ≡ retain (λ u. ltb (now - u) cooldown_window) ts ++ t ∷ []
retain-last_kept now t [] h = ground arith
retain-last_kept now t (x ∷ ts) h = ground (arith, retain-last_kept now t ts h)

-- Once a hold has been served, one more failure within ten minutes of the last starts the next
-- hold at once, and it is twice as long, up to sixteen times the first.
pub served_hold_doubles :
    (s : Strikes) (u l ask t : Instant)
    → s.until ≡ some u
    → s.last ≡ some l
    → s.holds < 4294967295
    → u ≤ ask
    → t < l + secs 600
    → ((hold s ask).1 ≡ none)
      × ((hold (charge (hold s ask).0 t) t).1
          ≡ some (cooldown_hold * 2 ^ min (s.holds + 1) cooldown_max_doublings))
unfolding hold charge
served_hold_doubles s u l ask t e f n p q = ground arith

-- Without a hold served, a failure starts one exactly when four failures of the minute before it
-- stand: thirty seconds from that failure, and none otherwise.
pub fifth_failure_holds :
    (s : Strikes) (now : Instant)
    → s.until ≡ none
    → s.holds ≡ 0
    → (hold (charge s now) now).1 ≡ (
        if leb 4 (length (retain (λ t. ltb (now - t) cooldown_window) s.times))
        then some cooldown_hold
        else none)
unfolding hold charge
fifth_failure_holds s now e n =
    let recent = retain (λ t. ltb (now - t) cooldown_window) s.times in
    ground (
      arith,
      retain-last_kept now now s.times,
      last_or-append now now recent,
      length-append {0} recent (now ∷ []),
    )

-- Failures and the end of a hold lie where a clock that reads `now` allows them.
pub record IsTimed (now : Instant) (s : Strikes) : Type 0 where
  pub past : All (λ t. t ≤ now) s.times
  pub bounded : All (λ u. u ≤ now + secs 480) (option_list s.until)

last_or-le :
    (now d : Instant) (ts : List Instant) → d ≤ now → All (λ t. t ≤ now) ts → last_or d ts ≤ now
unfolding last_or
last_or-le now d [] h a = h
last_or-le now d (t ∷ ts) h a = last_or-le now t ts a.0 a.1

All-retain :
    (now : Instant) (p : Instant → Bool) (ts : List Instant)
    → All (λ t. t ≤ now) ts
    → All (λ t. t ≤ now) (retain p ts)
All-retain now p [] a = tt
All-retain now p (t ∷ ts) a = ground (arith, All-retain now p ts a.1)

two-pow_cap : (k : ℕ) → k ≤ 4 → 2 ^ k ≤ 16
two-pow_cap zero h = omega arith
two-pow_cap (suc zero) h = omega arith
two-pow_cap (suc (suc zero)) h = omega arith
two-pow_cap (suc (suc (suc zero))) h = omega arith
two-pow_cap (suc (suc (suc (suc zero)))) h = omega arith
two-pow_cap (suc (suc (suc (suc (suc k))))) h = absurd (omega arith)

judge-IsTimed :
    (s : Strikes) (now : Instant)
    → s.until ≡ none
    → All (λ t. t ≤ now) s.times
    → IsTimed now (judge s now).0 × All (λ d. d ≤ secs 480) (option_list (judge s now).1)
unfolding judge
judge-IsTimed s now e a =
    let recent = retain (λ t. ltb (now - t) cooldown_window) s.times in
    ground (
      arith,
      All-retain now (λ t. ltb (now - t) cooldown_window) s.times a,
      last_or-le now now recent,
      two-pow_cap (min s.holds 4),
    )

All-mono : (a b : ℕ) (ts : List ℕ) → a ≤ b → All (λ t. t ≤ a) ts → All (λ t. t ≤ b) ts
All-mono a b [] h l = tt
All-mono a b (t ∷ ts) h l = (omega arith, All-mono a b ts h l.1)

All-push : (now : ℕ) (ts : List ℕ) → All (λ t. t ≤ now) ts → All (λ t. t ≤ now) (ts ++ now ∷ [])
All-push now [] l = omega arith
All-push now (t ∷ ts) l = (l.0, All-push now ts l.1)

pub charge-IsTimed :
    (s : Strikes) (before now : Instant)
    → before ≤ now
    → IsTimed before s
    → IsTimed now (charge s now)
unfolding charge
charge-IsTimed s before now le h =
    ground (arith, All-push now s.times (All-mono before now s.times le h.past))

pub hold-IsTimed :
    (s : Strikes) (before now : Instant)
    → before ≤ now
    → IsTimed before s
    → IsTimed now (hold s now).0 × All (λ d. d ≤ secs 480) (option_list (hold s now).1)
unfolding hold
hold-IsTimed s before now le h =
    ground (
      arith,
      All-mono before now s.times le h.past,
      judge-IsTimed s now,
      judge-IsTimed (serve s) now,
    )
