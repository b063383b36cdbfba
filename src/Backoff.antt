-- ===== src/Backoff.antt =====
-- The standing refusal: after the user's no, requests are refused for a while
-- (faceauth-daemon/src/server/backoff.rs). Adding a duration to an instant does not overflow here.
pub mod Escalation
pub mod Table
use omarchy_faceauth.Prelude.{
  ℕ, suc, ◌+◌, ◌-◌, ◌*◌, ◌^◌, min, Bool, true, false, ◌||◌, not, Option, none, some, List, [], ◌∷◌,
  ◌++◌, Instant, Duration, secs, ltb, ◌==◌, if◌then◌else◌, is_some_and, map_or, retain,
}
use omarchy_faceauth.Outcome.{Outcome, refused, consent_denied, Refusal, parse}
use omarchy_faceauth.Outcome

abbrev pub backoff_length : Duration
backoff_length = secs 60

abbrev pub backoff_max_doublings : ℕ
backoff_max_doublings = 3

abbrev pub backoff_quiet : Duration
backoff_quiet = secs 600

pub record Backoff : Type 0 where
  pub until : Option Instant
  pub last : Option Instant
  pub level : ℕ
  pub notified : Bool

unfoldable pub new : Backoff
new = record { until = none; last = none; level = 0; notified = false }

-- Was the last no said within the quiet time?
abbrev pub is_recent : Backoff → Instant → Bool
is_recent b now = is_some_and b.last (λ l. ltb (now - l) backoff_quiet)

-- The user said no now: how long requests are refused for.
unfoldable pub refuse : Backoff → Instant → Backoff × Duration
refuse b now =
    let level = if is_recent b now then min (b.level + 1) backoff_max_doublings else 0 in
    let length = backoff_length * 2 ^ level in
    (
      record { until = some (now + length); last = some now; level = level; notified = false },
      length,
    )

abbrev pub is_standing : Backoff → Instant → Bool
is_standing b now = is_some_and b.until (λ u. ltb now u)

-- How much longer the refusal stands, if it does.
unfoldable pub standing : Backoff → Instant → Option Duration
standing b now = map_or b.until none (λ u. if ltb now u then some (u - now) else none)

-- The users' standing refusals, `REFUSALS`.
abbrev pub Refusals : Type 0
Refusals = List (ℕ × Backoff)

abbrev pub is_kept : Instant → ℕ × Backoff → Bool
is_kept now (uid, b) = is_standing b now || is_recent b now

-- `find(|(u, _)| *u == uid)`: the first entry of `uid`.
unfoldable pub entry : Refusals → ℕ → Option Backoff
entry [] uid = none
entry ((u, b) ∷ r) uid = if u == uid then some b else entry r uid

-- The first entry of `uid` is replaced.
unfoldable pub put : ℕ → Backoff → Refusals → Refusals
put uid b [] = []
put uid b ((u, old) ∷ r) = if u == uid then (u, b) ∷ r else (u, old) ∷ put uid b r

-- The refusal standing for `uid` now, and whether this is the first request refused by it.
unfoldable pub refusal_standing : Refusals → ℕ → Instant → Refusals × Option (Duration × Bool)
unfolding standing put entry
refusal_standing r uid now =
    let kept = retain (is_kept now) r in
    elim (entry kept uid) [
      | none ↦ (kept, none)
      | some b ↦ elim (standing b now) [
        | none ↦ (kept, none)
        | some left ↦ (put uid (record b { notified = true }) kept, some (left, not b.notified))
      ]
    ]

-- The user said no to a request of this uid's: start or lengthen the standing refusal.
unfoldable pub said_no : Refusals → ℕ → Instant → Refusals × Duration
unfolding refuse new put entry
said_no r uid now = elim (entry r uid) [
  | some b ↦ let (b', d) = refuse b now in (put uid b' r, d)
  | none ↦ let (b', d) = refuse new now in (r ++ (uid, b') ∷ [], d)
]

abbrev reason_is_no : Option Refusal → Bool
reason_is_no none = false
reason_is_no (some r) = Outcome.is_explicit_no r

-- Was this outcome the user saying no?
unfoldable pub is_explicit_no : Outcome → Bool
unfolding parse Outcome.is_explicit_no
is_explicit_no (refused reason ms) = reason_is_no (parse reason)
is_explicit_no (consent_denied reason ms) = reason_is_no (parse reason)
is_explicit_no o = false
