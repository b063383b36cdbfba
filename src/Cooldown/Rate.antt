-- ===== src/Cooldown/Rate.antt =====
-- What holds over every sequence of failures and questions
-- (faceauth-daemon/src/auth/cooldown.rs and the callers in auth/attempt.rs).
use omarchy_faceauth.Prelude.{
  ℕ, suc, ◌+◌, ◌-◌, ◌≤◌, ◌<◌, ◌≡◌, refl, Option, none, List, [], ◌∷◌, Instant, Duration, secs,
  arith, ltb, length, All, length-append, length-retain-le,
}
use omarchy_faceauth.Cooldown.Holds.{option_list, IsTimed, charge-IsTimed, hold-IsTimed}
use omarchy_faceauth.Cooldown.{Strikes, new, charge, hold, cooldown_window}

-- A failed attempt, or the question whether a hold is in force.
pub data Event : Type 0 where
  fails : Instant → Event
  asks : Instant → Event

abbrev pub failures : List Event → ℕ
failures [] = 0
failures (fails t ∷ es) = suc (failures es)
failures (asks t ∷ es) = failures es

-- The answers to the questions, in order.
unfoldable pub answers : Strikes → List Event → List (Option Duration)
answers s [] = []
answers s (fails t ∷ es) = answers (charge s t) es
answers s (asks t ∷ es) = let (s', d) = hold s t in d ∷ answers s' es

record IsFree (n : ℕ) (s : Strikes) : Type 0 where
  open_ : s.until ≡ none
  unserved : s.holds ≡ 0
  few : length s.times ≤ n

charge-IsFree : (n : ℕ) (s : Strikes) (t : Instant) → IsFree n s → IsFree (suc n) (charge s t)
unfolding charge
charge-IsFree n s t h = ground (arith, length-append {0} s.times (t ∷ []))

hold-IsFree :
    (n : ℕ) (s : Strikes) (t : Instant)
    → IsFree n s
    → n < 5
    → IsFree n (hold s t).0 × ((hold s t).1 ≡ none)
unfolding hold
hold-IsFree n s t h l =
    ground (arith, length-retain-le {0} (λ u. ltb (t - u) cooldown_window) s.times)

answers_free :
    (n : ℕ) (s : Strikes) (es : List Event)
    → IsFree n s
    → n + failures es < 5
    → All (λ d. d ≡ none) (answers s es)
unfolding answers
answers_free n s [] h l = tt
answers_free n s (fails t ∷ es) h l =
    answers_free (suc n) (charge s t) es (charge-IsFree n s t h) (omega arith)
answers_free n s (asks t ∷ es) h l =
    let (free, answer) = hold-IsFree n s t h (omega arith) in
    (answer, answers_free n (hold s t).0 es free l)

-- A user with fewer than five failures in all is never held, however they fall and whenever the
-- question is asked.
pub four_failures_free : (es : List Event) → failures es < 5 → All (λ d. d ≡ none) (answers new es)
unfolding new
four_failures_free es l =
    answers_free 0 new es (record { open_ = refl; unserved = refl; few = omega arith })
      (omega arith)

abbrev pub time_of : Event → Instant
time_of (fails t) = t
time_of (asks t) = t

-- The clock does not run backwards.
abbrev pub InOrder : Instant → List Event → Type 0
InOrder before [] = Unit {0}
InOrder before (e ∷ es) = (before ≤ time_of e) × InOrder (time_of e) es

answers_timed :
    (now : Instant) (s : Strikes) (es : List Event)
    → IsTimed now s
    → InOrder now es
    → All (λ d. All (λ x. x ≤ secs 480) (option_list d)) (answers s es)
unfolding answers
answers_timed now s [] h o = tt
answers_timed now s (fails t ∷ es) h (le, o) =
    answers_timed t (charge s t) es (charge-IsTimed s now t le h) o
answers_timed now s (asks t ∷ es) h (le, o) =
    let (timed, bounded) = hold-IsTimed s now t le h in
    (bounded, answers_timed t (hold s t).0 es timed o)

-- However often and however long attempts fail, no question is answered with a hold of more than
-- eight minutes, as long as the clock does not run backwards.
pub answers_bounded :
    (es : List Event)
    → InOrder 0 es
    → All (λ d. All (λ x. x ≤ secs 480) (option_list d)) (answers new es)
unfolding new
answers_bounded es o = answers_timed 0 new es (record { past = tt; bounded = tt }) o
