-- ===== src/Backoff/Table.antt =====
-- The table of standing refusals, one entry for each user
-- (faceauth-daemon/src/server/backoff.rs, `refusal_standing` and `refused`).
use omarchy_faceauth.Prelude.{
  ℕ, ◌+◌, ◌-◌, ◌≤◌, ◌<◌, ◌≡◌, refl, inl, inr, ◌≢◌, Bool, true, false, not, Option, none, some, [],
  ◌∷◌, ◌++◌, Instant, Duration, arith, ◌==◌, if◌then◌else◌, retain, Option-cases, map_or,
}
use omarchy_faceauth.Backoff.{
  Backoff, Refusals, new, entry, put, is_kept, refuse, standing, refusal_standing, said_no,
}
use omarchy_faceauth.Backoff.Escalation.{standing-refuse}

entry-put :
    (r : Refusals) (u v : ℕ) (b c : Backoff)
    → entry r u ≡ some c
    → entry (put u b r) v ≡ (if u == v then some b else entry r v)
unfolding entry put
entry-put [] u v b c h = cc
entry-put ((k, a) ∷ r) u v b c h = ground (arith, entry-put r u v b c)

entry-append :
    (r : Refusals) (u v : ℕ) (b : Backoff)
    → entry r u ≡ none
    → entry (r ++ (u, b) ∷ []) v ≡ (if u == v then some b else entry r v)
unfolding entry
entry-append [] u v b h = refl
entry-append ((k, a) ∷ r) u v b h = ground (arith, entry-append r u v b)

-- No user has two entries.
abbrev pub IsUnique : Refusals → Type 0
IsUnique [] = Unit {0}
IsUnique ((u, b) ∷ r) = (entry r u ≡ none) × IsUnique r

entry-retain-none :
    (now : Instant) (r : Refusals) (u : ℕ)
    → entry r u ≡ none
    → entry (retain (is_kept now) r) u ≡ none
unfolding entry
entry-retain-none now [] u h = refl
entry-retain-none now ((k, b) ∷ r) u h = ground (arith, entry-retain-none now r u)

-- The sweep keeps a user's entry exactly when it is live.
entry-retain :
    (now : Instant) (r : Refusals) (u : ℕ)
    → IsUnique r
    → entry (retain (is_kept now) r) u
      ≡ map_or (entry r u) none (λ b. if is_kept now (u, b) then some b else none)
unfolding entry
entry-retain now [] u h = refl
entry-retain now ((k, b) ∷ r) u (fresh, h) =
    ground (arith, entry-retain now r u h, entry-retain-none now r u)

entry-put-none :
    (r : Refusals) (u v : ℕ) (b : Backoff) → entry r v ≡ none → entry (put u b r) v ≡ none
unfolding entry put
entry-put-none [] u v b h = refl
entry-put-none ((k, a) ∷ r) u v b h = ground (arith, entry-put-none r u v b)

entry-append-none :
    (r : Refusals) (u v : ℕ) (b : Backoff)
    → entry r v ≡ none
    → u ≢ v
    → entry (r ++ (u, b) ∷ []) v ≡ none
unfolding entry
entry-append-none [] u v b h n = ground arith
entry-append-none ((k, a) ∷ r) u v b h n = ground (arith, entry-append-none r u v b)

append-IsUnique :
    (r : Refusals) (u : ℕ) (b : Backoff)
    → IsUnique r
    → entry r u ≡ none
    → IsUnique (r ++ (u, b) ∷ [])
unfolding entry
append-IsUnique [] u b h e = (refl, tt)
append-IsUnique ((k, a) ∷ r) u b h e =
    ground (arith, append-IsUnique r u b h.1, entry-append-none r u k b h.0)

put-IsUnique : (r : Refusals) (u : ℕ) (b : Backoff) → IsUnique r → IsUnique (put u b r)
unfolding put
put-IsUnique [] u b h = tt
put-IsUnique ((k, a) ∷ r) u b h = ground (arith, put-IsUnique r u b h.1, entry-put-none r u k b h.0)

retain-IsUnique : (now : Instant) (r : Refusals) → IsUnique r → IsUnique (retain (is_kept now) r)
retain-IsUnique now [] h = tt
retain-IsUnique now ((k, b) ∷ r) h =
    ground (arith, retain-IsUnique now r, entry-retain-none now r k)

-- What a user's request is told: the time left and whether it is the first to be told.
abbrev pub answer : Option Backoff → Instant → Option (Duration × Bool)
answer none now = none
answer (some b) now = map_or (standing b now) none (λ left. some (left, not b.notified))

-- The sweep of old entries changes no answer: a request is told what its user's own entry says.
pub refusal_standing-answer :
    (r : Refusals) (u : ℕ) (now : Instant)
    → IsUnique r
    → (refusal_standing r u now).1 ≡ answer (entry r u) now
unfolding refusal_standing
refusal_standing-answer r u now h = ground (arith, entry-retain now r u h)

-- The sweep and a new refusal leave each user at most one entry.
pub refusal_standing-IsUnique :
    (r : Refusals) (u : ℕ) (now : Instant) → IsUnique r → IsUnique (refusal_standing r u now).0
unfolding refusal_standing
refusal_standing-IsUnique r u now h =
    let kept = retain (is_kept now) r in
    let unique = retain-IsUnique now r h in
    elim (Option-cases (entry kept u)) [
      | inl e ↦ ground (arith, unique)
      | inr (b, e) ↦
          ground (arith, unique, put-IsUnique kept u (record b { notified = true }) unique)
    ]

pub said_no-IsUnique :
    (r : Refusals) (u : ℕ) (now : Instant) → IsUnique r → IsUnique (said_no r u now).0
unfolding said_no
said_no-IsUnique r u now h = elim (Option-cases (entry r u)) [
  | inl e ↦ ground (arith, append-IsUnique r u (refuse new now).0 h e)
  | inr (b, e) ↦ ground (arith, put-IsUnique r u (refuse b now).0 h)
]

-- The record that a no is added to.
abbrev record_of : Refusals → ℕ → Backoff
record_of r u = map_or (entry r u) new (λ b. b)

entry-said_no :
    (r : Refusals) (u v : ℕ) (now : Instant)
    → entry (said_no r u now).0 v
      ≡ (if u == v then some (refuse (record_of r u) now).0 else entry r v)
unfolding said_no
entry-said_no r u v now = elim (Option-cases (entry r u)) [
  | inl e ↦ ground (arith, entry-append r u v (refuse new now).0 e)
  | inr (b, e) ↦ ground (arith, entry-put r u v (refuse b now).0 b e)
]

-- One user's no changes nothing for any other user.
pub said_no_others :
    (r : Refusals) (u v : ℕ) (now later : Instant)
    → IsUnique r
    → u ≢ v
    → (refusal_standing (said_no r u now).0 v later).1 ≡ (refusal_standing r v later).1
said_no_others r u v now later h n = ground (
  arith,
  refusal_standing-answer (said_no r u now).0 v later (said_no-IsUnique r u now h),
  refusal_standing-answer r v later h,
  entry-said_no r u v now,
)

entry-refusal_standing :
    (r : Refusals) (u : ℕ) (now : Instant) (b : Backoff) (left : Duration)
    → IsUnique r
    → entry r u ≡ some b
    → standing b now ≡ some left
    → entry (refusal_standing r u now).0 u ≡ some (record b { notified = true })
unfolding refusal_standing
entry-refusal_standing r u now b left h e s = ground (
  arith,
  entry-retain now r u h,
  entry-put (retain (is_kept now) r) u u (record b { notified = true }) b,
)

refuse-notified : (b : Backoff) (now : Instant) → (refuse b now).0.notified ≡ false
unfolding refuse
refuse-notified b now = refl

standing-notified :
    (b : Backoff) (now : Instant) → standing (record b { notified = true }) now ≡ standing b now
unfolding standing
standing-notified b now = refl

said_no-length :
    (r : Refusals) (u : ℕ) (now : Instant) → (said_no r u now).1 ≡ (refuse (record_of r u) now).1
unfolding said_no
said_no-length r u now = ground arith

-- A request within the time of the refusal on record, by what it is told and what it leaves.
told_standing :
    (r : Refusals) (u : ℕ) (t : Instant) (b : Backoff) (left : Duration)
    → IsUnique r
    → entry r u ≡ some b
    → standing b t ≡ some left
    → ((refusal_standing r u t).1 ≡ some (left, not b.notified))
      × (entry (refusal_standing r u t).0 u ≡ some (record b { notified = true }))
told_standing r u t b left h e s =
    (ground (arith, refusal_standing-answer r u t h), entry-refusal_standing r u t b left h e s)

-- After a no, every request of that user within the length of the refusal is refused with the
-- time left; the first one is told that it is the first, and the next one is told that it is not.
pub notice_once :
    (r : Refusals) (u : ℕ) (now t₁ t₂ : Instant)
    → IsUnique r
    → now ≤ t₁
    → t₁ ≤ t₂
    → t₂ < now + (said_no r u now).1
    → let (r₁, length) = said_no r u now in
      let (r₂, told₁) = refusal_standing r₁ u t₁ in
      let (r₃, told₂) = refusal_standing r₂ u t₂ in
      (told₁ ≡ some (now + length - t₁, true)) × (told₂ ≡ some (now + length - t₂, false))
notice_once r u now t₁ t₂ h p q l =
    let b = (refuse (record_of r u) now).0 in
    let r₁ = (said_no r u now).0 in
    let unique = said_no-IsUnique r u now h in
    let found : entry r₁ u ≡ some b = ground (arith, entry-said_no r u u now) in
    let length = said_no-length r u now in
    let (told, left) =
      told_standing r₁ u t₁ b (now + (said_no r u now).1 - t₁) unique found
        (ground (arith, length, standing-refuse (record_of r u) now t₁)) in
    let (again, _) =
      told_standing (refusal_standing r₁ u t₁).0 u t₂ (record b { notified = true })
        (now + (said_no r u now).1 - t₂) (refusal_standing-IsUnique r₁ u t₁ unique) left
        (ground (arith, length, standing-notified b t₂, standing-refuse (record_of r u) now t₂)) in
    (ground (arith, told, refuse-notified (record_of r u) now), again)
