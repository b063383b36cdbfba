-- ===== src/Backoff/Escalation.antt =====
-- How long a no stands, and how repeated refusals lengthen it
-- (faceauth-daemon/src/server/backoff.rs, `Backoff`).
use omarchy_faceauth.Prelude.{
  ℕ, zero, suc, ◌+◌, ◌-◌, ◌*◌, ◌^◌, ◌≤◌, ◌<◌, min, ◌≡◌, refl, none, some, List, [], ◌∷◌, Instant,
  Duration, secs, arith, ltb, if◌then◌else◌,
}
use omarchy_faceauth.Outcome.{
  Refusal, CallerInfo, wire, parse, refuse as refuse_outcome, deny_consent,
}
use omarchy_faceauth.Outcome
use omarchy_faceauth.Outcome.Refusals.{parse-wire}
use omarchy_faceauth.Backoff.{
  Backoff, new, backoff_quiet, refuse, standing, backoff_length, backoff_max_doublings,
  is_explicit_no,
}

-- A refusal said at `now` stands at every later moment before its length has passed, for exactly
-- the time that is left, and at no moment after.
pub standing-refuse :
    (b : Backoff) (now later : Instant)
    → now ≤ later
    → let (b', length) = refuse b now in
      standing b' later ≡ (if ltb later (now + length) then some (now + length - later) else none)
unfolding refuse standing
standing-refuse b now later h = ground arith

two-pow_bounds : (k : ℕ) → k ≤ 3 → (1 ≤ 2 ^ k) × (2 ^ k ≤ 8)
two-pow_bounds zero h = omega arith
two-pow_bounds (suc zero) h = omega arith
two-pow_bounds (suc (suc zero)) h = omega arith
two-pow_bounds (suc (suc (suc zero))) h = omega arith
two-pow_bounds (suc (suc (suc (suc k)))) h = absurd (omega arith)

-- Every refusal stands between one minute and eight.
pub refuse_bounds :
    (b : Backoff) (now : Instant)
    → let length = (refuse b now).1 in (secs 60 ≤ length) × (length ≤ secs 480)
unfolding refuse
refuse_bounds b now = ground (arith, two-pow_bounds (min (b.level + 1) 3))

-- The lengths of a sequence of refusals.
unfoldable pub lengths : Backoff → List Instant → List Duration
lengths b [] = []
lengths b (t ∷ ts) = let (b', d) = refuse b t in d ∷ lengths b' ts

-- Each moment is within the quiet time of the one before it.
abbrev pub IsClose : Instant → List Instant → Type 0
IsClose before [] = Unit {0}
IsClose before (t ∷ ts) = (t - before < backoff_quiet) × IsClose t ts

-- One minute, doubled by each repeat until it has doubled three times.
unfoldable pub doubling : ℕ → List Instant → List Duration
doubling n [] = []
doubling n (t ∷ ts) = backoff_length * 2 ^ min n backoff_max_doublings ∷ doubling (suc n) ts

lengths-doubling :
    (n : ℕ) (b : Backoff) (before : Instant) (ts : List Instant)
    → b.last ≡ some before
    → b.level ≡ min n backoff_max_doublings
    → IsClose before ts
    → lengths b ts ≡ doubling (suc n) ts
unfolding lengths doubling refuse
lengths-doubling n b before [] l k c = refl
lengths-doubling n b before (t ∷ ts) l k (near, later) =
    ground (arith, lengths-doubling (suc n) (refuse b t).0 t ts)

-- Refusals that follow one another within ten minutes double the minute up to eight.
pub repeats_double :
    (t : Instant) (ts : List Instant) → IsClose t ts → lengths new (t ∷ ts) ≡ doubling 0 (t ∷ ts)
unfolding lengths doubling refuse new
repeats_double t ts c = ground (arith, lengths-doubling 0 (refuse new t).0 t ts)

-- Ten quiet minutes forget the doubling, whatever came before.
pub quiet_forgets :
    (b : Backoff) (before now : Instant)
    → b.last ≡ some before
    → before + secs 600 ≤ now
    → (refuse b now).1 ≡ secs 60
unfolding refuse
quiet_forgets b before now l q = ground arith

-- On either lane, the outcome that reports a refusal starts a standing refusal exactly when the
-- refusal is the user's own no.
pub refuse-is_explicit_no :
    (caller : CallerInfo) (why : Refusal) (ms : ℕ)
    → (is_explicit_no (refuse_outcome caller why ms) ≡ Outcome.is_explicit_no why)
      × (is_explicit_no (deny_consent why ms) ≡ Outcome.is_explicit_no why)
unfolding is_explicit_no refuse_outcome deny_consent
refuse-is_explicit_no caller why ms = ground (arith, parse-wire why)
