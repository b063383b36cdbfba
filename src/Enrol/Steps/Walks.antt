-- ===== src/Enrol/Steps/Walks.antt =====
-- The rounds of a walk-through by their index (faceauth-daemon/src/enrol/steps.rs).
use omarchy_faceauth.Prelude.{
  ℕ, ◌+◌, ◌-◌, ◌≤◌, ◌<◌, ◌≡◌, ◌⊎◌, inl, inr, refl, none, some, List, [], ◌∷◌, ltb, Bool-cases,
  arith,
}
use omarchy_faceauth.Enrol.Steps.{Round, rounds, find_round, round_at, total, round_count}

-- Every index below the count is a repeat of some round, the repeats counted from one.
find_round-total :
    (rs : List Round) (n i : ℕ)
    → n ≤ i
    → ((i < n + total rs)
        × ((r : Round) × (k : ℕ) × (find_round rs n i ≡ some (r, k)) × (1 ≤ k) × (k ≤ r.times)))
      ⊎ ((n + total rs ≤ i) × (find_round rs n i ≡ none))
unfolding find_round total
find_round-total [] n i h = inr (omega arith, refl)
find_round-total (r ∷ rs) n i h = elim (Bool-cases (ltb i (n + r.times))) [
  | inl here ↦ inl (ground arith, (r, i - n + 1, rw here refl, omega arith, ground arith))
  | inr later ↦ elim (find_round-total rs (n + r.times) i (ground arith)) [
    | inl (below, (r', k, found, lo, hi)) ↦ inl (omega arith, (r', k, rw later found, lo, hi))
    | inr (above, missing) ↦ inr (omega arith, rw later missing)
  ]
]

-- A round's index below the count names a round and one of its repeats, counted from one; no other
-- index names any.
pub round_at-total :
    (i : ℕ)
    → ((i < round_count)
        × ((r : Round) × (k : ℕ) × (round_at i ≡ some (r, k)) × (1 ≤ k) × (k ≤ r.times)))
      ⊎ ((round_count ≤ i) × (round_at i ≡ none))
unfolding round_at round_count
round_at-total i = find_round-total rounds 0 i (omega arith)
