-- ===== src/Consent/Turns.antt =====
-- Every interleaving of the calls on the consent state (faceauth-daemon/src/consent/state.rs).
use mathlib.Core.Path.{subst}
use native.Mathlib.Decide.{ℕ_discrete}
use omarchy_faceauth.Prelude.{
  if◌then◌else◌, leb, ◌==◌, ℕ, suc, ◌+◌, ◌-◌, ◌^◌, ◌≤◌, ◌<◌, ◌≡◌, refl, ◌≢◌, ◌⊎◌, inl, inr, Bool,
  Option, none, some, List, [], ◌∷◌, ◌++◌, ◌%◌, Text, arith, length, first, rest, Option-cases, All,
}
use omarchy_faceauth.Consent.State.{
  Queue, Place, Fd, placed, no_place, other_user, too_many, took, new, consent_per_uid, blocking,
  held, join, drop_place, drop_turn, try_turn,
}
use omarchy_faceauth.Consent.Calls.{Call, apply, apply-Keeps}
use omarchy_faceauth.Consent.Fairness.{
  IsFair, AllOf, Rising, LiveUid, live_count, join-IsFair, drop_place-IsFair, Rising-weaken,
  retain_all,
}

-- The place stands in the queue.
abbrev pub Waits : Place → List (ℕ × ℕ) → Type 0
Waits p [] = ⊥
Waits p (w ∷ ws) = (w ≡ (p.id, p.uid)) ⊎ Waits p ws

Waits-uid : (u : ℕ) (p : Place) (ws : List (ℕ × ℕ)) → AllOf u ws → Waits p ws → p.uid ≡ u
Waits-uid u p [] h m = absurd m
Waits-uid u p (w ∷ ws) h (inl e) = ground arith
Waits-uid u p (w ∷ ws) h (inr m) = Waits-uid u p ws h.1 m

rest-fair :
    (u hi : ℕ) (ws : List (ℕ × ℕ)) (w : ℕ × ℕ)
    → first ws ≡ some w
    → AllOf u ws
    → Rising 0 hi ws
    → AllOf u (rest ws) × Rising 0 hi (rest ws) × (suc (length (rest ws)) ≡ length ws)
rest-fair u hi [] w f a r = cc
rest-fair u hi (x ∷ ws) w f a r = (a.1, Rising-weaken 0 (suc x.0) hi ws (omega arith) r.1, refl)

Rising-above :
    (lo lo' hi : ℕ) (ws : List (ℕ × ℕ)) → lo ≤ lo' → Rising lo' hi ws → All (λ w. lo ≤ w.0) ws
Rising-above lo lo' hi [] h r = tt
Rising-above lo lo' hi (w ∷ ws) h r =
    (omega arith, Rising-above lo (suc w.0) hi ws (omega arith) r.1)

rest-above :
    (hi : ℕ) (ws : List (ℕ × ℕ)) (w : ℕ × ℕ)
    → first ws ≡ some w
    → Rising 0 hi ws
    → All (λ v. suc w.0 ≤ v.0) (rest ws)
rest-above hi [] w f r = cc
rest-above hi (x ∷ ws) w f r =
    let e : x ≡ w = ground arith in
    subst (λ (k : ℕ × ℕ). All (λ v. suc k.0 ≤ v.0) ws) e
      (Rising-above (suc x.0) (suc x.0) hi ws (omega arith) r.1)

module _ (gone : Fd → Bool) where
  -- A request joins, takes its turn (its place is dropped as `take_turn` returns), gives its place
  -- up, lets go of the window, or something is written into the live record.
  pub data Step (q : Queue) : Queue → Type 0 where
    joins :
        {q' : Queue} (uid : ℕ) (p : Place)
        → q.next_id < 2 ^ 64 - 1
        → join q uid ≡ placed q' p
        → Step q q'
    takes :
        {q' : Queue} (p : Place) (user : Text) (requester : Option Fd)
        → Waits p q.waiting
        → try_turn gone q p user requester ≡ took q'
        → Step q (drop_place q' p)
    leaves : (p : Place) → Step q (drop_place q p)
    ends : Step q (drop_turn q)
    writes : (c : Call) → Step q (apply gone q c)

  pub data Reach (q : Queue) : Queue → Type 0 where
    here : Reach q q
    next : {r s : Queue} → Reach q r → Step r s → Reach q s

  took_cases :
      (q q' : Queue) (p : Place) (user : Text) (requester : Option Fd)
      → try_turn gone q p user requester ≡ took q'
      → (w : ℕ × ℕ) × (first q.waiting ≡ some w)
        × (w.0 ≡ p.id)
        × (q.live ≡ none)
        × (q'.waiting ≡ rest q.waiting)
        × (q'.next_id ≡ q.next_id)
        × LiveUid p.uid q'.live
        × (live_count q'.live ≡ 1)
  unfolding try_turn
  took_cases q q' p user requester e = elim (Option-cases (first q.waiting)) [
    | inl f ↦ ground arith
    | inr (w, f) ↦
        (w, f, ground arith, ground arith, ground arith, ground arith, ground arith, ground arith)
  ]

  apply-IsFair : (u : ℕ) (q : Queue) (c : Call) → IsFair u q → IsFair u (apply gone q c)
  apply-IsFair u q c h = ground (arith, apply-Keeps gone q c)

  drop_turn-IsFair : (u : ℕ) (q : Queue) → IsFair u q → IsFair u (drop_turn q)
  unfolding drop_turn
  drop_turn-IsFair u q h = ground arith

  takes-IsFair :
      (u : ℕ) (q q' : Queue) (p : Place) (user : Text) (requester : Option Fd)
      → IsFair u q
      → Waits p q.waiting
      → try_turn gone q p user requester ≡ took q'
      → IsFair u q'
  takes-IsFair u q q' p user requester h m e =
      let (w, f, id, free, ws, ids, mine, one) = took_cases q q' p user requester e in
      let same = Waits-uid u p q.waiting h.one_user m in
      ground (arith, rest-fair u q.next_id q.waiting w f h.one_user h.ordered)

  step-IsFair : (u : ℕ) (q q' : Queue) → IsFair u q → Step q q' → (v : ℕ) × IsFair v q'
  step-IsFair u q q' h (joins uid p n e) = (uid, join-IsFair u uid q q' p h n e)
  step-IsFair u q _ h (takes {q' = r} p user requester m e) =
      (u, drop_place-IsFair u r p (takes-IsFair u q r p user requester h m e))
  step-IsFair u q _ h (leaves p) = (u, drop_place-IsFair u q p h)
  step-IsFair u q _ h ends = (u, drop_turn-IsFair u q h)
  step-IsFair u q _ h (writes c) = (u, apply-IsFair u q c h)

  Reach-IsFair : (u : ℕ) (q q' : Queue) → IsFair u q → Reach q q' → (v : ℕ) × IsFair v q'
  Reach-IsFair u q q' h here = (u, h)
  Reach-IsFair u q q' h (next {r = r} path st) =
      let (v, k) = Reach-IsFair u q r h path in step-IsFair v r q' k st

  -- Whatever the threads do, in any order: the window and the whole queue belong to one user, who
  -- has at most 32 requests live or waiting, and the places stand in the order of their ids.
  pub always-IsFair : (q : Queue) → Reach new q → (u : ℕ) × IsFair u q
  unfolding new
  always-IsFair q path =
      Reach-IsFair 0 new q
        (record { one_user = tt; live_user = tt; ordered = omega arith; bounded = omega arith })
        path

  -- The window goes to the place that has waited longest, and only while no request is live: every
  -- other place in a fair queue has a later id.
  pub turn_in_order :
      (u : ℕ) (q q' : Queue) (p : Place) (user : Text) (requester : Option Fd)
      → IsFair u q
      → try_turn gone q p user requester ≡ took q'
      → (q.live ≡ none)
        × All (λ w. p.id < w.0) q'.waiting
        × (suc (length q'.waiting) ≡ length q.waiting)
  turn_in_order u q q' p user requester h e =
      let (w, f, id, free, ws, ids, mine, one) = took_cases q q' p user requester e in
      let later = rest-above q.next_id q.waiting w f h.ordered in
      (
        free,
        rw (ws, ← id) later,
        rw ws (rest-fair u q.next_id q.waiting w f h.one_user h.ordered).2,
      )

first-uid : (u : ℕ) (ws : List (ℕ × ℕ)) (w : ℕ × ℕ) → AllOf u ws → first ws ≡ some w → w.1 ≡ u
first-uid u [] w h f = cc
first-uid u (x ∷ ws) w h f = ground arith

first-none : (ws : List (ℕ × ℕ)) → first ws ≡ none → length ws ≡ 0
first-none [] f = refl
first-none (w ∷ ws) f = cc

blocking_other :
    (u v : ℕ) (q : Queue)
    → IsFair u q
    → 0 < length q.waiting + live_count q.live
    → u ≢ v
    → blocking q v ≡ some u
unfolding blocking
blocking_other u v q h some_one n = elim (Option-cases (first q.waiting)) [
  | inl f ↦ ground (arith, first-none q.waiting f)
  | inr (w, f) ↦ ground (arith, first-uid u q.waiting w h.one_user f)
]

blocking_same : (u : ℕ) (q : Queue) → IsFair u q → blocking q u ≡ none
unfolding blocking
blocking_same u q h = elim (Option-cases (first q.waiting)) [
  | inl f ↦ ground arith
  | inr (w, f) ↦ ground (arith, first-uid u q.waiting w h.one_user f)
]

held_same : (u : ℕ) (q : Queue) → IsFair u q → held q u ≡ length q.waiting + live_count q.live
unfolding held
held_same u q h = ground (arith, retain_all u q.waiting h.one_user)

-- The queue with one more place behind the others.
abbrev pub pushed : Queue → ℕ → Queue
pushed q uid = record q {
  waiting = q.waiting ++ (q.next_id, uid) ∷ [];
  next_id = (q.next_id + 1) % 18446744073709551616;
}

-- In a fair queue that is not empty, another user's request is refused at once; the same user's is
-- refused only at the bound, and otherwise gets the next id at the end of the queue.
pub join_outcome :
    (u v : ℕ) (q : Queue)
    → IsFair u q
    → 0 < length q.waiting + live_count q.live
    → join q v ≡ (
        if u == v
        then (if leb consent_per_uid (length q.waiting + live_count q.live)
            then no_place too_many
            else placed (pushed q v) (record { id = q.next_id; uid = v }))
        else no_place (other_user u))
unfolding join
join_outcome u v q h some_one = elim (ℕ_discrete u v) [
  | yes e ↦ ground (arith, blocking_same u q h, held_same u q h)
  | no n ↦ ground (arith, blocking_other u v q h some_one n)
]
