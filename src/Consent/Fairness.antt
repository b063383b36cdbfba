-- ===== src/Consent/Fairness.antt =====
-- Who waits for the window, and in what order (faceauth-daemon/src/consent/state.rs).
use mathlib.Core.Path.{subst}
use omarchy_faceauth.Prelude.{
  ℕ, suc, ◌+◌, ◌≤◌, ◌<◌, ◌≡◌, refl, inl, inr, Bool, not, Option, none, some, List, [], ◌∷◌, ◌++◌,
  arith, ◌==◌, length, retain, All, length-append, length-retain-le, first, Option-cases, ◌^◌, ◌-◌,
}
use omarchy_faceauth.Consent.State.{
  Live, Queue, Place, placed, consent_per_uid, blocking, join, drop_place,
}

-- The waiting places all belong to one user.
abbrev pub AllOf : ℕ → List (ℕ × ℕ) → Type 0
AllOf u ws = All (λ w. w.1 ≡ u) ws

-- Arrival order: the ids rise along the queue, from at least `lo`, to below `hi`.
abbrev pub Rising : ℕ → ℕ → List (ℕ × ℕ) → Type 0
Rising lo hi [] = lo ≤ hi
Rising lo hi (w ∷ ws) = (lo ≤ w.0) × Rising (suc w.0) hi ws

abbrev pub LiveUid : ℕ → Option Live → Type 0
LiveUid u none = Unit {0}
LiveUid u (some l) = l.uid ≡ u

abbrev pub live_count : Option Live → ℕ
live_count none = 0
live_count (some _) = 1

-- One user holds the window and the whole queue, within the bound, in arrival order.
pub record IsFair (u : ℕ) (q : Queue) : Type 0 where
  pub one_user : AllOf u q.waiting
  pub live_user : LiveUid u q.live
  pub ordered : Rising 0 q.next_id q.waiting
  pub bounded : length q.waiting + live_count q.live ≤ consent_per_uid

AllOf-retain : (u : ℕ) (p : ℕ × ℕ → Bool) (ws : List (ℕ × ℕ)) → AllOf u ws → AllOf u (retain p ws)
AllOf-retain u p [] h = tt
AllOf-retain u p (w ∷ ws) h = ground (arith, AllOf-retain u p ws h.1)

pub Rising-weaken :
    (lo lo' hi : ℕ) (ws : List (ℕ × ℕ)) → lo ≤ lo' → Rising lo' hi ws → Rising lo hi ws
Rising-weaken lo lo' hi [] h r = omega arith
Rising-weaken lo lo' hi (w ∷ ws) h r = (omega arith, r.1)

Rising-retain :
    (lo hi : ℕ) (p : ℕ × ℕ → Bool) (ws : List (ℕ × ℕ))
    → Rising lo hi ws
    → Rising lo hi (retain p ws)
Rising-retain lo hi p [] h = h
Rising-retain lo hi p (w ∷ ws) h =
    ground (arith, Rising-retain (suc w.0) hi p ws h.1, Rising-weaken lo (suc w.0) hi (retain p ws))

-- Giving a place back leaves the queue fair.
pub drop_place-IsFair : (u : ℕ) (q : Queue) (p : Place) → IsFair u q → IsFair u (drop_place q p)
unfolding drop_place
drop_place-IsFair u q p h = ground (
  arith,
  AllOf-retain u (λ w. not (w.0 == p.id)) q.waiting h.one_user,
  Rising-retain 0 q.next_id (λ w. not (w.0 == p.id)) q.waiting h.ordered,
  length-retain-le {0} (λ w. not (w.0 == p.id)) q.waiting,
)

AllOf-push : (u id : ℕ) (ws : List (ℕ × ℕ)) → AllOf u ws → AllOf u (ws ++ (id, u) ∷ [])
AllOf-push u id [] h = (refl, tt)
AllOf-push u id (w ∷ ws) h = (h.0, AllOf-push u id ws h.1)

Rising-push :
    (u lo id : ℕ) (ws : List (ℕ × ℕ)) → Rising lo id ws → Rising lo (suc id) (ws ++ (id, u) ∷ [])
Rising-push u lo id [] h = (h, omega arith)
Rising-push u lo id (w ∷ ws) h = (h.0, Rising-push u (suc w.0) id ws h.1)

pub retain_all :
    (u : ℕ) (ws : List (ℕ × ℕ)) → AllOf u ws → length (retain (λ w. w.1 == u) ws) ≡ length ws
retain_all u [] h = refl
retain_all u (w ∷ ws) h = ground (arith, retain_all u ws h.1)

pub AllOf-none : (v : ℕ) (ws : List (ℕ × ℕ)) → first ws ≡ none → AllOf v ws
AllOf-none v [] e = tt
AllOf-none v (w ∷ ws) e = cc

pub AllOf-first :
    (u v : ℕ) (ws : List (ℕ × ℕ)) (w : ℕ × ℕ)
    → AllOf u ws
    → first ws ≡ some w
    → w.1 ≡ v
    → AllOf v ws
AllOf-first u v [] w h f e = cc
AllOf-first u v (x ∷ ws) w h f e =
    let same : u ≡ v = ground arith in subst (λ k. AllOf k (x ∷ ws)) same h

pub AllOf-unblocked :
    (u v : ℕ) (q : Queue) → AllOf u q.waiting → blocking q v ≡ none → AllOf v q.waiting
unfolding blocking
AllOf-unblocked u v q h b = elim (Option-cases (first q.waiting)) [
  | inl e ↦ AllOf-none v q.waiting e
  | inr (w, e) ↦ AllOf-first u v q.waiting w h e (ground arith)
]

pub live-unblocked : (v : ℕ) (q : Queue) → blocking q v ≡ none → LiveUid v q.live
unfolding blocking
live-unblocked v q b = ground arith

-- A request that gets a place leaves the queue fair, and its user is the one who holds it.
pub join-IsFair :
    (u v : ℕ) (q q' : Queue) (p : Place)
    → IsFair u q
    → q.next_id < 2 ^ 64 - 1
    → join q v ≡ placed q' p
    → IsFair v q'
unfolding join
join-IsFair u v q q' p h n e = elim (Option-cases (blocking q v)) [
  | inr (other, b) ↦ ground arith
  | inl b ↦
      let mine = AllOf-unblocked u v q h.one_user b in
      let live = live-unblocked v q b in
      ground (
        arith,
        AllOf-push v q.next_id q.waiting mine,
        Rising-push v 0 q.next_id q.waiting h.ordered,
        retain_all v q.waiting mine,
        length-append {0} q.waiting ((q.next_id, v) ∷ []),
      )
]
