-- ===== src/Rearm/Clock.antt =====
-- When a wait ends because the user left (faceauth-daemon/src/auth/rearm.rs).
use mathlib.Core.Path.{subst, sym}
use omarchy_faceauth.Prelude.{
  ℕ, ◌+◌, ◌<◌, ◌≡◌, refl, ◌⊎◌, ◌≢◌, inl, inr, Bool, false, Option, none, some, List, [], ◌∷◌, arith,
  Duration, Instant, All,
}
use omarchy_faceauth.Presence.Watch.{Observation, passed}
use omarchy_faceauth.Rearm.Wait.{
  nothing, Round, HoldRound, Waiting, End, face_lost, Turn, stop, go, identity_due, attend,
  attention_wait, hold_wait,
}

Turn-cases :
    (t : Turn) → ((e : End) × (w : Waiting) × (t ≡ stop e w)) ⊎ ((w : Waiting) × (t ≡ go w))
Turn-cases (stop e w) = inl (e, w, refl)
Turn-cases (go w) = inr (w, refl)

-- Either the user has left, or the time they were seen stands.
abbrev LeftOrKept : Waiting → Turn → Type 0
LeftOrKept w (stop e w') = e ≡ face_lost
LeftOrKept w (go w') = w'.seen ≡ w.seen

module _ {G : Type 0} where
  attend_no_clock : (w w' : Waiting) (r : Round G) → attend w none r ≢ stop face_lost w'
  unfolding attend
  attend_no_clock w w' r h = ground arith

  -- Without an away time (no watch for this user, or "never") a wait never ends with the user
  -- gone.
  pub no_clock_no_loss :
      (w w' : Waiting) (rs : List (Round G)) → attention_wait w none rs ≢ some (face_lost, w')
  unfolding attention_wait
  no_clock_no_loss w w' [] h = cc
  no_clock_no_loss w w' (r ∷ rs) h = elim (Turn-cases (attend w none r)) [
    | inl (e, w₁, s) ↦ attend_no_clock w w₁ r (ground (arith, s))
    | inr (w₁, s) ↦ no_clock_no_loss w₁ w' rs (ground (arith, s))
  ]

  -- A look that fails, or comes back without confirming the user.
  abbrev pub IsNoUser : Option (Observation G) → Type 0
  IsNoUser none = Unit {0}
  IsNoUser (some o) = passed o.identity ≡ false

  -- A round without an answer, on an unlocked session, of which no look confirms the user.
  pub record IsUnconfirmed (r : Round G) : Type 0 where
    pub quiet : r.polled ≡ nothing
    pub unlocked : r.locked ≡ false
    pub looks : (b : Bool) → IsNoUser (r.first_look b)
    pub again : IsNoUser r.second_look

  -- Both looks come back.
  pub record IsLooked (r : Round G) : Type 0 where
    pub first_back : (b : Bool) → r.first_look b ≢ none
    pub second_back : r.second_look ≢ none

  attend_unconfirmed :
      (w : Waiting) (l : Duration) (r : Round G)
      → IsUnconfirmed r
      → LeftOrKept w (attend w (some l) r)
  unfolding attend
  attend_unconfirmed w l r u = ground (
    arith,
    u.quiet,
    u.unlocked,
    u.again,
    u.looks (identity_due (w.looks + 1) r.before w.seen (some l)),
  )

  attend_late :
      (w w' : Waiting) (l : Duration) (r : Round G)
      → IsUnconfirmed r
      → IsLooked r
      → w.seen + l < r.after
      → attend w (some l) r ≢ go w'
  unfolding attend
  attend_late w w' l r u k late e = ground (
    arith,
    u.quiet,
    u.unlocked,
    u.again,
    k.second_back,
    late,
    e,
    u.looks (identity_due (w.looks + 1) r.before w.seen (some l)),
    k.first_back (identity_due (w.looks + 1) r.before w.seen (some l)),
  )

  -- Some round whose looks come back is read after the away time has run out since `seen`.
  abbrev pub SomeLate : Instant → Duration → List (Round G) → Type 0
  SomeLate seen l [] = ⊥
  SomeLate seen l (r ∷ rs) = (IsLooked r × (seen + l < r.after)) ⊎ SomeLate seen l rs

  -- A stranger who takes the chair is found out: in rounds that bring no answer and find the session
  -- unlocked, and of which no look confirms the user, whatever faces it sees and if it fails or not,
  -- the wait ends with the user gone, at the latest in the first round that is read after the away
  -- time has run out and whose looks come back.
  pub stranger_times_out :
      (w : Waiting) (l : Duration) (rs : List (Round G))
      → All IsUnconfirmed rs
      → SomeLate w.seen l rs
      → (w' : Waiting) × (attention_wait w (some l) rs ≡ some (face_lost, w'))
  unfolding attention_wait
  stranger_times_out w l [] u late = absurd late
  stranger_times_out w l (r ∷ rs) u late =
      let kept = attend_unconfirmed w l r u.0 in
      elim (Turn-cases (attend w (some l) r)) [
        | inl (e, w₁, s) ↦ (w₁, ground (arith, s, kept))
        | inr (w₁, s) ↦
            let kept₁ : LeftOrKept w (go w₁) = rw s at kept in
            elim late [
              | inl (back, now) ↦ absurd (attend_late w w₁ l r u.0 back now s)
              | inr more ↦
                  let (w', e) =
                    stranger_times_out w₁ l rs u.1
                      (subst (λ t. SomeLate t l rs) (sym kept₁) more) in
                  (w', ground (arith, s, e))
            ]
      ]

  -- Nor does a hold, without an away time: it ends with the hold itself or with an answer.
  pub hold_no_loss :
      (until seen : Instant) (looks : ℕ) (rs : List (HoldRound G))
      → hold_wait until looks seen none rs ≢ some face_lost
  unfolding hold_wait
  hold_no_loss until seen looks [] h = cc
  hold_no_loss until seen looks (r ∷ rs) h = ground (arith, hold_no_loss until seen looks rs)
