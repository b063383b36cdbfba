-- ===== src/Rearm/Arming.antt =====
-- When the nods arm again (faceauth-daemon/src/auth/rearm.rs).
use omarchy_faceauth.Prelude.{
  Bool-cases, false, ◌≡◌, ◌∙◌, refl, ◌⊎◌, inl, inr, Bool, true, false, Option, some, List, [], ◌∷◌,
  arith,
}
use omarchy_faceauth.Presence.Config.{PresenceMode}
use omarchy_faceauth.Rearm.Gate.{RearmGate, arm, new, look}

-- A look as the gate is fed it.
pub record Fed : Type 0 where
  pub face : Bool
  pub attentive : Bool
  pub identity : Option Bool

unfoldable pub feed : RearmGate → List Fed → RearmGate
feed g [] = g
feed g (f ∷ fs) = feed (look g f.face f.attentive f.identity).0 fs

-- The user is not attentive at the camera on this look.
abbrev pub IsAway : Fed → Type 0
IsAway f = (f.face ≡ false) ⊎ (f.attentive ≡ false) ⊎ (f.identity ≡ some false)

abbrev pub Any : List Fed → Type 0
Any [] = ⊥
Any (f ∷ fs) = IsAway f ⊎ Any fs

look-IsAway :
    (g : RearmGate) (f : Fed)
    → let g' = (look g f.face f.attentive f.identity).0 in
      (g'.need_away ≡ g.need_away) × (g'.away_seen ≡ true → (g.away_seen ≡ true) ⊎ IsAway f)
unfolding look
look-IsAway g f = (ground arith, λ h. ground arith)

feed-IsAway :
    (g : RearmGate) (fs : List Fed)
    → ((feed g fs).need_away ≡ g.need_away)
      × ((feed g fs).away_seen ≡ true → (g.away_seen ≡ true) ⊎ Any fs)
unfolding feed
feed-IsAway g [] = (refl, λ h. inl h)
feed-IsAway g (f ∷ fs) =
    let (kept, seen) = look-IsAway g f in
    let (kept', seen') = feed-IsAway (look g f.face f.attentive f.identity).0 fs in
    (
      kept' ∙ kept,
      λ h. elim (seen' h) [
        | inr later ↦ inr (inr later)
        | inl now ↦ elim (seen now) [ inl old ↦ inl old | inr away ↦ inr (inl away) ]
      ],
    )

arm_needs :
    (g : RearmGate) (f : Fed)
    → (look g f.face f.attentive f.identity).1 ≡ arm
    → (f.face ≡ true)
      × (f.attentive ≡ true)
      × (f.identity ≡ some true)
      × (g.need_away ≡ true → g.away_seen ≡ true)
unfolding look
arm_needs g f h = ground arith

-- The gate arms only on a face turned to the camera whose identity check passed on that very
-- look; and where an absence is asked for, only after a look at which that face was away.
pub arm_after_away :
    (need_away : Bool) (m : PresenceMode) (fs : List Fed) (f : Fed)
    → (look (feed (new need_away m) fs) f.face f.attentive f.identity).1 ≡ arm
    → (f.face ≡ true)
      × (f.attentive ≡ true)
      × (f.identity ≡ some true)
      × ((need_away ≡ false) ⊎ Any fs)
arm_after_away need_away m fs f h =
    let g = feed (new need_away m) fs in
    let (kept, seen) = feed-IsAway (new need_away m) fs in
    let (face, attentive, identity, away) = arm_needs g f h in
    (
      face,
      attentive,
      identity,
      elim (Bool-cases need_away) [
        | inr free ↦ inl free
        | inl need ↦ elim (seen (away (kept ∙ (unfold new in need)))) [
          | inl start ↦ absurd (unfold new in cc)
          | inr found ↦ inr found
        ]
      ],
    )
