-- ===== src/Presence/Traces.antt =====
-- What holds over every sequence of looks (faceauth-daemon/src/presence/watch.rs).
use omarchy_faceauth.Prelude.{
  ◌+◌, ◌≤◌, ◌≡◌, ◌≢◌, ◌⊎◌, inl, inr, Bool, true, false, none, some, List, [], ◌∷◌, ap, ◌∙◌, All,
  Instant, Duration, arith,
}
use omarchy_faceauth.Presence.Config.{
  PresenceConfig, PresenceMode, AwayTime, default_mode, away_for,
}
use omarchy_faceauth.Presence.Watch.{away, BBox, Observation, Watch, new, step}

pub record Look (G : Type 0) : Type 0 where
  pub seen : Observation G
  pub at : Instant
  pub mode : PresenceMode

module _ {G : Type 0} where
  unfoldable pub after : (G × BBox → G → Bool) → Watch G → List (Look G) → Watch G
  after same_shape w [] = w
  after same_shape w (l ∷ ls) = after same_shape (step same_shape w l.seen l.at l.mode).0 ls

  -- The lock requests of a sequence of looks, none of which succeeded.
  unfoldable pub lock_requests : (G × BBox → G → Bool) → Watch G → List (Look G) → List Bool
  lock_requests same_shape w [] = []
  lock_requests same_shape w (l ∷ ls) =
      let (w', s) = step same_shape w l.seen l.at l.mode in s.lock ∷ lock_requests same_shape w' ls

  -- A look at a face whose identity check passed, with this frame and box.
  abbrev pub Confirms : G → BBox → Look G → Type 0
  Confirms f b l =
      (l.seen.face ≡ true)
      × (l.seen.identity ≡ some true)
      × (l.seen.frame ≡ some f)
      × (l.seen.bbox ≡ some b)

  abbrev pub Any : (Look G → Type 0) → List (Look G) → Type 0
  Any P [] = ⊥
  Any P (l ∷ ls) = P l ⊎ Any P ls

  -- A look at an empty chair: no face, and no frame to compare.
  abbrev pub IsEmptyChair : Look G → Type 0
  IsEmptyChair l = (l.seen.face ≡ false) × (l.seen.frame ≡ none)

module _ {G : Type 0} (same_shape : G × BBox → G → Bool) where
  step-reference :
      (w : Watch G) (l : Look G) (f : G) (b : BBox)
      → (step same_shape w l.seen l.at l.mode).0.reference ≡ some (f, b)
      → (w.reference ≡ some (f, b)) ⊎ Confirms f b l
  unfolding step
  step-reference w l f b h = ground arith

  after-reference :
      (w : Watch G) (ls : List (Look G)) (f : G) (b : BBox)
      → (after same_shape w ls).reference ≡ some (f, b)
      → (w.reference ≡ some (f, b)) ⊎ Any (Confirms f b) ls
  unfolding after
  after-reference w [] f b h = inl h
  after-reference w (l ∷ ls) f b h =
      elim (after-reference (step same_shape w l.seen l.at l.mode).0 ls f b h) [
        | inr later ↦ inr (inr later)
        | inl e ↦ elim (step-reference w l f b e) [ inl old ↦ inl old | inr here ↦ inr (inl here) ]
      ]

  -- The shape that holds the clock for a hidden face is only ever taken from a look at a face
  -- whose identity check passed: after any looks, in either mode, the reference is the frame and
  -- box of one of them that confirmed the user.
  pub reference_confirmed :
      (c : PresenceConfig) (ls : List (Look G)) (f : G) (b : BBox)
      → (after same_shape (new c) ls).reference ≡ some (f, b)
      → Any (Confirms f b) ls
  unfolding new
  reference_confirmed c ls f b h = elim (after-reference (new c) ls f b h) [
    | inl start ↦ absurd (cc)
    | inr found ↦ found
  ]

  step_never :
      (w : Watch G) (l : Look G)
      → w.cfg.away_seconds ≡ AwayTime.never
      → w.state ≢ away
      → l.mode ≡ default_mode
      → let (w', s) = step same_shape w l.seen l.at l.mode in
        (s.lock ≡ false) × (w'.state ≢ away) × (w'.cfg ≡ w.cfg)
  unfolding step
  step_never w l n h m = ground arith

  never_locks_from :
      (w : Watch G) (ls : List (Look G))
      → w.cfg.away_seconds ≡ AwayTime.never
      → w.state ≢ away
      → All (λ l. l.mode ≡ default_mode) ls
      → All (λ b. b ≡ false) (lock_requests same_shape w ls)
  unfolding lock_requests
  never_locks_from w [] n h ms = tt
  never_locks_from w (l ∷ ls) n h ms =
      let (quiet, here, same) = step_never w l n h ms.0 in
      (
        quiet,
        never_locks_from (step same_shape w l.seen l.at l.mode).0 ls
            (ap (λ c. c.away_seconds) same ∙ n) here ms.1,
      )

  -- The default mode with its away time set to "never" asks for no lock, whatever the looks see
  -- and however long they go on.
  pub never_locks :
      (c : PresenceConfig) (ls : List (Look G))
      → c.away_seconds ≡ AwayTime.never
      → All (λ l. l.mode ≡ default_mode) ls
      → All (λ b. b ≡ false) (lock_requests same_shape (new c) ls)
  unfolding new
  never_locks c ls n ms = never_locks_from (new c) ls n (λ e. cc) ms

  step_empty :
      (w : Watch G) (l : Look G) (t : Instant) (d : Duration)
      → IsEmptyChair l
      → w.last_seen ≡ some t
      → away_for w.cfg l.mode ≡ some d
      → t + d ≤ l.at
      → w.locked_by_presence ≡ false
      → let (w', s) = step same_shape w l.seen l.at l.mode in
        (s.lock ≡ true)
        × (w'.last_seen ≡ some t)
        × (w'.cfg ≡ w.cfg)
        × (w'.locked_by_presence ≡ false)
  unfolding step
  step_empty w l t d e s a p k = ground arith

  -- Once the away time has run out since the last sighting, every look at an empty chair asks for
  -- the lock, again and again for as long as none has succeeded: a failed lock is retried.
  pub empty_chair_locks :
      (w : Watch G) (ls : List (Look G)) (t : Instant)
      → w.last_seen ≡ some t
      → w.locked_by_presence ≡ false
      → All
          (λ l.
            IsEmptyChair l × ((d : Duration) × (away_for w.cfg l.mode ≡ some d) × (t + d ≤ l.at)))
          ls
      → All (λ b. b ≡ true) (lock_requests same_shape w ls)
  unfolding lock_requests
  empty_chair_locks w [] t s k all = tt
  empty_chair_locks w (l ∷ ls) t s k ((empty, (d, away_time, late)), later) =
      let (asks, seen, same, unlocked) = step_empty w l t d empty s away_time late k in
      (
        asks,
        empty_chair_locks (step same_shape w l.seen l.at l.mode).0 ls t seen unlocked
            (rw same later),
      )
