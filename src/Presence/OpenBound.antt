-- ===== src/Presence/OpenBound.antt =====
-- How long secure mode keeps a session open with nobody vouching for it
-- (faceauth-daemon/src/presence/watch.rs and run.rs: the events that reach a `Watch`).
use omarchy_faceauth.Prelude.{
  ℕ, ◌+◌, ◌≤◌, max, ◌≡◌, refl, ◌≢◌, ◌⊎◌, inl, inr, ap, ◌∙◌, Bool, true, ◌&&◌, Option, none, some,
  List, [], ◌∷◌, Instant, Duration, secs, arith, if◌then◌else◌,
}
use omarchy_faceauth.Presence.Config.{
  PresenceMode, default_mode, secure, PresenceConfig, obscured_lock_for,
}
use omarchy_faceauth.Presence.Watch.{
  away, BBox, Observation, Watch, passed, new, note_recent, locked, resumed, partial_holds, step,
}

-- What can happen to a watch: a look, in the mode in force at its time, a consent window or a face
-- match seen since the last tick, a lock, and an unlock.
pub data Event (G : Type 0) : Type 0 where
  look : Observation G → Instant → PresenceMode → Event G
  noted : Instant → Event G
  locks : Event G
  resumes : Instant → Bool → Event G

module _ {G : Type 0} where
  -- The latest moment at which something vouched for the user: a look whose identity check
  -- passed, a consent window or match, an unlock, or any look of the default mode, which holds the
  -- clock for a face alone.
  unfoldable pub vouched : ℕ → Event G → ℕ
  vouched v (look o now secure) = if o.face && passed o.identity then max v now else v
  vouched v (look o now default_mode) = max v now
  vouched v (noted at) = max v at
  vouched v locks = v
  vouched v (resumes now by_face) = max v now

  unfoldable pub vouched_by : ℕ → List (Event G) → ℕ
  vouched_by v [] = v
  vouched_by v (e ∷ es) = vouched_by (vouched v e) es

  unfoldable pub react : (G × BBox → G → Bool) → Watch G → Event G → Watch G
  react same_shape w (look o now m) = (step same_shape w o now m).0
  react same_shape w (noted at) = note_recent w at
  react same_shape w locks = locked w
  react same_shape w (resumes now by_face) = resumed w now by_face

  unfoldable pub run : (G × BBox → G → Bool) → Watch G → List (Event G) → Watch G
  run same_shape w [] = w
  run same_shape w (e ∷ es) = run same_shape (react same_shape w e) es

-- The longest the obscured face lock time of secure mode can be.
abbrev pub obscured_limit : Duration
obscured_limit = secs 600

abbrev UpTo : ℕ → Option Instant → Type 0
UpTo b none = Unit {0}
UpTo b (some t) = t ≤ b

-- The two sightings lie where a vouching moment allows them.
record IsVouched {G : Type 0} (v : ℕ) (w : Watch G) : Type 0 where
  seen_by : UpTo (v + obscured_limit) w.last_seen
  full_by : UpTo v w.last_full

UpTo-mono : (a b : ℕ) (o : Option Instant) → a ≤ b → UpTo a o → UpTo b o
UpTo-mono a b none h u = tt
UpTo-mono a b (some t) h u = omega arith

module _ {G : Type 0} (same_shape : G × BBox → G → Bool) where
  -- A hidden face holds the clock only within the longest obscured time of a clear sighting.
  hold_by :
      (v : ℕ) (w : Watch G) (now : Instant)
      → UpTo v w.last_full
      → partial_holds now w.last_full (obscured_lock_for w.cfg secure) ≡ true
      → now ≤ v + obscured_limit
  unfolding partial_holds obscured_lock_for
  hold_by v w now u h = ground arith

  step-IsVouched :
      (v : ℕ) (w : Watch G) (o : Observation G) (now : Instant)
      → IsVouched v w
      → IsVouched (vouched v (look o now secure)) (step same_shape w o now secure).0
  unfolding step vouched
  step-IsVouched v w o now h = ground (arith, hold_by v w now)

  -- Either sighting of a look is its own time or the one of before.
  step-default :
      (v : ℕ) (w : Watch G) (o : Observation G) (now : Instant)
      → IsVouched v w
      → IsVouched (vouched v (look o now default_mode)) (step same_shape w o now default_mode).0
  unfolding step vouched
  step-default v w o now h = ground (
    arith,
    UpTo-mono v (max v now) w.last_full,
    UpTo-mono (v + obscured_limit) (max v now + obscured_limit) w.last_seen,
  )

  react-IsVouched :
      (v : ℕ) (w : Watch G) (e : Event G)
      → IsVouched v w
      → IsVouched (vouched v e) (react same_shape w e)
  unfolding react vouched note_recent locked resumed
  react-IsVouched v w (look o now secure) h = step-IsVouched v w o now h
  react-IsVouched v w (look o now default_mode) h = step-default v w o now h
  react-IsVouched v w (noted at) h = ground (arith, UpTo-mono v (max v at) w.last_full)
  react-IsVouched v w locks h = record { seen_by = h.seen_by; full_by = h.full_by }
  react-IsVouched v w (resumes now by_face) h = ground (arith, UpTo-mono v (max v now) w.last_full)

  run-IsVouched :
      (v : ℕ) (w : Watch G) (es : List (Event G))
      → IsVouched v w
      → IsVouched (vouched_by v es) (run same_shape w es)
  unfolding run vouched_by
  run-IsVouched v w [] h = h
  run-IsVouched v w (e ∷ es) h =
      run-IsVouched (vouched v e) (react same_shape w e) es (react-IsVouched v w e h)

  react-cfg : (w : Watch G) (e : Event G) → (react same_shape w e).cfg ≡ w.cfg
  unfolding react note_recent locked resumed step
  react-cfg w (look o now m) = ground arith
  react-cfg w (noted at) = ground arith
  react-cfg w locks = refl
  react-cfg w (resumes now by_face) = refl

  run-cfg : (w : Watch G) (es : List (Event G)) → (run same_shape w es).cfg ≡ w.cfg
  unfolding run
  run-cfg w [] = refl
  run-cfg w (e ∷ es) = run-cfg (react same_shape w e) es ∙ react-cfg w e

  -- A look that does not go away ends within the away time of the last sighting.
  step_in_time :
      (w : Watch G) (o : Observation G) (now t : Instant)
      → (step same_shape w o now secure).0.state ≢ away
      → (step same_shape w o now secure).0.last_seen ≡ some t
      → now ≤ t + w.cfg.secure_away_seconds
  unfolding step
  step_in_time w o now t h e = ground arith

  seen_cases :
      (v d now : ℕ) (o : Option Instant)
      → UpTo v o
      → ((t : Instant) → o ≡ some t → now ≤ t + d)
      → (o ≡ none) ⊎ (now ≤ v + d)
  seen_cases v d now none u h = inl refl
  seen_cases v d now (some t) u h = inr (omega (arith, h t refl))

  -- Whatever looks in either mode, consent windows, matches, locks and unlocks came before, a look in
  -- secure mode that leaves the session open, once anything has been seen, comes at most ten minutes
  -- and the secure away time after the last moment that vouched for the user: a passing identity
  -- check, a consent window or match, an unlock, or a look made in the default mode.
  pub open_bound :
      (c : PresenceConfig) (es : List (Event G)) (o : Observation G) (now : Instant)
      → (step same_shape (run same_shape (new c) es) o now secure).0.state ≢ away
      → ((step same_shape (run same_shape (new c) es) o now secure).0.last_seen ≡ none)
        ⊎ (now
            ≤ vouched (vouched_by 0 es) (look o now secure)
              + obscured_limit
              + c.secure_away_seconds)
  open_bound c es o now h =
      let w = run same_shape (new c) es in
      let start : IsVouched {G = G} 0 (new c) =
        unfold new in record { seen_by = tt; full_by = tt } in
      let kept = step-IsVouched (vouched_by 0 es) w o now (run-IsVouched 0 (new c) es start) in
      let cfg : w.cfg ≡ c = unfold new in run-cfg (new c) es in
      seen_cases _ c.secure_away_seconds now _ kept.seen_by
        (λ t e. rw (ap (λ d. d.secure_away_seconds) cfg) at (step_in_time w o now t h e))
