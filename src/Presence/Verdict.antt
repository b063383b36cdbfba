-- ===== src/Presence/Verdict.antt =====
-- What one look decides (faceauth-daemon/src/presence/watch.rs, `Watch::step`).
use omarchy_faceauth.Prelude.{◌≡◌, ◌⊎◌, Bool, true, false, some, Instant, arith}
use omarchy_faceauth.Presence.Config.{default_mode, secure, obscured_lock_for}
use omarchy_faceauth.Presence.Watch.{away, BBox, Observation, Watch, partial_holds, step}

module _ {G : Type 0} (same_shape : G × BBox → G → Bool) (w : Watch G) (o : Observation G)
    (now : Instant) where
  -- Secure mode: a face turned to the screen that fails its check by a wide margin locks at once,
  -- whatever the clock and the shape in the chair say.
  pub stranger_locks :
      o.face ≡ true
      → o.attentive ≡ true
      → o.identity ≡ some false
      → o.near_miss ≡ false
      → w.locked_by_presence ≡ false
      → ((step same_shape w o now secure).1.state ≡ away)
        × ((step same_shape w o now secure).1.lock ≡ true)
  unfolding step
  stranger_locks f a i n l = ground arith

  -- Secure mode: the away clock moves only on a face whose check passed on this look, or while
  -- the obscured face lock time has not run out since the last clear sighting.
  pub secure_clock :
      ((step same_shape w o now secure).0.last_seen ≡ w.last_seen)
      ⊎ (((step same_shape w o now secure).0.last_seen ≡ some now)
          × (((o.face ≡ true) × (o.identity ≡ some true))
              ⊎ (partial_holds now w.last_full (obscured_lock_for w.cfg secure) ≡ true)))
  unfolding step
  secure_clock = ground arith

  -- Default mode: a face turned to the screen keeps the session open, whoever it belongs to.
  pub attentive_face_holds :
      o.face ≡ true
      → o.attentive ≡ true
      → ((step same_shape w o now default_mode).1.lock ≡ false)
        × ((step same_shape w o now default_mode).0.last_seen ≡ some now)
  unfolding step
  attentive_face_holds f a = ground arith
