-- ===== src/Server/Switch/Allowed.antt =====
-- Who switches the presence mode, and who is told the decision (faceauth-daemon/src/server/presence.rs).
use omarchy_faceauth.Prelude.{
  ℕ, ◌≡◌, ◌≢◌, ◌⊎◌, inl, inr, refl, Bool, true, Option, some, Text, text_eq_iff, F32, arith,
  Bool-cases,
}
use omarchy_faceauth.Outcome.{presence_mode}
use omarchy_faceauth.Presence.Config.{PresenceMode, PresenceConfig, parse_mode, set_presence_mode}
use omarchy_faceauth.Presence.Watch.{State}
use omarchy_faceauth.Server.Switch.{
  Change, reads, sets, denies, is_enrolled, Watched, presence_mode_change, presence_state,
  presence_query,
}

Change-cases :
    (c : Change)
    → (c ≡ reads) ⊎ ((m : PresenceMode) × (c ≡ sets m)) ⊎ ((why : Text) × (c ≡ denies why))
Change-cases reads = inl refl
Change-cases (sets m) = inr (inl (m, refl))
Change-cases (denies why) = inr (inr (why, refl))

module _ (user_uid : Text → Option ℕ) where
  sets_parts :
      (peer_uid : ℕ) (user : Text) (c : PresenceConfig) (mode : Text) (m : PresenceMode)
      → presence_mode_change user_uid peer_uid user c mode ≡ sets m
      → (c.enabled ≡ true)
        × (user ≡ c.user)
        × (user_uid c.user ≡ some peer_uid)
        × (parse_mode mode ≡ some m)
  unfolding presence_mode_change
  sets_parts peer_uid user c mode m h =
      (ground arith, ground (arith, text_eq_iff user c.user), ground arith, ground arith)

  -- A request that changes the mode in force comes from the watched user, about their own watch,
  -- while one runs and they are enrolled; and the mode is then the one it names.
  pub switched_by_watched :
      (byte : ℕ) (w : Watched) (peer_uid : ℕ) (user mode : Text)
      → (presence_query user_uid byte w peer_uid user mode).0 ≢ byte
      → (w.config.enabled ≡ true)
        × (user ≡ w.config.user)
        × (user_uid w.config.user ≡ some peer_uid)
        × (is_enrolled w.enrolled user ≡ true)
        × ((m : PresenceMode) × (parse_mode mode ≡ some m)
            × ((presence_query user_uid byte w peer_uid user mode).0 ≡ set_presence_mode m))
  unfolding presence_query
  switched_by_watched byte w peer_uid user mode moved =
      elim (Change-cases (presence_mode_change user_uid peer_uid user w.config mode)) [
        | inl e ↦ absurd (ground arith)
        | inr (inl (m, e)) ↦
            let (on, is_watched, is_peer, named) = sets_parts peer_uid user w.config mode m e in
            elim (Bool-cases (is_enrolled w.enrolled user)) [
              | inl enrolled ↦ (on, is_watched, is_peer, enrolled, (m, named, ground arith))
              | inr b ↦ absurd (ground arith)
            ]
        | inr (inr (why, e)) ↦ absurd (ground arith)
      ]

  -- What the watch last decided goes only into an answer about its own user, who is enrolled,
  -- while it is on.
  pub decision_for_watched :
      (byte : ℕ) (w : Watched) (peer_uid : ℕ) (user mode name : Text) (watching : Bool) (s : State)
      (away : Option F32)
      → (presence_query user_uid byte w peer_uid user mode).1
        ≡ presence_mode name watching (some s) away
      → (user ≡ w.config.user) × (w.config.enabled ≡ true) × (is_enrolled w.enrolled user ≡ true)
  unfolding presence_query presence_state
  decision_for_watched byte w peer_uid user mode name watching s away h =
      (ground (arith, text_eq_iff w.config.user user), ground arith, ground arith)
