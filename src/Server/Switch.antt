-- ===== src/Server/Switch.antt =====
-- The presence mode, read and switched over the socket (faceauth-daemon/src/server/presence.rs).
-- A refusal's message is held without the quoting that `{:?}` gives the mode it names.
pub mod Allowed
use omarchy_faceauth.Prelude.{
  ℕ, ◌≡◌, ◌≢◌, ◌⊎◌, inl, inr, refl, Bool, true, false, ◌&&◌, ◌||◌, not, Option, none, some, List,
  [], ◌∷◌, ◌++◌, Text, codes, text_eq, text_eq_iff, F32, ◌==◌, is_some_and, if◌then◌else◌, arith,
}
use omarchy_faceauth.Prelude.Splits.{is_empty_text}
use omarchy_faceauth.Outcome.{Outcome, error, presence_mode}
use omarchy_faceauth.Presence.Config.{
  PresenceMode, PresenceConfig, parse_mode, mode_name, set_presence_mode,
}
use omarchy_faceauth.Presence.Config
use omarchy_faceauth.Presence.Watch.{State}

-- What a request asks of the mode.
pub data Change : Type 0 where
  reads : Change
  sets : PresenceMode → Change
  denies : Text → Change

-- `acl::is_enrolled`.
unfoldable pub is_enrolled : List Text → Text → Bool
is_enrolled [] user = false
is_enrolled (u ∷ users) user = text_eq u user || is_enrolled users user

-- The watch's last decision (presence/run.rs), as far as it is answered.
pub record Snapshot : Type 0 where
  pub state : State
  pub attentive : Bool
  pub away_for : Option F32
  pub locked_by_presence : Bool

-- The statics that a request of the mode reads.
pub record Watched : Type 0 where
  pub config : PresenceConfig
  pub enrolled : List Text
  pub last : Option Snapshot

module _ (user_uid : Text → Option ℕ) where
  unfoldable pub presence_mode_change : ℕ → Text → PresenceConfig → Text → Change
  presence_mode_change peer_uid user watched mode =
      if text_eq mode (codes "query") then reads else elim (parse_mode mode) [
        | none ↦ denies (
            codes "unknown presence mode "
            ++ (mode ++ codes "; \"default\", \"secure\" or \"query\""))
        | some m ↦
            if not watched.enabled || is_empty_text watched.user
            then denies (codes "the presence watch is off")
            else if not (text_eq user watched.user)
                || not (is_some_and (user_uid watched.user) (λ u. u == peer_uid))
            then denies (codes "only the watched user may set the presence mode")
            else sets m
      ]

abbrev and_then : Option Snapshot → (Snapshot → Option F32) → Option F32
and_then none f = none
and_then (some s) f = f s

abbrev state_of : Option Snapshot → Option State
state_of none = none
state_of (some s) = some s.state

-- `byte` is the mode in force, `MODE`.
unfoldable pub presence_state : Watched → Text → Bool → ℕ → Outcome
presence_state w user enrolled byte =
    let watching = w.config.enabled && text_eq w.config.user user && enrolled in
    let last = if watching then w.last else none in
    presence_mode (mode_name (Config.presence_mode byte)) watching (state_of last)
      (and_then last (λ s. s.away_for))

module _ (user_uid : Text → Option ℕ) where
  -- The mode byte that the request leaves, and the answer.
  unfoldable pub presence_query : ℕ → Watched → ℕ → Text → Text → ℕ × Outcome
  unfolding presence_mode_change presence_state is_enrolled
  presence_query byte w peer_uid user mode =
      let enrolled = is_enrolled w.enrolled user in
      elim (presence_mode_change user_uid peer_uid user w.config mode) [
        | sets m ↦
            if not enrolled
            then (byte, error (user ++ codes " is not enrolled"))
            else let byte' = set_presence_mode m in (byte', presence_state w user enrolled byte')
        | reads ↦ (byte, presence_state w user enrolled byte)
        | denies why ↦ (byte, error why)
      ]
