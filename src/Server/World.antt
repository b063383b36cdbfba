-- ===== src/Server/World.antt =====
-- What one connection reads and what it sets in motion (faceauth-daemon/src/server/handle.rs).
use omarchy_faceauth.Prelude.{ℕ, Bool, Option, List, Text, Instant, Duration, F32, secs, millis}
use omarchy_faceauth.Outcome.{Outcome}
use omarchy_faceauth.Backoff.{Refusals}
use omarchy_faceauth.Consent.State.{Queue}
use omarchy_faceauth.Requester.Proc.{Proc}
use omarchy_faceauth.Requester.FromPid.{Round}
use omarchy_faceauth.Server.ProcView.{Reply, ProcView}
use omarchy_faceauth.Server.Request.{Request, Start}
use omarchy_faceauth.Server.Answers.{Contexts}
use omarchy_faceauth.Server.Switch.{Watched}

abbrev pub busy_wait : Duration
busy_wait = millis 1500

abbrev pub enrol_wait : Duration
enrol_wait = secs 6

-- What the authenticator answers while its lock is held.
pub record Authenticator : Type 0 where
  pub ping : Text → Outcome
  pub probe : Text → Outcome
  pub authenticate : Text → Outcome
  pub enroll : Text → Text → F32 → ℕ → Option Text → Outcome
  pub delete : Text → Reply Bool
  pub walk_through : Text → Start → Outcome
  pub enrolled_users : List Text

-- Everything outside the daemon's own state that a request may read: `own_pid`, /proc and logind
-- (as the locality check and as the card read them), the rounds of a wait for a context, the lids,
-- serde, the time, the authenticator if its lock is had within a time, the running walk-through's
-- user, and the seconds of an enrolment clamped as a float.
pub record World : Type 0 where
  pub own_pid : ℕ
  pub procs : ProcView
  pub lids : Option (List (Option Text))
  pub parses : Text → Option Request
  pub now : Instant
  pub files : Proc
  pub rounds : List Round
  pub pidfd_of : ℕ → Option Bool
  pub takes : Duration → Option Authenticator
  pub walking : Option (Text × ℕ)
  pub watched : Watched
  pub clamp_seconds : Option F32 → F32

-- The state that requests share: the consent queue, the standing refusals, the agents' contexts,
-- the presence mode's byte and the words for the running walk-through.
pub record Daemon : Type 0 where
  pub consent : Queue
  pub refusals : Refusals
  pub contexts : Contexts
  pub mode : ℕ
  pub control : List Text

-- What a request has the rest of the daemon do.
pub data Act : Type 0 where
  pings probes looks deletes : Text → Act
  enrolls : Text → Text → F32 → ℕ → Option Text → Act
  walks : Text → Start → Act
  -- `apply_socket_acl` with these users, and `refresh_socket_acl`.
  grants : List Text → Act
  refreshes : Act
  -- `consent::notify` of a refusal that stands.
  notifies : Text → Duration → Act
  releases_slot : Act
