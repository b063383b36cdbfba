-- ===== src/Server/Lanes.antt =====
-- The lanes of a request that do not ask for consent (faceauth-daemon/src/server/handle.rs).
use omarchy_faceauth.Prelude.{
  ℕ, Bool, true, false, ◌&&◌, Option, none, some, List, [], ◌∷◌, ◌++◌, Text, codes, text_eq,
  Duration, ◌==◌, map_or, if◌then◌else◌,
}
use omarchy_faceauth.Outcome.{Outcome, error, enrolled, deleted, not_enrolled}
use omarchy_faceauth.Server.ProcView.{Reply, ok, err}
use omarchy_faceauth.Server.Admit.{admit_plain_look}
use omarchy_faceauth.Server.Request.{Request, Peer, Start}
use omarchy_faceauth.Server.Switch.{is_enrolled}
use omarchy_faceauth.Server.World.{
  busy_wait, enrol_wait, Authenticator, World, Act, pings, probes, looks, deletes, enrolls, walks,
  grants, refreshes,
}

-- A lane's answer, after what it set in motion.
abbrev pub Lane : Type 0
Lane = List Act × Outcome

abbrev pub busy : Outcome
busy = error (codes "busy")

-- `match take() { Some(a) => …, None => "busy" }`.
abbrev pub with_camera : World → Duration → (Authenticator → Lane) → Lane
with_camera w wait f = elim (w.takes wait) [ none ↦ ([], busy) | some a ↦ f a ]

unfoldable pub ping_lane : World → Request → Lane
ping_lane w r = with_camera w busy_wait (λ a. (pings r.user ∷ [], a.ping r.user))

unfoldable pub probe_lane : World → Request → Lane
probe_lane w r = with_camera w busy_wait (λ a. (probes r.user ∷ [], a.probe r.user))

-- The users of the list a walk-through is granted by.
abbrev pub with_user : List Text → Text → List Text
with_user users user = if is_enrolled users user then users else users ++ user ∷ []

-- The access list goes back to the users with templates whatever the outcome.
abbrev pub and_refresh : Lane → Lane
and_refresh (acts, o) = (acts ++ refreshes ∷ [], o)

unfoldable pub walk_lane : World → Request → Start → Lane
walk_lane w r start = and_refresh (
    with_camera w enrol_wait (λ a. (
      grants (with_user a.enrolled_users r.user) ∷ walks r.user start ∷ [],
      a.walk_through r.user start,
    )))

abbrev pub is_enrolled_outcome : Outcome → Bool
is_enrolled_outcome (enrolled added total low mean path) = true
is_enrolled_outcome _ = false

abbrev pub refresh_if : Bool → Lane → Lane
refresh_if again (acts, o) = if again then (acts ++ refreshes ∷ [], o) else (acts, o)

abbrev count_of : Option ℕ → ℕ
count_of none = 10
count_of (some n) = n

unfoldable pub enroll_lane : World → Request → Text → Lane
enroll_lane w r label =
    let (acts, o) = with_camera w busy_wait (λ a.
      let s = w.clamp_seconds r.seconds in
      let n = count_of r.count in
      (enrolls r.user label s n r.enroll_pose ∷ [], a.enroll r.user label s n r.enroll_pose)) in
    refresh_if (is_enrolled_outcome o) (acts, o)

abbrev deleted_outcome : Reply Bool → Outcome
deleted_outcome (ok true) = deleted
deleted_outcome (ok false) = not_enrolled
deleted_outcome (err e) = error e

unfoldable pub delete_lane : World → Request → Lane
delete_lane w r =
    and_refresh
      (with_camera w busy_wait (λ a. (deletes r.user ∷ [], deleted_outcome (a.delete r.user))))

-- `enrol::active_for`.
unfoldable pub active_for : Option (Text × ℕ) → Text → ℕ → Bool
active_for none user uid = false
active_for (some (u, id)) user uid = text_eq u user && id == uid

-- A plain look, for a peer that may have one.
unfoldable pub look_lane : World → Peer → Request → Lane
look_lane w peer r =
    map_or (admit_plain_look peer.uid)
      (with_camera w busy_wait (λ a. (looks r.user ∷ [], a.authenticate r.user)))
      (λ why. ([], error why))
