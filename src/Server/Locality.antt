-- ===== src/Server/Locality.antt =====
-- Where a request comes from (faceauth-daemon/src/server/locality.rs). A caller is local only if
-- every step below shows it; a reason for the other answer is held by what it names, and `Wording`
-- has its words.
pub mod Helpers
pub mod Vouching
pub mod Local
pub mod Scopes
pub mod Wording
use omarchy_faceauth.Prelude.{
  ℕ, zero, suc, Bool, true, false, ◌&&◌, ◌||◌, not, Option, none, some, List, [], ◌∷◌, ◌++◌, Text,
  codes, text_eq, ◌==◌, leb, if◌then◌else◌, starts_with,
}
use omarchy_faceauth.Prelude.Splits.{
  is_empty_text, split, words, lines, last_piece, trim, contains, decimal,
}
use omarchy_faceauth.Server.ProcView.{
  Reply, ok, err, ◌>>=◌, or_err, Session, ProcView, AgentPeer, is_ssh_comm, polkit_helper_instance,
  helper_peer, session_id_from_cgroup, cgroup_path,
}

pub data Why : Type 0 where
  under_ssh : Text → ℕ → Why
  too_deep : Why
  root_service : Text → Why
  helper_of_helper : Why
  unnamed_agent unpinned_agent : Text → Why
  agent_gone : ℕ → Text → Why
  of_agent : ℕ → Why → Why
  other_users_session remote_session : Text → Why
  no_local_session : Why
  not_a_session : Text → Why
  unpinned exited : Why
  unverified : Text → Why

pub data Locality : Type 0 where
  local : Option AgentPeer → Locality
  remote : Why → Locality

-- The parent chain: it reached init, met OpenSSH, was too deep, or could not be read.
pub data Ancestry : Type 0 where
  reached deep : Ancestry
  ssh : Text → ℕ → Ancestry
  unreadable : ℕ → Ancestry

-- How far up the chain is read.
abbrev pub max_depth : ℕ
max_depth = 128

unfoldable pub climb : ProcView → ℕ → ℕ → Ancestry
climb v zero p = deep
climb v (suc f) p = elim (v.ppid p) [
  | none ↦ unreadable p
  | some pp ↦
      let up = climb v f pp in
      if leb pp 1 then reached else if is_ssh_comm (v.comm pp) then ssh (v.comm pp) pp else up
]

-- A session that is not remote, on a seat, of class "user".
abbrev pub is_seated : Session → Bool
is_seated s = not s.remote && not (is_empty_text s.seat) && text_eq s.class (codes "user")

abbrev is_uid_of : ℕ → Option ℕ → Bool
is_uid_of target none = false
is_uid_of target (some uid) = uid == target

-- 3. A logind session of its own, which must be the target user's.
unfoldable pub in_session : ProcView → ℕ → Text → Reply Locality
in_session v target id = v.session id >>= λ s.
    if not (is_uid_of target s.uid)
    then ok (remote (other_users_session id))
    else ok (if is_seated s then local none else remote (remote_session id))

-- 4. The sessions of the target user: one that is seated is enough.
unfoldable pub any_seated : ProcView → List Text → Reply Locality
any_seated v [] = ok (remote no_local_session)
any_seated v (id ∷ ids) = elim (v.session id) [
  | ok s ↦ let rest = any_seated v ids in if is_seated s then ok (local none) else rest
  | err e ↦ let rest = any_seated v ids in if contains (codes "known") e then rest else err e
]

-- The cgroup of everything in the target user's own manager.
unfoldable pub manager_prefix : ℕ → Text
manager_prefix uid =
    codes "/user.slice/user-"
    ++ decimal uid
    ++ codes ".slice/user@"
    ++ decimal uid
    ++ codes ".service/"

abbrev through_agent : ℕ → ℕ → Locality → Locality
through_agent agent id (local _) = local (some (record { pid = agent; id = id }))
through_agent agent id (remote why) = remote (of_agent agent why)

abbrev is_pinned : ℕ → Option ℕ → Bool
is_pinned id none = false
is_pinned id (some i) = i == id

-- The agent that a helper's instance names, followed if there is a way on.
follow_agent :
    ProcView → Option (ℕ → Reply Locality) → Text → Option (ℕ × Option ℕ) → Reply Locality
follow_agent v none name peer = ok (remote helper_of_helper)
follow_agent v (some go) name none = ok (remote (unnamed_agent name))
follow_agent v (some go) name (some (agent, none)) = ok (remote (unpinned_agent name))
follow_agent v (some go) name (some (agent, some id)) =
    if is_pinned id (v.pidfd_id agent)
    then (go agent >>= λ l. ok (through_agent agent id l))
    else ok (remote (agent_gone agent name))

-- 2. Root's services: only polkit's helper, and only through to the agent that connected it.
unfoldable pub in_system_slice : ProcView → Option (ℕ → Reply Locality) → Text → Reply Locality
unfolding follow_agent
in_system_slice v follow path =
    let unit = last_piece (split b'/' (trim path)) in
    elim (polkit_helper_instance unit) [
      | none ↦ ok (remote (root_service unit))
      | some name ↦ follow_agent v follow name (helper_peer name)
    ]

-- Steps 2 to 5, once the chain has reached init.
unfoldable pub place : ProcView → Option (ℕ → Reply Locality) → ℕ → Text → Text → ℕ → Reply Locality
unfolding in_system_slice in_session
place v follow real_uid cgroup path target =
    if real_uid == 0 && starts_with (codes "/system.slice/") path
    then in_system_slice v follow path
    else elim (session_id_from_cgroup cgroup) [
      | some id ↦ in_session v target id
      | none ↦
          if starts_with (manager_prefix target) path
          then (v.user_sessions target >>= λ ids. any_seated v (words ids))
          else ok (remote (not_a_session path))
    ]

-- One call of `locality_of`: `follow` is the call on an agent, which a helper met through another
-- helper does not get.
unfoldable pub judge : ProcView → Option (ℕ → Reply Locality) → ℕ → Text → Reply Locality
judge v follow pid user = elim (climb v max_depth pid) [
  | unreadable p ↦ err (codes "process " ++ (decimal p ++ codes " unreadable"))
  | ssh comm p ↦ ok (remote (under_ssh comm p))
  | deep ↦ ok (remote too_deep)
  | reached ↦ do
    real_uid ← or_err (v.real_uid pid) (codes "no uid for process " ++ decimal pid)
    cgroup ← or_err (v.cgroup pid) (codes "no cgroup for process " ++ decimal pid)
    path ← or_err (cgroup_path (lines cgroup)) (codes "no cgroup path")
    target ← or_err (v.user_uid user) (codes "unknown user " ++ user)
    place v follow real_uid cgroup path target
]

unfoldable pub locality_of : ProcView → ℕ → Text → Bool → Reply Locality
unfolding judge
locality_of v pid user true = judge v none pid user
locality_of v pid user false = judge v (some (λ agent. judge v none agent user)) pid user

-- The peer's pidfd, as far as it is read: whether its process has exited.
abbrev pub Pidfd : Type 0
Pidfd = Bool

unfoldable pub locality_with : ProcView → ℕ → Option Pidfd → Text → Locality
unfolding locality_of
locality_with v pid pidfd user = elim (locality_of v pid user false) [
  | err e ↦ remote (unverified e)
  | ok (remote why) ↦ remote why
  | ok (local agent) ↦ elim pidfd [
    | none ↦ remote unpinned
    | some true ↦ remote exited
    | some false ↦ local agent
  ]
]

-- Does the user have a graphical session in the foreground on its seat?
is_foreground : Reply (Text × Bool) → Bool
is_foreground (err e) = false
is_foreground (ok (kind, active)) =
    active && (text_eq kind (codes "wayland") || text_eq kind (codes "x11"))

any_foreground : ProcView → List Text → Bool
unfolding is_foreground
any_foreground v [] = false
any_foreground v (id ∷ ids) = is_foreground (v.session_kind id) || any_foreground v ids

unfoldable pub active_graphical_session : ProcView → ℕ → Bool
unfolding any_foreground
active_graphical_session v uid = elim (v.user_sessions uid) [
  | err e ↦ false
  | ok ids ↦ any_foreground v (words ids)
]
