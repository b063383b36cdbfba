-- ===== src/Server/Locality/Vouching.antt =====
-- What it takes to be local (faceauth-daemon/src/server/locality.rs).
use omarchy_faceauth.Prelude.{
  ℕ, zero, suc, ◌≤◌, ◌≡◌, ◌≢◌, ◌⊎◌, inl, inr, refl, true, false, Option, none, some, List, [], ◌∷◌,
  ◌++◌, Text, codes, text_eq_iff, ◌==◌, arith, Option-cases, Bool-cases, starts_with, ◌&&◌,
}
use omarchy_faceauth.Prelude.Splits.{split, words, lines, last_piece, trim}
use omarchy_faceauth.Server.ProcView.{
  Reply, ok, err, ◌>>=◌, or_err, Session, ProcView, AgentPeer, is_ssh_comm, polkit_helper_instance,
  helper_peer, session_id_from_cgroup, cgroup_path,
}
use omarchy_faceauth.Server.Locality.Helpers.{
  IsHelperOf, polkit_helper_instance-unit, helper_peer-IsInstanceOf,
}
use omarchy_faceauth.Server.Locality.{
  Why, Locality, local, remote, is_pinned, through_agent, reached, climb, is_seated, in_session,
  any_seated, manager_prefix, follow_agent, in_system_slice, place,
}

-- The parents of a process lead to init, and none of them is OpenSSH's.
pub data CleanChain (v : ProcView) : ℕ → Type 0 where
  top : {p q : ℕ} → v.ppid p ≡ some q → q ≤ 1 → CleanChain v p
  up :
      {p q : ℕ}
      → v.ppid p ≡ some q
      → is_ssh_comm (v.comm q) ≡ false
      → CleanChain v q
      → CleanChain v p

climb_step :
    (v : ProcView) (f p q : ℕ)
    → v.ppid p ≡ some q
    → climb v (suc f) p ≡ reached
    → (q ≤ 1) ⊎ ((is_ssh_comm (v.comm q) ≡ false) × (climb v f q ≡ reached))
unfolding climb
climb_step v f p q e h = ground arith

climb_unread : (v : ProcView) (f p : ℕ) → v.ppid p ≡ none → climb v (suc f) p ≢ reached
unfolding climb
climb_unread v f p e h = ground arith

pub climb-CleanChain : (v : ProcView) (f p : ℕ) → climb v f p ≡ reached → CleanChain v p
unfolding climb
climb-CleanChain v zero p h = cc
climb-CleanChain v (suc f) p h = elim (Option-cases (v.ppid p)) [
  | inl e ↦ absurd (climb_unread v f p e h)
  | inr (q, e) ↦ elim (climb_step v f p q e h) [
    | inl last ↦ top e last
    | inr (clean, above) ↦ up e clean (climb-CleanChain v f q above)
  ]
]

abbrev pub Listed : Text → List Text → Type 0
Listed id [] = ⊥
Listed id (x ∷ xs) = (x ≡ id) ⊎ Listed id xs

-- A session of the target user that the process is in: the scope its cgroup names, or, in the
-- user's own manager, one of the user's sessions.
abbrev pub Belongs : ProcView → ℕ → ℕ → Text → Session → Type 0
Belongs v p target id s =
    (cgroup : Text) × (v.cgroup p ≡ some cgroup)
    × (((session_id_from_cgroup cgroup ≡ some id) × (s.uid ≡ some target))
        ⊎ ((path : Text) × (cgroup_path (lines cgroup) ≡ some path)
            × (starts_with (manager_prefix target) path ≡ true)
            × ((ids : Text) × (v.user_sessions target ≡ ok ids) × Listed id (words ids))))

-- The process is one of `user`'s at the machine.
pub record Vouched (v : ProcView) (user : Text) (p : ℕ) : Type 0 where
  pub chain : CleanChain v p
  pub target : ℕ
  pub is_target : v.user_uid user ≡ some target
  pub id : Text
  pub session : Session
  pub known : v.session id ≡ ok session
  pub here : session.remote ≡ false
  pub seated : session.seat ≢ []
  pub of_user : session.class ≡ codes "user"
  pub belongs : Belongs v p target id session

pub seated_parts :
    (s : Session)
    → is_seated s ≡ true
    → (s.remote ≡ false) × (s.seat ≢ []) × (s.class ≡ codes "user")
seated_parts s h =
    (ground arith, λ e. ground arith, ground (arith, text_eq_iff s.class (codes "user")))

pub or_err-ok :
    {A B : Type 0} (o : Option A) (e : Text) (f : A → Reply B) (b : B)
    → (or_err o e >>= f) ≡ ok b
    → (a : A) × (o ≡ some a) × (f a ≡ ok b)
or_err-ok none e f b h = cc
or_err-ok (some a) e f b h = (a, refl, h)

>>=-ok :
    {A B : Type 0} (r : Reply A) (f : A → Reply B) (b : B)
    → (r >>= f) ≡ ok b
    → (a : A) × (r ≡ ok a) × (f a ≡ ok b)
>>=-ok (ok a) f b h = (a, refl, h)
>>=-ok (err e) f b h = cc

Reply-cases : {A : Type 0} (r : Reply A) → ((a : A) × (r ≡ ok a)) ⊎ ((e : Text) × (r ≡ err e))
Reply-cases (ok a) = inl (a, refl)
Reply-cases (err e) = inr (e, refl)

in_session-local :
    (v : ProcView) (target : ℕ) (id : Text) (a : Option AgentPeer)
    → in_session v target id ≡ ok (local a)
    → (a ≡ none)
      × (s : Session) × (v.session id ≡ ok s)
      × (s.uid ≡ some target)
      × (is_seated s ≡ true)
unfolding in_session
in_session-local v target id a h = elim (Reply-cases (v.session id)) [
  | inr (e, r) ↦ ground arith
  | inl (s, r) ↦ (ground arith, s, r, ground arith, ground arith)
]

any_seated-local :
    (v : ProcView) (ids : List Text) (a : Option AgentPeer)
    → any_seated v ids ≡ ok (local a)
    → (a ≡ none)
      × (id : Text) × (s : Session) × Listed id ids
      × (v.session id ≡ ok s)
      × (is_seated s ≡ true)
unfolding any_seated
any_seated-local v [] a h = cc
any_seated-local v (id ∷ ids) a h = elim (Reply-cases (v.session id)) [
  | inl (s, r) ↦ elim (Bool-cases (is_seated s)) [
    | inl seated ↦ (ground arith, id, s, inl refl, r, seated)
    | inr other ↦
        let (free, i, t, l, k, seated) = any_seated-local v ids a (ground arith) in
        (free, i, t, inr l, k, seated)
  ]
  | inr (e, r) ↦
      let (free, i, t, l, k, seated) = any_seated-local v ids a (ground arith) in
      (free, i, t, inr l, k, seated)
]

-- A local answer of steps 3 and 4 comes with a session that vouches.
abbrev pub Seats : ProcView → ℕ → ℕ → Option AgentPeer → Type 0
Seats v p target a =
    (a ≡ none)
    × (id : Text) × (s : Session) × (v.session id ≡ ok s)
    × (is_seated s ≡ true)
    × Belongs v p target id s

-- A local answer of step 2 is the answer for the agent that polkit's helper was connected by.
abbrev pub Follows : ProcView → Option (ℕ → Reply Locality) → Text → Option AgentPeer → Type 0
Follows v follow path a =
    (go : ℕ → Reply Locality) × (agent : AgentPeer) × (b : Option AgentPeer) × (follow ≡ some go)
    × (a ≡ some agent)
    × (v.pidfd_id agent.pid ≡ some agent.id)
    × IsHelperOf agent path
    × (go agent.pid ≡ ok (local b))

Locality-cases :
    (l : Locality) → ((b : Option AgentPeer) × (l ≡ local b)) ⊎ ((why : Why) × (l ≡ remote why))
Locality-cases (local b) = inl (b, refl)
Locality-cases (remote why) = inr (why, refl)

pinned_id : (id : ℕ) (o : Option ℕ) → is_pinned id o ≡ true → o ≡ some id
pinned_id id none h = cc
pinned_id id (some i) h = ground arith

agent_answer :
    (v : ProcView) (go : ℕ → Reply Locality) (path : Text) (agent id : ℕ) (a : Option AgentPeer)
    → IsHelperOf (record { pid = agent; id = id }) path
    → v.pidfd_id agent ≡ some id
    → (go agent >>= λ l. ok (through_agent agent id l)) ≡ ok (local a)
    → Follows v (some go) path a
agent_answer v go path agent id a helper e h =
    let (l, g, k) = >>=-ok (go agent) (λ l. ok (through_agent agent id l)) (local a) h in
    elim (Locality-cases l) [
      | inl (b, w) ↦
          (go, record { pid = agent; id = id }, b, refl, ground arith, e, helper, ground arith)
      | inr (why, w) ↦ ground arith
    ]

follow_agent-Follows :
    (v : ProcView) (follow : Option (ℕ → Reply Locality)) (path name : Text)
    (peer : Option (ℕ × Option ℕ)) (a : Option AgentPeer)
    → codes "polkit-agent-helper@" ++ (name ++ codes ".service")
      ≡ last_piece (split b'/' (trim path))
    → helper_peer name ≡ peer
    → follow_agent v follow name peer ≡ ok (local a)
    → Follows v follow path a
unfolding follow_agent
follow_agent-Follows v none path name peer a u n h = cc
follow_agent-Follows v (some go) path name none a u n h = cc
follow_agent-Follows v (some go) path name (some (agent, none)) a u n h = cc
follow_agent-Follows v (some go) path name (some (agent, some id)) a u n h =
    let helper : IsHelperOf (record { pid = agent; id = id }) path =
      (name, u, helper_peer-IsInstanceOf (record { pid = agent; id = id }) name n) in
    elim (Bool-cases (is_pinned id (v.pidfd_id agent))) [
      | inl pinned ↦
          agent_answer v go path agent id a helper (pinned_id id _ pinned) (rw pinned at h)
      | inr other ↦ absurd (let k = rw other at h in cc)
    ]

in_system_slice-Follows :
    (v : ProcView) (follow : Option (ℕ → Reply Locality)) (path : Text) (a : Option AgentPeer)
    → in_system_slice v follow path ≡ ok (local a)
    → Follows v follow path a
unfolding in_system_slice
in_system_slice-Follows v follow path a h =
    let unit = last_piece (split b'/' (trim path)) in
    elim (Option-cases (polkit_helper_instance unit)) [
      | inl e ↦ ground arith
      | inr (name, e) ↦
          follow_agent-Follows v follow path name (helper_peer name) a
            (polkit_helper_instance-unit unit name e) refl (ground arith)
    ]

pub place-local :
    (v : ProcView) (follow : Option (ℕ → Reply Locality)) (p real_uid : ℕ) (cgroup path : Text)
    (target : ℕ) (a : Option AgentPeer)
    → v.cgroup p ≡ some cgroup
    → cgroup_path (lines cgroup) ≡ some path
    → place v follow real_uid cgroup path target ≡ ok (local a)
    → ((real_uid ≡ 0)
        × (starts_with (codes "/system.slice/") path ≡ true)
        × Follows v follow path a)
      ⊎ Seats v p target a
unfolding place
place-local v follow p real_uid cgroup path target a cg cp h =
    elim (Bool-cases (real_uid == 0 && starts_with (codes "/system.slice/") path)) [
      | inl root ↦
          inl (ground arith, ground arith, in_system_slice-Follows v follow path a (rw root at h))
      | inr user ↦ elim (Option-cases (session_id_from_cgroup cgroup)) [
        | inr (id, e) ↦
            let (free, s, k, mine, seated) = in_session-local v target id a (ground arith) in
            inr (free, id, s, k, seated, (cgroup, cg, inl (e, mine)))
        | inl e ↦ elim (Bool-cases (starts_with (manager_prefix target) path)) [
          | inr outside ↦ ground arith
          | inl inside ↦
              let (ids, u, k) =
                >>=-ok (v.user_sessions target) (λ ids. any_seated v (words ids)) (local a)
                  (ground arith) in
              let (free, id, s, l, known, seated) = any_seated-local v (words ids) a k in
              inr (free, id, s, known, seated, (cgroup, cg, inr (path, cp, inside, (ids, u, l))))
        ]
      ]
    ]
