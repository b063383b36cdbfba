-- ===== src/Server/Locality/Local.antt =====
-- A caller taken for local is at the machine (faceauth-daemon/src/server/locality.rs,
-- `locality_of` and `locality_with`).
use mathlib.Core.Path.{subst}
use omarchy_faceauth.Prelude.{
  sym, ap, ◌∙◌, ℕ, ◌≡◌, ◌⊎◌, inl, inr, refl, Bool, true, false, Option, none, some, Text, codes,
  arith, ◌++◌, starts_with,
}
use omarchy_faceauth.Prelude.Splits.{lines, decimal}
use omarchy_faceauth.Server.ProcView.{Reply, ok, ◌>>=◌, or_err, ProcView, AgentPeer, cgroup_path}
use omarchy_faceauth.Server.Locality.{
  Locality, local, Ancestry, reached, ssh, deep, unreadable, climb, max_depth, place, judge,
  locality_of, locality_with,
}
use omarchy_faceauth.Server.Locality.Helpers.{IsHelperOf}
use omarchy_faceauth.Server.Locality.Vouching.{
  CleanChain, climb-CleanChain, Vouched, seated_parts, or_err-ok, Seats, Follows, place-local,
}

-- The process is in a unit of the system's, by its cgroup.
abbrev pub InSystemSlice : ProcView → ℕ → Text → Type 0
InSystemSlice v p path =
    (cgroup : Text) × (v.cgroup p ≡ some cgroup)
    × (cgroup_path (lines cgroup) ≡ some path)
    × (starts_with (codes "/system.slice/") path ≡ true)

-- What a local answer of `judge` comes from.
abbrev Judged : ProcView → Option (ℕ → Reply Locality) → ℕ → Text → Option AgentPeer → Type 0
Judged v follow p user a =
    CleanChain v p
    × (target : ℕ) × (v.user_uid user ≡ some target)
    × (((v.real_uid p ≡ some 0) × (path : Text) × InSystemSlice v p path × Follows v follow path a)
        ⊎ Seats v p target a)

Ancestry-cases : (a : Ancestry) (A : Type 0) → (a ≡ reached → A) → ((a ≡ reached → ⊥) → A) → A
Ancestry-cases reached A f g = f refl
Ancestry-cases deep A f g = g (λ e. cc)
Ancestry-cases (ssh c p) A f g = g (λ e. cc)
Ancestry-cases (unreadable p) A f g = g (λ e. cc)

read_process : ProcView → Option (ℕ → Reply Locality) → ℕ → Text → Reply Locality
read_process v follow pid user = do
  real_uid ← or_err (v.real_uid pid) (codes "no uid for process " ++ decimal pid)
  cgroup ← or_err (v.cgroup pid) (codes "no cgroup for process " ++ decimal pid)
  path ← or_err (cgroup_path (lines cgroup)) (codes "no cgroup path")
  target ← or_err (v.user_uid user) (codes "unknown user " ++ user)
  place v follow real_uid cgroup path target

judge-reached :
    (v : ProcView) (follow : Option (ℕ → Reply Locality)) (p : ℕ) (user : Text)
    (a : Option AgentPeer)
    → judge v follow p user ≡ ok (local a)
    → (climb v max_depth p ≡ reached) × (read_process v follow p user ≡ ok (local a))
unfolding judge read_process
judge-reached v follow p user a h = (ground arith, ground arith)

judge-Judged :
    (v : ProcView) (follow : Option (ℕ → Reply Locality)) (p : ℕ) (user : Text)
    (a : Option AgentPeer)
    → judge v follow p user ≡ ok (local a)
    → Judged v follow p user a
unfolding read_process
judge-Judged v follow p user a h =
    let (top, h₀) = judge-reached v follow p user a h in
    let (real_uid, e₁, h₁) = or_err-ok (v.real_uid p) _ _ (local a) h₀ in
    let (cgroup, e₂, h₂) = or_err-ok (v.cgroup p) _ _ (local a) h₁ in
    let (path, e₃, h₃) = or_err-ok (cgroup_path (lines cgroup)) _ _ (local a) h₂ in
    let (target, e₄, h₄) = or_err-ok (v.user_uid user) _ _ (local a) h₃ in
    (
      climb-CleanChain v max_depth p top,
      target,
      e₄,
      elim (place-local v follow p real_uid cgroup path target a e₂ e₃ h₄) [
        | inl (root, system, follows) ↦ inl (ground arith, path, (cgroup, e₂, e₃, system), follows)
        | inr seats ↦ inr seats
      ],
    )

seated-Vouched :
    (v : ProcView) (user : Text) (p target : ℕ) (a : Option AgentPeer)
    → CleanChain v p
    → v.user_uid user ≡ some target
    → Seats v p target a
    → Vouched v user p
seated-Vouched v user p target a clean is_target (free, id, s, known, seated, belongs) =
    let (here, seat, class) = seated_parts s seated in
    record {
      chain = clean;
      target = target;
      is_target = is_target;
      id = id;
      session = s;
      known = known;
      here = here;
      seated = seat;
      of_user = class;
      belongs = belongs;
    }

-- The process that the answer is about: the caller itself, or the agent that the name of the unit of
-- polkit's helper, which the caller runs in as root, tells, pinned by its pidfs id.
abbrev pub Serves : ProcView → ℕ → Option AgentPeer → ℕ → Type 0
Serves v pid none p = p ≡ pid
Serves v pid (some agent) p =
    (p ≡ agent.pid)
    × (v.pidfd_id p ≡ some agent.id)
    × (v.real_uid pid ≡ some 0)
    × ((path : Text) × InSystemSlice v pid path × IsHelperOf agent path)

-- An agent met through a helper is not followed further.
agent-Vouched :
    (v : ProcView) (user : Text) (p : ℕ) (b : Option AgentPeer)
    → judge v none p user ≡ ok (local b)
    → Vouched v user p
agent-Vouched v user p b h =
    let (clean, target, is_target, from) = judge-Judged v none p user b h in
    elim from [
      | inl (root, path, system, (go, agent, c, e, g, k, helper, l)) ↦ absurd (cc)
      | inr seats ↦ seated-Vouched v user p target b clean is_target seats
    ]

ask-agent :
    (f go : ℕ → Reply Locality) (p : ℕ)
    → ◌≡◌ {A = Option (ℕ → Reply Locality)} (some f) (some go)
    → f p ≡ go p
ask-agent f go p e = ap (λ (o : Option (ℕ → Reply Locality)). asked o) e
  where
    asked : Option (ℕ → Reply Locality) → Reply Locality
    asked none = f p
    asked (some g) = g p

caller-Vouched :
    (v : ProcView) (user : Text) (pid : ℕ) (a : Option AgentPeer)
    → locality_of v pid user false ≡ ok (local a)
    → CleanChain v pid × ((p : ℕ) × Serves v pid a p × Vouched v user p)
unfolding locality_of
caller-Vouched v user pid a h =
    let (clean, target, is_target, from) =
      judge-Judged v (some (λ agent. judge v none agent user)) pid user a h in
    elim from [
      | inl (root, path, system, (go, agent, b, e, is_agent, pinned, helper, asked)) ↦
          let same : judge v none agent.pid user ≡ ok (local b) =
            ask-agent (λ q. judge v none q user) go agent.pid e ∙ asked in
          (
            clean,
            (
              agent.pid,
              subst (λ o. Serves v pid o agent.pid) (sym is_agent)
                  (refl, pinned, root, (path, system, helper)),
              agent-Vouched v user agent.pid b same,
            ),
          )
      | inr seats ↦ (
        clean,
        (
          pid,
          subst (λ o. Serves v pid o pid) (sym seats.0) refl,
          seated-Vouched v user pid target a clean is_target seats,
        ),
      )
    ]

locality_with-local :
    (v : ProcView) (pid : ℕ) (pidfd : Option Bool) (user : Text) (a : Option AgentPeer)
    → locality_with v pid pidfd user ≡ local a
    → (pidfd ≡ some false) × (locality_of v pid user false ≡ ok (local a))
unfolding locality_with
locality_with-local v pid pidfd user a h = (ground arith, ground arith)

-- A caller is taken for local only if its process was still running after the reads, no process
-- above it is OpenSSH's, and it is vouched for; or, if it is root's and runs in a unit of the system's
-- named `polkit-agent-helper@<instance>.service`, the agent whose pid and pidfs id the instance names
-- is, and the pid still has that id. Who is vouched for: its parents lead to init past no OpenSSH process, and a session
-- of the target user that it belongs to is not remote, is on a seat and is of class "user". No
-- helper is followed through another helper.
pub local-Vouched :
    (v : ProcView) (pid : ℕ) (pidfd : Option Bool) (user : Text) (agent : Option AgentPeer)
    → locality_with v pid pidfd user ≡ local agent
    → (pidfd ≡ some false) × CleanChain v pid × ((p : ℕ) × Serves v pid agent p × Vouched v user p)
local-Vouched v pid pidfd user agent h =
    let (alive, found) = locality_with-local v pid pidfd user agent h in
    let (clean, vouched) = caller-Vouched v user pid agent found in (alive, clean, vouched)
