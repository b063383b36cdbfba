-- ===== src/Requester/Proc.antt =====
-- What is read of /proc about a process, and the contexts of the polkit agents
-- (faceauth-daemon/src/consent/requester.rs). A `HashMap`'s queues are looked through in the order
-- of the list.
use omarchy_faceauth.Prelude.{
  ℕ, zero, suc, ◌-◌, Bool, false, ◌&&◌, Option, none, some, List, [], ◌∷◌, ◌++◌, Text, codes,
  strip_prefix, starts_with, ltb, leb, ◌==◌, is_some_and, map_or, if◌then◌else◌, Instant, Duration,
  secs, retain, first,
}
use omarchy_faceauth.Prelude.Chars.{parse_u32, parse_i32}
use omarchy_faceauth.Prelude.Splits.{split, words, lines, last_piece, decimal}
use omarchy_faceauth.Requester.{clip}
use omarchy_faceauth.Server.ProcView.{AgentPeer, ◌>>=?◌, cgroup_path}
use omarchy_faceauth.Server.Request.{PolkitContext}
use omarchy_faceauth.Server.Answers.{Contexts}

pub record Proc : Type 0 where
  pub exe : ℕ → Text
  pub read : ℕ → Text → Option Text

abbrev pub or_blank : Option Text → Text
or_blank none = []
or_blank (some t) = t

abbrev second : List Text → Option Text
second (a ∷ b ∷ ws) = some b
second _ = none

unfoldable pub ppid_of : Proc → ℕ → Option ℕ
ppid_of pr pid = pr.read pid (codes "stat") >>=? λ stat.
    second (words (last_piece (split b')' stat))) >>=? parse_i32

unfoldable pub comm_of : Proc → ℕ → Text
comm_of pr pid = clip (or_blank (pr.read pid (codes "comm")))

abbrev uid_line : List Text → Option Text
uid_line [] = none
uid_line (line ∷ more) = elim (strip_prefix (codes "Uid:") line) [
  | some v ↦ some v
  | none ↦ uid_line more
]

unfoldable pub real_uid_of : Proc → ℕ → Option ℕ
real_uid_of pr pid = pr.read pid (codes "status") >>=? λ s.
    uid_line (lines s) >>=? λ v. first (words v) >>=? parse_u32

unfoldable pub cgroup_path_of : Proc → ℕ → Text
cgroup_path_of pr pid = or_blank (pr.read pid (codes "cgroup") >>=? λ c. cgroup_path (lines c))

-- The chain above a process, four links of it.
chain : Proc → ℕ → ℕ → List Text
chain pr zero p = []
chain pr (suc n) p = elim (ppid_of pr p) [
  | none ↦ []
  | some pp ↦
      let up = chain pr n pp in
      if leb pp 1 then [] else (comm_of pr pp ++ (codes " (" ++ (decimal pp ++ codes ")"))) ∷ up
]

abbrev arrowed : List Text → Text
arrowed [] = []
arrowed (t ∷ []) = t
arrowed (t ∷ u ∷ ts) = t ++ (codes " <- " ++ arrowed (u ∷ ts))

unfoldable pub parent_chain : Proc → ℕ → Text
unfolding chain
parent_chain pr pid = arrowed (chain pr 4 pid)

abbrev above_one : Option ℕ → Option ℕ
above_one none = none
above_one (some p) = if ltb 1 p then some p else none

-- Which process a request is for, of polkitd's caller and subject.
unfoldable pub polkit_requester : Option ℕ → Option ℕ → (ℕ → Bool) → Option ℕ
polkit_requester caller subject is_root_service = above_one caller >>=? λ c.
    map_or (above_one subject) (some c) (λ s. if is_root_service c then some s else some c)

-- Is it a process of one of root's services?
unfoldable pub is_root_service : Proc → ℕ → Bool
is_root_service pr p =
    is_some_and (real_uid_of pr p) (λ u. u == 0)
    && starts_with (codes "/system.slice/") (cgroup_path_of pr p)

abbrev pub is_agent : AgentPeer → Option AgentPeer → Bool
is_agent a none = false
is_agent a (some b) = a.pid == b.pid && a.id == b.id

abbrev pub context_life : Duration
context_life = secs 120

-- The first context of the agent in a queue, and the queue without it.
unfoldable pub take_from :
    AgentPeer → List PolkitContext → Option (PolkitContext × List PolkitContext)
take_from a [] = none
take_from a (c ∷ cs) =
    let later = take_from a cs in
    if is_agent a c.agent then some (c, cs) else map_or later none (λ r. some (r.0, c ∷ r.1))

-- One round of the loop of `take_polkit_context`: stale contexts go from the queues looked at, and
-- the first context that this agent sent is taken.
unfoldable pub take_round : Instant → AgentPeer → Contexts → Contexts × Option PolkitContext
unfolding take_from
take_round now a [] = ([], none)
take_round now a ((uid, cs) ∷ m) =
    let fresh = retain (λ (c : PolkitContext). ltb (now - c.at) context_life) cs in
    let (m', later) = take_round now a m in
    map_or (take_from a fresh) ((uid, fresh) ∷ m', later) (λ r. ((uid, r.1) ∷ m, some r.0))
