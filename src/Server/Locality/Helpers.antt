-- ===== src/Server/Locality/Helpers.antt =====
-- The unit that polkit's helper runs in, and the agent its name tells
-- (faceauth-daemon/src/server/locality.rs, `polkit_helper_instance` and `helper_peer`).
use omarchy_faceauth.Prelude.{
  ◌≡◌, ◌∙◌, refl, ap, sym, Bool, true, false, ◌||◌, Option, none, some, List, [], ◌∷◌, ◌++◌, Text,
  codes, append-strip_prefix, strip_prefix, if◌then◌else◌, arith,
}
use omarchy_faceauth.Prelude.Chars.{parse_u64, parse_u32, parse_i32}
use omarchy_faceauth.Prelude.Splits.{
  is_empty_text, split, split_once, last_piece, trim, strip_suffix,
}
use omarchy_faceauth.Prelude.Joins.{strip_suffix-append}
use omarchy_faceauth.Server.ProcView.{
  ◌>>=?◌, AgentPeer, polkit_helper_instance, non_empty, helper_peer, peer_parts, peer_of,
}

-- An instance name that says this agent connected it: a count, a cookie, the agent's `<pid>_<id>` and
-- a uid.
abbrev pub IsInstanceOf : AgentPeer → Text → Type 0
IsInstanceOf agent name =
    (n : Text) × (cookie : Text) × (uid : Text) × (peer : Text) × (pid : Text) × (id : Text)
    × (split b'-' name ≡ n ∷ cookie ∷ peer ∷ uid ∷ [])
    × (split_once b'_' peer ≡ some (pid, id))
    × (parse_i32 pid ≡ some agent.pid)
    × (parse_u64 id ≡ some agent.id)

-- The path of a unit of polkit's helper that this agent connected.
abbrev pub IsHelperOf : AgentPeer → Text → Type 0
IsHelperOf agent path =
    (name : Text) × (codes "polkit-agent-helper@" ++ (name ++ codes ".service")
      ≡ last_piece (split b'/' (trim path)))
    × IsInstanceOf agent name

>>=?-some :
    {A B : Type 0} (o : Option A) (f : A → Option B) (b : B)
    → (o >>=? f) ≡ some b
    → (a : A) × (o ≡ some a) × (f a ≡ some b)
>>=?-some none f b h = cc
>>=?-some (some a) f b h = (a, refl, h)

unless-some :
    {A : Type 0} (c : Bool) (o : Option A) (b : A) → (if c then none else o) ≡ some b → o ≡ some b
unless-some true o b h = cc
unless-some false o b h = h

pub polkit_helper_instance-unit :
    (unit name : Text)
    → polkit_helper_instance unit ≡ some name
    → codes "polkit-agent-helper@" ++ (name ++ codes ".service") ≡ unit
unfolding polkit_helper_instance
polkit_helper_instance-unit unit name h =
    let (instance, e₁, h₁) =
      >>=?-some
        (strip_prefix (codes "polkit-agent-helper@") unit >>=? strip_suffix (codes ".service"))
        non_empty name h in
    let (more, e₂, h₂) =
      >>=?-some (strip_prefix (codes "polkit-agent-helper@") unit) (strip_suffix (codes ".service"))
        instance e₁ in
    let same : instance ≡ name = ground arith in
    ap (λ (r : Text). codes "polkit-agent-helper@" ++ (r ++ codes ".service")) (sym same)
    ∙ (ap (λ (r : Text). codes "polkit-agent-helper@" ++ r)
          (strip_suffix-append (codes ".service") more instance h₂)
        ∙ append-strip_prefix (codes "polkit-agent-helper@") unit more e₂)

peer_of-id :
    (peer : Text) (o : Option (Text × Text)) (agent : AgentPeer)
    → peer_of peer o ≡ some (agent.pid, some agent.id)
    → (pid : Text) × (id : Text) × (o ≡ some (pid, id))
      × (parse_i32 pid ≡ some agent.pid)
      × (parse_u64 id ≡ some agent.id)
peer_of-id peer none agent h =
    let (p, e, k) = >>=?-some (parse_i32 peer) _ (agent.pid, some agent.id) h in ground arith
peer_of-id peer (some (pid, id)) agent h =
    let (p, e, k) = >>=?-some (parse_i32 pid) _ (agent.pid, some agent.id) h in
    let (i, e', k') = >>=?-some (parse_u64 id) _ (agent.pid, some agent.id) k in
    (pid, id, refl, ground arith, ground arith)

peer_parts-name :
    (agent : AgentPeer) (name : Text) (ps : List Text)
    → split b'-' name ≡ ps
    → peer_parts ps ≡ some (agent.pid, some agent.id)
    → IsInstanceOf agent name
unfolding peer_parts
peer_parts-name agent name [] e h = cc
peer_parts-name agent name (n ∷ []) e h = cc
peer_parts-name agent name (n ∷ cookie ∷ []) e h = cc
peer_parts-name agent name (n ∷ cookie ∷ peer ∷ []) e h = cc
peer_parts-name agent name (n ∷ cookie ∷ peer ∷ uid ∷ q ∷ qs) e h = cc
peer_parts-name agent name (n ∷ cookie ∷ peer ∷ uid ∷ []) e h =
    let h₀ =
      unless-some
        (is_empty_text n || is_empty_text cookie || is_empty_text peer || is_empty_text uid) _
        (agent.pid, some agent.id) h in
    let (a, e₁, h₁) = >>=?-some (parse_u64 n) _ (agent.pid, some agent.id) h₀ in
    let (b, e₂, h₂) = >>=?-some (parse_u64 cookie) _ (agent.pid, some agent.id) h₁ in
    let (c, e₃, h₃) = >>=?-some (parse_u32 uid) _ (agent.pid, some agent.id) h₂ in
    let (pid, id, once, p, i) = peer_of-id peer (split_once b'_' peer) agent h₃ in
    (n, cookie, uid, peer, pid, id, e, once, p, i)

pub helper_peer-IsInstanceOf :
    (agent : AgentPeer) (name : Text)
    → helper_peer name ≡ some (agent.pid, some agent.id)
    → IsInstanceOf agent name
unfolding helper_peer
helper_peer-IsInstanceOf agent name h = peer_parts-name agent name (split b'-' name) refl h
