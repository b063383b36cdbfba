-- ===== src/Requester/FromPid.antt =====
-- Who is asking, from a process (faceauth-daemon/src/consent/requester.rs, `CallerInfo::from_pid`).
use omarchy_faceauth.Prelude.{
  ℕ, ◌+◌, Bool, true, ◌||◌, Option, none, some, List, [], ◌∷◌, ◌++◌, Text, codes, text_eq,
  starts_with, ltb, map_or, if◌then◌else◌, Instant, Duration, millis, not, ◌&&◌, retain,
}
use omarchy_faceauth.Prelude.Splits.{is_empty_text, split, decimal, last_piece}
use omarchy_faceauth.Requester.{clip, clip_command}
use omarchy_faceauth.Requester.Proc.{Proc, or_blank, comm_of, parent_chain, take_round}
use omarchy_faceauth.Requester.Named.{Caller, polkit}
use omarchy_faceauth.Server.ProcView.{AgentPeer}
use omarchy_faceauth.Server.Request.{PolkitContext}
use omarchy_faceauth.Server.Answers.{Contexts, push_context}

-- A round of the wait for a context: the time, and the contexts that other connections have pushed
-- since the round before.
abbrev pub Round : Type 0
Round = Instant × List (ℕ × PolkitContext)

push_all : List (ℕ × PolkitContext) → Contexts → Contexts
push_all [] m = m
push_all ((uid, c) ∷ more) m = push_all more (push_context uid c m)

abbrev pub context_wait : Duration
context_wait = millis 1500

-- `take_polkit_context`; a list that ends before the wait does finds no context.
unfoldable pub take_polkit_context :
    List Round → Instant → AgentPeer → Contexts → Contexts × Option PolkitContext
unfolding push_all
take_polkit_context [] deadline a m = (m, none)
take_polkit_context ((now, pushed) ∷ more) deadline a m =
    let looked = take_round now a (push_all pushed m) in
    let later = take_polkit_context more deadline a looked.0 in
    map_or looked.1 (if ltb deadline now then looked else later) (λ c. looked)

abbrev is_named_piece : Text → Bool
is_named_piece t = not (is_empty_text t) && not (text_eq t (codes "."))

abbrev no_parent : List Text → Option Text
no_parent [] = none
no_parent (t ∷ ts) = let p = last_piece (t ∷ ts) in if text_eq p (codes "..") then none else some p

-- `Path::file_name`: the last component, unless it is the parent's.
file_name : Text → Option Text
file_name path = no_parent (retain is_named_piece (split b'/' path))

-- Does it come through polkit's helper? The link of a setuid program's executable is unreadable.
is_helper : Text → Text → Bool
is_helper base comm =
    text_eq base (codes "polkit-agent-helper-1") || starts_with (codes "polkit-agent-he") comm

base_name : Proc → ℕ → Text
unfolding file_name
base_name pr pid = map_or (file_name (pr.exe pid)) (comm_of pr pid) clip

direct : Proc → ℕ → Caller
unfolding base_name
direct pr pid =
    let cmdline = or_blank (pr.read pid (codes "cmdline")) in
    let base = base_name pr pid in
    let shown = clip_command cmdline in
    record {
      pid = pid;
      exe = pr.exe pid;
      cmdline = cmdline;
      command = shown.0;
      verified = true;
      clipped = shown.1;
      who = base ++ (codes " (pid " ++ (decimal pid ++ (codes ")  from  " ++ parent_chain pr pid)));
      parents = parent_chain pr pid;
      kill_pid = pid;
      via = base;
      requester = none;
    }

through_helper : Proc → ℕ → ℕ → Option AgentPeer → Option PolkitContext → Caller
through_helper pr pid user_uid agent context =
    record (polkit pr pid user_uid agent (map_or agent [] (λ (a : AgentPeer). comm_of pr a.pid))
      context) { exe = pr.exe pid; cmdline = or_blank (pr.read pid (codes "cmdline")) }

-- The contexts left, and the caller.
unfoldable pub from_pid :
    Proc → List Round → Instant → Contexts → ℕ → ℕ → Option AgentPeer → Contexts × Caller
unfolding is_helper base_name direct through_helper
from_pid pr rounds now m pid user_uid agent =
    if is_helper (base_name pr pid) (comm_of pr pid)
    then (let found =
          map_or agent (m, none) (λ a. take_polkit_context rounds (now + context_wait) a m) in
        (found.0, through_helper pr pid user_uid agent found.1))
    else (m, direct pr pid)
