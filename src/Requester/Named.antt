-- ===== src/Requester/Named.antt =====
-- Who is shown as asking (faceauth-daemon/src/consent/requester.rs, `CallerInfo`).
use omarchy_faceauth.Prelude.{
  ℕ, Bool, true, false, ◌&&◌, not, Option, none, some, [], ◌++◌, Text, codes, ◌==◌, map_or,
  if◌then◌else◌,
}
use omarchy_faceauth.Prelude.Splits.{is_empty_text, decimal, trim}
use omarchy_faceauth.Requester.{clip, clip_command}
use omarchy_faceauth.Requester.Proc.{
  Proc, or_blank, comm_of, real_uid_of, parent_chain, polkit_requester, is_root_service,
}
use omarchy_faceauth.Server.ProcView.{AgentPeer, ◌>>=?◌}
use omarchy_faceauth.Server.Request.{PolkitContext}

pub record Caller : Type 0 where
  pub pid : ℕ
  pub exe : Text
  pub cmdline : Text
  pub command : Text
  pub verified : Bool
  pub clipped : Bool
  pub who : Text
  pub parents : Text
  pub kill_pid : ℕ
  pub via : Text
  pub requester : Option ℕ

with_pid : Text → ℕ → Text
with_pid name pid = name ++ (codes " (pid " ++ (decimal pid ++ codes ")"))

agent_text : Option AgentPeer → Text → Text
unfolding with_pid
agent_text none comm = codes "agent not known"
agent_text (some a) comm = codes "agent " ++ with_pid (clip comm) a.pid

helper_text : ℕ → Text → Text
unfolding with_pid
helper_text pid agent =
    with_pid (codes "polkit's helper") pid
    ++ (codes ", " ++ (agent ++ codes "; polkit does not say which process asked"))

-- `CallerInfo { pid, via: "polkit", kill_pid: 0, verified: false, ..Default::default() }`.
abbrev unnamed : ℕ → Caller
unnamed pid = record {
  pid = pid;
  exe = [];
  cmdline = [];
  command = [];
  verified = false;
  clipped = false;
  who = [];
  parents = [];
  kill_pid = 0;
  via = codes "polkit";
  requester = none;
}

-- The requester that polkitd names, if it is the user's own and has a command line to read: its
-- pid, the line, and whether that was cut.
unfoldable pub named_by_polkit : Proc → ℕ → PolkitContext → Option (ℕ × (Text × Bool))
named_by_polkit pr user_uid c =
    polkit_requester c.caller_pid c.subject_pid (is_root_service pr) >>=? λ rp.
    real_uid_of pr rp >>=? λ uid.
    let cl = clip_command (or_blank (pr.read rp (codes "cmdline"))) in
    if not (uid == user_uid) then none else if is_empty_text cl.0 then none else some (rp, cl)

asked_by : Proc → Option ℕ → Option ℕ → ℕ → Text
unfolding with_pid
asked_by pr (some cp) (some sp) rp =
    if not (cp == sp) && rp == sp then codes "; asked by " ++ with_pid (comm_of pr cp) cp else []
asked_by pr _ _ rp = []

-- `CallerInfo::polkit`.
unfoldable pub polkit : Proc → ℕ → ℕ → Option AgentPeer → Text → Option PolkitContext → Caller
unfolding with_pid agent_text helper_text asked_by
polkit pr pid user_uid agent agent_comm context =
    map_or context
      (record (unnamed pid) {
        command = codes "a polkit action (no description was given)";
        who = helper_text pid (agent_text agent agent_comm);
      })
      (λ c.
        map_or (named_by_polkit pr user_uid c)
          (record (unnamed pid) {
            command = clip (trim c.message ++ (codes " [" ++ (c.action ++ codes "]")));
            who = helper_text pid (agent_text agent agent_comm);
          })
          (λ n. record (unnamed pid) {
            command = n.1.0;
            clipped = n.1.1;
            verified = true;
            kill_pid = n.0;
            requester = some n.0;
            parents = parent_chain pr n.0;
            who =
                with_pid (comm_of pr n.0) n.0
                ++ (codes "  from  "
                    ++ (parent_chain pr n.0
                        ++ (asked_by pr c.caller_pid c.subject_pid n.0
                            ++ (codes "; via polkit, " ++ agent_text agent agent_comm))));
          }))
