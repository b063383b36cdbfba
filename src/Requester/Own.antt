-- ===== src/Requester/Own.antt =====
-- Who may be named and killed (faceauth-daemon/src/consent/requester.rs).
use omarchy_faceauth.Prelude.{
  ℕ, ◌≡◌, ◌⊎◌, inl, inr, refl, Bool, true, false, Option, none, some, Text, codes, arith,
  Option-cases,
}
use omarchy_faceauth.Requester.{clip_command}
use omarchy_faceauth.Requester.Proc.{Proc, or_blank, real_uid_of}
use omarchy_faceauth.Requester.Named.{Caller, named_by_polkit, polkit}
use omarchy_faceauth.Server.ProcView.{AgentPeer}
use omarchy_faceauth.Server.Request.{PolkitContext}

named_parts :
    (pr : Proc) (user_uid : ℕ) (c : PolkitContext) (n : ℕ × (Text × Bool))
    → named_by_polkit pr user_uid c ≡ some n
    → (real_uid_of pr n.0 ≡ some user_uid)
      × (n.1 ≡ clip_command (or_blank (pr.read n.0 (codes "cmdline"))))
unfolding named_by_polkit
named_parts pr user_uid c n h = (ground arith, ground arith)

-- Nothing is verified and nothing offered to kill; or the process offered is the one that the
-- locality check is run on, it runs as the user, and the command shown is its own command line.
abbrev pub IsOwn : Proc → ℕ → Caller → Type 0
IsOwn pr user_uid info =
    ((info.verified ≡ false) × (info.kill_pid ≡ 0) × (info.requester ≡ none))
    ⊎ ((info.verified ≡ true)
        × (info.requester ≡ some info.kill_pid)
        × (real_uid_of pr info.kill_pid ≡ some user_uid)
        × (info.command ≡ (clip_command (or_blank (pr.read info.kill_pid (codes "cmdline")))).0))

-- On the polkit lane a process is offered to kill only if it is shown as verified, and then it is
-- the requester that the locality check is run on too, it runs as the user, and the command shown
-- is its own command line, clipped; otherwise nothing is verified and nothing is offered.
pub polkit-IsOwn :
    (pr : Proc) (pid user_uid : ℕ) (agent : Option AgentPeer) (agent_comm : Text)
    (context : Option PolkitContext)
    → IsOwn pr user_uid (polkit pr pid user_uid agent agent_comm context)
unfolding polkit
polkit-IsOwn pr pid user_uid agent agent_comm none = inl (refl, refl, refl)
polkit-IsOwn pr pid user_uid agent agent_comm (some c) =
    elim (Option-cases (named_by_polkit pr user_uid c)) [
      | inl e ↦ inl (ground arith, ground arith, ground arith)
      | inr (n, e) ↦
          let (own, shown) = named_parts pr user_uid c n e in
          inr (ground arith, ground arith, ground (arith, own), ground (arith, shown))
    ]
