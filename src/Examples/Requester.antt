-- ===== src/Examples/Requester.antt =====
-- Requesters at concrete inputs (faceauth-daemon/src/consent/requester.rs).
use omarchy_faceauth.Prelude.{
  ◌≡◌, refl, none, some, [], ◌∷◌, All, codes, secs, text_eq, if◌then◌else◌,
}
use omarchy_faceauth.Requester.{clip_command}
use omarchy_faceauth.Requester.Proc.{take_round}
use omarchy_faceauth.Requester.Taken.{IsOf, take_round-IsOf}
use omarchy_faceauth.Requester.Clip.{IsShown, clip_command-IsShown}
use omarchy_faceauth.Requester
use omarchy_faceauth.Requester.Proc
use omarchy_faceauth.Requester.Proc.{Proc}
use omarchy_faceauth.Prelude.Splits
use omarchy_faceauth.Requester.Named
use omarchy_faceauth.Requester.Named.{polkit}
use omarchy_faceauth.Requester.Own.{IsOwn, polkit-IsOwn}
use omarchy_faceauth.Server.ProcView.{AgentPeer}
use omarchy_faceauth.Server.Request.{PolkitContext}
use omarchy_faceauth.Server.Answers.{Contexts}

abbrev shell : AgentPeer
shell = record { pid = 500; id = 5000 }

abbrev planter : AgentPeer
planter = record { pid = 900; id = 9000 }

abbrev sent_by : AgentPeer → PolkitContext
sent_by a = record {
  action = codes "org.freedesktop.policykit.exec";
  message = codes "Authentication is needed";
  agent = some a;
  caller_pid = some 70;
  subject_pid = none;
  at = secs 1;
}

abbrev queued : Contexts
queued = (1000, sent_by planter ∷ sent_by shell ∷ []) ∷ []

the_shells_own : (take_round (secs 2) shell queued).1 ≡ some (sent_by shell)
unfolding take_round
the_shells_own = refl

take_round-IsOf_example : IsOf (secs 2) shell (sent_by shell)
take_round-IsOf_example = take_round-IsOf (secs 2) shell queued (sent_by shell) the_shells_own

clip_command-IsShown_example : All IsShown (clip_command (codes "ls\n")).0
clip_command-IsShown_example = (clip_command-IsShown (codes "ls\n")).2

-- pkexec, pid 70, started by the user.
abbrev pkexec : Proc
pkexec = record {
  exe = λ p. codes "/usr/bin/pkexec";
  read = λ p what.
      if text_eq what (codes "status")
      then some (codes "Name: pkexec\nUid: 1000 0 0 0\n")
      else some (codes "pkexec true");
}

kills :
    (polkit pkexec 60 1000 (some shell) (codes "quickshell") (some (sent_by shell))).kill_pid ≡ 70
unfolding polkit Named.named_by_polkit Proc.polkit_requester Proc.real_uid_of Splits.lines
    Splits.words clip_command Requester.cut_at Requester.kept_chars Requester.is_dropped_category
kills = refl

polkit-IsOwn_example :
    IsOwn pkexec 1000
      (polkit pkexec 60 1000 (some shell) (codes "quickshell") (some (sent_by shell)))
polkit-IsOwn_example =
    polkit-IsOwn pkexec 60 1000 (some shell) (codes "quickshell") (some (sent_by shell))
