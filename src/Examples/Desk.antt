-- ===== src/Examples/Desk.antt =====
-- A machine with one user at it, as /proc and logind show it.
use omarchy_faceauth.Prelude.{
  true, false, none, some, Text, codes, ◌==◌, ◌+◌, text_eq, if◌then◌else◌,
}
use omarchy_faceauth.Server.ProcView.{ok, err, ProcView, Session}

abbrev pub ann_scope : Text
ann_scope = codes "0::/user.slice/user-1000.slice/session-2.scope"

abbrev pub ann_session : Session
ann_session = record { uid = some 1000; remote = false; seat = codes "seat0"; class = codes "user" }

-- ann at the machine: sudo, pid 40, under the shell, pid 30, under init.
abbrev pub desk : ProcView
desk = record {
  ppid = λ p. if p == 40 then some 30 else some 1;
  comm = λ p. codes "zsh";
  real_uid = λ p. some 1000;
  cgroup = λ p. some ann_scope;
  pidfd_id = λ p. some (p + 7000);
  user_uid = λ name. if text_eq name (codes "ann") then some 1000 else none;
  user_sessions = λ uid. ok (codes "2");
  session = λ id. if text_eq id (codes "2") then ok ann_session else err (codes "No such session");
  session_kind = λ id. ok (codes "wayland", true);
}
