-- ===== src/Examples/Server.antt =====
-- The locality check at a concrete machine (faceauth-daemon/src/server/locality.rs).
use omarchy_faceauth.Prelude.{◌≡◌, refl, false, none, some, codes}
use omarchy_faceauth.Prelude.Splits
use omarchy_faceauth.Server.ProcView.{
  ok, err, ProcView, Session, session_id_from_cgroup, helper_peer, polkit_helper_instance,
}
use omarchy_faceauth.Server.ProcView
use omarchy_faceauth.Examples.Desk.{ann_scope, desk}
use omarchy_faceauth.Server.Locality.{
  local, locality_with, locality_of, judge, climb, place, in_session,
}
use omarchy_faceauth.Server.Locality.Vouching.{CleanChain}
use omarchy_faceauth.Server.Locality.Local.{local-Vouched}

desk_scope : session_id_from_cgroup ann_scope ≡ some (codes "2")
unfolding session_id_from_cgroup ProcView.id_of_parts ProcView.unified_path Splits.lines
    Splits.split Splits.trim Splits.strip_suffix
desk_scope = refl

desk_local : locality_with desk 40 (some false) (codes "ann") ≡ local none
unfolding locality_with locality_of judge climb place in_session ProcView.is_ssh_comm Splits.trim
    ProcView.cgroup_path Splits.lines Splits.after_first session_id_from_cgroup Splits.split
    Splits.strip_suffix
desk_local = refl

local-Vouched_example : CleanChain desk 40
local-Vouched_example = (local-Vouched desk 40 (some false) (codes "ann") none desk_local).1
