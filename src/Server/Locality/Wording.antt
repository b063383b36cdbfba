-- ===== src/Server/Locality/Wording.antt =====
-- The words of a remote answer (faceauth-daemon/src/server/locality.rs).
use omarchy_faceauth.Prelude.{Text, codes, ◌++◌}
use omarchy_faceauth.Prelude.Splits.{trim, decimal}
use omarchy_faceauth.Server.Locality.{
  Why, under_ssh, too_deep, root_service, helper_of_helper, unnamed_agent, unpinned_agent,
  agent_gone, of_agent, other_users_session, remote_session, no_local_session, not_a_session,
  unpinned, exited, unverified,
}

-- What `Locality::Remote` says of a request for `user`.
unfoldable pub why_text : Text → Why → Text
why_text user (under_ssh comm pid) =
    codes "started under " ++ (comm ++ (codes " (pid " ++ (decimal pid ++ codes ")")))
why_text user too_deep = codes "ancestry deeper than 128 without reaching init"
why_text user (root_service unit) = codes "root service " ++ (unit ++ codes " is not a session")
why_text user helper_of_helper = codes "a polkit helper connected by another polkit helper"
why_text user (unnamed_agent name) =
    codes "polkit helper instance " ++ (name ++ codes " does not name its agent")
why_text user (unpinned_agent name) =
    codes "polkit helper instance " ++ (name ++ codes " carries no pidfd id to pin its agent")
why_text user (agent_gone pid name) =
    codes "the agent (pid "
    ++ (decimal pid ++ (codes ") that connected polkit helper " ++ (name ++ codes " is gone")))
why_text user (of_agent pid why) =
    codes "polkit agent pid " ++ (decimal pid ++ (codes ": " ++ why_text user why))
why_text user (other_users_session id) =
    codes "logind session " ++ (id ++ (codes " is not " ++ (user ++ codes "'s")))
why_text user (remote_session id) =
    codes "logind session " ++ (id ++ codes " is remote or seatless")
why_text user no_local_session = user ++ codes " has no local session on a seat"
why_text user (not_a_session path) =
    codes "caller in " ++ (trim path ++ (codes " is not a session of " ++ user))
why_text user unpinned = codes "no peer pidfd to pin the caller"
why_text user exited = codes "caller exited before it could be verified"
why_text user (unverified e) = codes "cannot verify the caller: " ++ e
