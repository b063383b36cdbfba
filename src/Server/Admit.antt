-- ===== src/Server/Admit.antt =====
-- The small checks that let a request in (faceauth-daemon/src/server/admit.rs; `may_ask` is in
-- handle.rs).
use omarchy_faceauth.Prelude.{
  ℕ, Bool, true, false, ◌||◌, Option, none, some, List, [], ◌∷◌, Text, codes, ◌==◌, is_some_and,
  if◌then◌else◌,
}
use omarchy_faceauth.Prelude.Splits.{contains}

-- Why a plain look is refused, if it is.
unfoldable pub admit_plain_look : ℕ → Option Text
admit_plain_look peer_uid =
    if peer_uid == 0 then some (codes "a root caller needs consent") else none

-- The lids' `state` files, `none` for one that cannot be read; `seen` is whether one was read.
unfoldable pub lids_closed : Bool → List (Option Text) → Bool
lids_closed seen [] = seen
lids_closed seen (none ∷ lids) = lids_closed seen lids
lids_closed seen (some state ∷ lids) =
    let others = lids_closed true lids in if contains (codes "closed") state then others else false

-- Is every lid closed? `none` for a directory that cannot be read.
unfoldable pub lid_closed_in : Option (List (Option Text)) → Bool
unfolding lids_closed
lid_closed_in none = false
lid_closed_in (some lids) = lids_closed false lids

unfoldable pub is_own_pid : ℕ → ℕ → Bool
is_own_pid peer_pid own = peer_pid == own

unfoldable pub may_ask : ℕ → Option ℕ → Bool
may_ask peer_uid user_uid = peer_uid == 0 || is_some_and user_uid (λ u. u == peer_uid)
