-- ===== src/Store/Enrolled.antt =====
-- Who is enrolled, by the names of the files (faceauth-daemon/src/store/files.rs), and the list that
-- the socket's access follows (faceauth-daemon/src/server/acl.rs).
pub mod Known
use omarchy_faceauth.Prelude.{
  ℕ, ◌≡◌, refl, sym, ◌∙◌, Bool, true, false, ◌&&◌, ◌||◌, not, Option, none, some, List, [], ◌∷◌,
  ◌++◌, map, Text, codes, text_eq, text_eq_iff, ltb, leb, ◌==◌, is_some, if◌then◌else◌, arith,
}
use omarchy_faceauth.Prelude.Splits.{strip_suffix, decimal}
use omarchy_faceauth.Store.Disk.{File, Files, Store, Host, Res, ok, get, exists}
use omarchy_faceauth.Store.Files.{sealed_name, plain_name, has, delete}
use omarchy_faceauth.Store.Files.Gone.{IsGone, delete-IsGone}

-- The order of strings.
abbrev pub text_leb : Text → Text → Bool
text_leb [] t = true
text_leb (a ∷ s) [] = false
text_leb (a ∷ s) (b ∷ t) = ltb a b || (a == b && text_leb s t)

-- `Vec::sort`, and `Vec::dedup` of what is next to its equal.
abbrev pub insert : Text → List Text → List Text
insert u [] = u ∷ []
insert u (v ∷ vs) = if text_leb u v then u ∷ v ∷ vs else v ∷ insert u vs

abbrev pub sort : List Text → List Text
sort [] = []
sort (u ∷ us) = insert u (sort us)

abbrev pub dedup_from : Text → List Text → List Text
dedup_from u [] = u ∷ []
dedup_from u (v ∷ vs) = if text_eq u v then dedup_from u vs else u ∷ dedup_from v vs

abbrev pub dedup : List Text → List Text
dedup [] = []
dedup (u ∷ us) = dedup_from u us

-- The user a file's name is of.
unfoldable pub user_of : Text → Option Text
user_of n = elim (strip_suffix (codes ".cred") n) [
  | some u ↦ some u
  | none ↦ strip_suffix (codes ".json") n
]

-- The users of the files that a listing gives.
abbrev pub users : (Text → Bool) → Files → List Text
users lists [] = []
users lists ((n, f) ∷ fs) =
    let more = users lists fs in
    if lists n then elim (user_of n) [ some u ↦ u ∷ more | none ↦ more ] else more

unfoldable pub enrolled_users : (Text → Bool) → Files → List Text
unfolding user_of
enrolled_users lists fs = dedup (sort (users lists fs))

-- The entries of the access list for the users that have an account.
unfoldable pub acl_spec : List ℕ → Text
acl_spec uids = codes "u::rw,g::rw,o::-" ++ entries uids
  where
    entries : List ℕ → Text
    entries [] = []
    entries (uid ∷ uids) = codes ",u:" ++ (decimal uid ++ (codes ":rw" ++ entries uids))

has-insert : (w u : Text) (us : List Text) → has w (insert u us) ≡ (text_eq u w || has w us)
has-insert w u [] = ground arith
has-insert w u (v ∷ vs) = ground (arith, has-insert w u vs)

pub has-sort : (w : Text) (us : List Text) → has w (sort us) ≡ has w us
has-sort w [] = refl
has-sort w (u ∷ us) = ground (arith, has-insert w u (sort us), has-sort w us)

has-dedup_from : (w u : Text) (us : List Text) → has w (dedup_from u us) ≡ (text_eq u w || has w us)
has-dedup_from w u [] = ground arith
has-dedup_from w u (v ∷ vs) =
    ground (arith, text_eq_iff u v, has-dedup_from w u vs, has-dedup_from w v vs)

pub has-dedup : (w : Text) (us : List Text) → has w (dedup us) ≡ has w us
has-dedup w [] = refl
has-dedup w (u ∷ us) = has-dedup_from w u us
