-- ===== src/Server/ProcView.antt =====
-- What the locality check reads of /proc and logind, and the names it takes apart
-- (faceauth-daemon/src/server/locality.rs). The kernel and logind are outside the daemon: a
-- `ProcView` is what they answer, as the trait of that name is for the source.
use omarchy_faceauth.Prelude.{
  ℕ, Bool, true, ◌&&◌, ◌||◌, not, Option, none, some, List, [], ◌∷◌, Text, codes, text_eq,
  strip_prefix, if◌then◌else◌,
}
use omarchy_faceauth.Prelude.Chars.{is_digit, is_alphanumeric, parse_u64, parse_u32, parse_i32}
use omarchy_faceauth.Prelude.Splits.{
  is_empty_text, split, lines, after_first, split_once, strip_suffix, trim,
}

-- `Result`, its error as the text that it prints.
pub data Reply {ℓ} (A : Type ℓ) : Type ℓ where
  ok : A → Reply A
  err : Text → Reply A

infixl 5 ◌>>=◌
abbrev pub ◌>>=◌ {ℓ κ} : {A : Type ℓ} {B : Type κ} → Reply A → (A → Reply B) → Reply B
ok a >>= f = f a
err e >>= f = err e

-- `ok_or_else`, with what the error says.
abbrev pub or_err {ℓ} : {A : Type ℓ} → Option A → Text → Reply A
or_err none e = err e
or_err (some a) e = ok a

-- `?` on an `Option`.
infixl 5 ◌>>=?◌
abbrev pub ◌>>=?◌ {ℓ κ} : {A : Type ℓ} {B : Type κ} → Option A → (A → Option B) → Option B
none >>=? f = none
some a >>=? f = f a

-- logind's view of a session.
pub record Session : Type 0 where
  pub uid : Option ℕ
  pub remote : Bool
  pub seat : Text
  pub class : Text

pub record ProcView : Type 0 where
  pub ppid : ℕ → Option ℕ
  pub comm : ℕ → Text
  pub real_uid : ℕ → Option ℕ
  pub cgroup : ℕ → Option Text
  pub pidfd_id : ℕ → Option ℕ
  pub user_uid : Text → Option ℕ
  pub user_sessions : ℕ → Reply Text
  pub session : Text → Reply Session
  pub session_kind : Text → Reply (Text × Bool)

-- A polkit agent: its pid, and the pidfs id that pins it.
pub record AgentPeer : Type 0 where
  pub pid : ℕ
  pub id : ℕ

abbrev value_of : Text → Text → Option Text
value_of key line = strip_prefix key line >>=? strip_prefix (codes "=")

-- The value that `loginctl show-session` prints for a key, or nothing.
unfoldable pub property : Text → List Text → Text
property key [] = []
property key (line ∷ more) = elim (value_of key line) [ some v ↦ trim v | none ↦ property key more ]

-- `LiveProcs::session` and `LiveProcs::session_kind`, from what logind printed.
unfoldable pub read_session : Text → Session
unfolding property
read_session out =
    let get = λ (key : Text). property key (lines out) in
    record {
      uid = parse_u32 (get (codes "User"));
      remote = not (text_eq (get (codes "Remote")) (codes "no"));
      seat = get (codes "Seat");
      class = get (codes "Class");
    }

unfoldable pub read_session_kind : Text → Text × Bool
unfolding property
read_session_kind out =
    let get = λ (key : Text). property key (lines out) in
    (get (codes "Type"), text_eq (get (codes "Active")) (codes "yes"))

-- OpenSSH's per-connection processes.
unfoldable pub is_ssh_comm : Text → Bool
is_ssh_comm comm =
    let c = trim comm in
    text_eq c (codes "sshd") || text_eq c (codes "sshd-session") || text_eq c (codes "sshd-auth")

-- `Option::filter`, for a text that is not empty.
abbrev pub non_empty : Text → Option Text
non_empty t = if is_empty_text t then none else some t

-- The instance of a `polkit-agent-helper@<instance>.service` unit name.
unfoldable pub polkit_helper_instance : Text → Option Text
polkit_helper_instance unit =
    strip_prefix (codes "polkit-agent-helper@") unit
    >>=? strip_suffix (codes ".service")
    >>=? non_empty

abbrev pub all : (ℕ → Bool) → Text → Bool
all p [] = true
all p (c ∷ s) = p c && all p s

-- The pid and the id of `<pid>_<id>`, or the pid alone.
abbrev pub peer_of : Text → Option (Text × Text) → Option (ℕ × Option ℕ)
peer_of part (some (pid, id)) = parse_i32 pid >>=? λ p. parse_u64 id >>=? λ i. some (p, some i)
peer_of part none = parse_i32 part >>=? λ p. some (p, none)

unfoldable pub peer_parts : List Text → Option (ℕ × Option ℕ)
peer_parts (n ∷ cookie ∷ peer ∷ uid ∷ []) =
    if is_empty_text n || is_empty_text cookie || is_empty_text peer || is_empty_text uid
    then none
    else parse_u64 n >>=? λ a.
        parse_u64 cookie >>=? λ b. parse_u32 uid >>=? λ c. peer_of peer (split_once b'_' peer)
peer_parts _ = none

-- The peer that systemd wrote into a socket-activated instance name.
unfoldable pub helper_peer : Text → Option (ℕ × Option ℕ)
unfolding peer_parts
helper_peer instance_name = peer_parts (split b'-' instance_name)

-- The first line of a listing that starts with "0::", without that.
unfoldable pub unified_path : List Text → Option Text
unified_path [] = none
unified_path (line ∷ more) = elim (strip_prefix (codes "0::") line) [
  | some p ↦ some p
  | none ↦ unified_path more
]

abbrev pub slice_uid : Text → Option Text
slice_uid slice = strip_prefix (codes "user-") slice >>=? strip_suffix (codes ".slice")

abbrev pub scope_id : Text → Option Text
scope_id scope = strip_prefix (codes "session-") scope >>=? strip_suffix (codes ".scope")

abbrev pub digits_only : Text → Bool
digits_only uid = not (is_empty_text uid) && all is_digit uid

abbrev pub id_of : Text → Option Text
id_of id = if is_empty_text id || not (all is_alphanumeric id) then none else some id

-- A user slice and a session scope, and nothing below.
unfoldable pub id_of_parts : List Text → Option Text
id_of_parts (root ∷ user ∷ slice ∷ scope ∷ []) =
    if is_empty_text root && text_eq user (codes "user.slice")
    then (slice_uid slice >>=? λ uid. if digits_only uid then scope_id scope >>=? id_of else none)
    else none
id_of_parts _ = none

-- The logind session id of a cgroup listing, if the process is directly in a session scope.
unfoldable pub session_id_from_cgroup : Text → Option Text
unfolding id_of_parts unified_path
session_id_from_cgroup cgroup =
    unified_path (lines cgroup) >>=? λ path. id_of_parts (split b'/' (trim path))

-- `splitn(3, ':').nth(2)`: the path of a line of the listing.
abbrev path_of_line : Text → Option Text
path_of_line line = after_first b':' line >>=? after_first b':'

unfoldable pub cgroup_path : List Text → Option Text
cgroup_path [] = none
cgroup_path (line ∷ more) = elim (path_of_line line) [ some p ↦ some p | none ↦ cgroup_path more ]
