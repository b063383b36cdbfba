-- ===== src/Store/Disk.antt =====
-- The store's directory, and a step that fails (faceauth-daemon/src/store/files.rs).
pub mod Laws
use omarchy_faceauth.Prelude.{
  ℕ, Bool, true, false, ◌&&◌, not, Option, none, some, List, [], ◌∷◌, ◌++◌, Text, codes, text_eq,
  ◌==◌, is_some, retain, length, if◌then◌else◌,
}
use omarchy_faceauth.Store.Templates.{UserTemplates}
use omarchy_faceauth.Store.Sealing.{Sealing, UnsealFailure, definitive, transient, Creds}

pub record File : Type 0 where
  pub bytes : Text
  pub mtime : ℕ

-- The files by name, and the users with a directory of gestures and of recordings.
abbrev pub Files : Type 0
Files = List (Text × File)

pub record Fingerprint : Type 0 where
  pub path : Text
  pub len : ℕ
  pub mtime : ℕ

pub record Disk : Type 0 where
  pub files : Files
  pub gestures : List Text
  pub records : List Text

abbrev pub Cache : Type 0
Cache = List (Text × (Fingerprint × UserTemplates))

pub record Store : Type 0 where
  pub disk : Disk
  pub sealing : Sealing
  pub cache : Cache

-- Why a call fails: by the store's own checks, by the credential tool, or by the file system.
pub data Failure : Type 0 where
  bad_user too_many : Failure
  not_finite sealed_store : Text → Failure
  unreadable io : Failure
  unsealing : UnsealFailure → Failure

pub data Res {ℓ} (A : Type ℓ) : Type ℓ where
  ok : A → Res A
  err : Failure → Res A

abbrev pub either {ℓ κ} : {A : Type ℓ} {B : Type κ} → Res A → (Failure → B) → (A → B) → B
either (ok a) f g = g a
either (err e) f g = f e

-- A call that works on the store.
abbrev pub Outcome {ℓ} : Type ℓ → Type ℓ
Outcome A = Store × Res A

infixl 5 ◌>>=◌
abbrev pub ◌>>=◌ {ℓ κ} : {A : Type ℓ} {B : Type κ} → Outcome A → (Store → A → Outcome B) → Outcome B
(s, ok a) >>= f = f s a
(s, err e) >>= f = (s, err e)

-- The answers of everything outside: the accounts, serde, the credential tool, the clock, this
-- process, and which steps of the file system succeed on which name. `lists` says which entries a
-- listing of the directory gives: none, if it cannot be opened.
pub record Host : Type 0 where
  pub uid_of : Text → Option ℕ
  pub to_json : UserTemplates → Text
  pub of_json : Text → Option UserTemplates
  pub seals : Text → Text → Creds
  pub unseals : Text → Text → Creds
  pub probes : Sealing
  pub now : ℕ
  pub now_secs : ℕ
  pub pid : ℕ
  pub seq : ℕ
  pub stats : Text → Bool
  pub reads : Text → Bool
  pub creates : Text → Bool
  pub writes : Text → Bool
  pub renames : Text → Bool
  pub removes : Text → Bool
  pub lists : Text → Bool
  pub removes_dir : Text → Bool
  pub syncs : Bool

-- The files.
unfoldable pub get : Files → Text → Option File
get [] name = none
get ((n, f) ∷ fs) name = if text_eq n name then some f else get fs name

unfoldable pub exists : Files → Text → Bool
unfolding get
exists fs name = is_some (get fs name)

unfoldable pub remove : Files → Text → Files
remove fs name = retain (λ e. not (text_eq e.0 name)) fs

unfoldable pub put : Files → Text → File → Files
unfolding remove
put fs name f = (name, f) ∷ remove fs name

-- The loop over a listing that removes what a test picks, up to the first failure.
unfoldable pub sweep : (Text → Bool) → (Text → Bool) → Files → Files × Bool
sweep removes picks [] = ([], true)
sweep removes picks ((n, f) ∷ fs) =
    let (fs', done) = sweep removes picks fs in
    if picks n
    then (if removes n then (fs', done) else ((n, f) ∷ fs, false))
    else ((n, f) ∷ fs', done)

-- The cache.
unfoldable pub cached : Cache → Text → Option (Fingerprint × UserTemplates)
cached [] user = none
cached ((u, e) ∷ c) user = if text_eq u user then some e else cached c user

unfoldable pub forget : Cache → Text → Cache
forget c user = retain (λ e. not (text_eq e.0 user)) c

unfoldable pub keep : Cache → Text → Fingerprint × UserTemplates → Cache
unfolding forget
keep c user e = (user, e) ∷ forget c user

unfoldable pub fingerprint : Text → File → Fingerprint
fingerprint name f = record { path = name; len = length f.bytes; mtime = f.mtime }

abbrev pub same_fingerprint : Fingerprint → Fingerprint → Bool
same_fingerprint a b = text_eq a.path b.path && a.len == b.len && a.mtime == b.mtime

-- Does an error say that the blob itself is unreadable?
unfoldable pub is_definitive : Failure → Bool
is_definitive (unsealing definitive) = true
is_definitive (unsealing transient) = false
is_definitive io = false
is_definitive e = true
