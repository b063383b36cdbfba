-- ===== src/Store/Files.antt =====
-- Loading, saving, setting aside and deleting a user's set (faceauth-daemon/src/store/files.rs).
-- Bytes and the text they spell are one list; a file whose bytes spell none is one that `reads`
-- refuses.
pub mod Names
pub mod Sticky
pub mod Runs
pub mod Saved
pub mod Reload
pub mod Gone
pub mod Neighbours
pub mod Owner
pub mod Loads
use omarchy_faceauth.Prelude.{
  ℕ, ◌+◌, Bool, true, false, ◌&&◌, ◌||◌, not, Option, none, some, List, [], ◌∷◌, ◌++◌, Text, codes,
  text_eq, ltb, ◌==◌, is_some, is_some_and, map_or, retain, length, starts_with, if◌then◌else◌,
}
use omarchy_faceauth.Prelude.Chars.{is_control, is_whitespace, any}
use omarchy_faceauth.Prelude.Splits.{is_empty_text, contains, decimal}
use omarchy_faceauth.Store.Templates.{
  UserTemplates, format_version, max_templates, non_finite_field,
}
use omarchy_faceauth.Store.Sealing.{Sealing, tpm, plain, is_tpm, Creds, bytes, fails, cred_name}
use omarchy_faceauth.Store.Disk.{
  File, Files, Fingerprint, Disk, Store, Failure, bad_user, too_many, not_finite, sealed_store,
  unreadable, io, unsealing, Res, ok, err, either, Outcome, ◌>>=◌, Host, get, exists, remove, put,
  sweep, cached, forget, keep, fingerprint, same_fingerprint, is_definitive,
}

unfoldable pub check_user : Text → Bool
check_user user = not (
    is_empty_text user
    || contains (codes "/") user
    || contains (codes "..") user
    || any (λ c. is_control c || is_whitespace c) user)

abbrev pub plain_name : Text → Text
plain_name user = user ++ codes ".json"

abbrev pub sealed_name : Text → Text
sealed_name user = user ++ codes ".cred"

abbrev pub tmp_prefix : Text → Text
tmp_prefix user = user ++ codes ".tmp-"

abbrev pub aside_prefix : Text → Text
aside_prefix user = user ++ codes ".cred.unreadable-"

abbrev pub own_prefix : Text → ℕ → Text
own_prefix user pid = user ++ (codes ".tmp-" ++ (decimal pid ++ codes "-"))

-- `target.with_extension(..)`, for either target.
abbrev pub tmp_name : Host → Text → Text
tmp_name h user = user ++ (codes ".tmp-" ++ (decimal h.pid ++ (codes "-" ++ decimal h.seq)))

abbrev pub with_files : Store → Files → Store
with_files s fs = record s { disk = record s.disk { files = fs } }

abbrev pub is_sealed : Store → Text → Bool
is_sealed s user = check_user user && exists s.disk.files (sealed_name user)

unfoldable pub uid_matches : Host → UserTemplates → Bool
uid_matches h t = map_or (h.uid_of t.user) true (λ now. t.uid == now)

abbrev pub if_matches : Host → UserTemplates → Option UserTemplates
if_matches h t = if uid_matches h t then some t else none

unfoldable pub parse : Host → Text → Text → Res (Option UserTemplates)
unfolding uid_matches
parse h text user = map_or (h.of_json text) (err unreadable) (λ t.
    if not (t.version == format_version)
    then err unreadable
    else if not (text_eq t.user user)
    then err unreadable
    else ok (if_matches h t))

abbrev pub is_stale : Text → Option ℕ → Text → Bool
is_stale user keep_pid n =
    starts_with (tmp_prefix user) n
    && not (is_some_and keep_pid (λ p. starts_with (own_prefix user p) n))

abbrev pub swept : Store → Files × Bool → Outcome (Unit {0})
swept s (fs, true) = (with_files s fs, ok tt)
swept s (fs, false) = (with_files s fs, err io)

-- The loops over the directory pass over an entry that a listing does not give, and over all of them
-- if there is none.
abbrev pub listed : Host → (Text → Bool) → Text → Bool
listed h picks n = h.lists n && picks n

unfoldable pub remove_stale_temps : Host → Store → Text → Option ℕ → Outcome (Unit {0})
remove_stale_temps h s user keep_pid =
    if not (check_user user)
    then (s, err bad_user)
    else swept s (sweep h.removes (listed h (is_stale user keep_pid)) s.disk.files)

-- The staging file goes with the guard that holds it.
abbrev pub unlink : Host → Store → Text → File → Store
unlink h s tmp f = if h.removes tmp then s else with_files s (put s.disk.files tmp f)

-- A staging file that is there already goes, too, when it cannot be made anew.
abbrev pub abandoned : Host → Store → Text → Store
abandoned h s tmp = if h.removes tmp then with_files s (remove s.disk.files tmp) else s

abbrev pub remember : Host → Store → Text → File → UserTemplates → Store
remember h s target f t =
    if h.stats target
    then record s { cache = keep s.cache t.user (fingerprint target f, t) }
    else record s { cache = forget s.cache t.user }

-- The other form goes, the directory is synced, and the set is cached.
finish_put : Host → Store → Text → File → Option Text → UserTemplates → Outcome Text
finish_put h s target f other t =
    let gone = map_or other s (λ o. with_files s (remove s.disk.files o)) in
    if is_some_and other (λ o. exists s.disk.files o && not (h.removes o))
    then (s, err io)
    else if not h.syncs
    then (gone, err io)
    else (remember h gone target f t, ok target)

-- The staging file, and the rename that puts it in place.
unfoldable pub put_file : Host → Store → Text → Text → Option Text → UserTemplates → Outcome Text
unfolding finish_put
put_file h s target text other t =
    let tmp = tmp_name h t.user in
    let f : File = record { bytes = text; mtime = h.now } in
    if not (h.creates tmp)
    then (abandoned h s tmp, err io)
    else if not (h.writes tmp && h.renames tmp)
    then (unlink h s tmp f, err io)
    else finish_put h (with_files s (put s.disk.files target f)) target f other t

abbrev pub save_blob : Host → Store → UserTemplates → Creds → Outcome Text
save_blob h s t (bytes blob) = put_file h s (sealed_name t.user) blob (some (plain_name t.user)) t
save_blob h s t (fails k) = (s, err (unsealing k))

unfoldable pub save_sealed : Host → Store → UserTemplates → Outcome Text
save_sealed h s t = save_blob h s t (h.seals (cred_name t.user) (h.to_json t))

unfoldable pub save_plain : Host → Store → UserTemplates → Outcome Text
save_plain h s t = put_file h s (plain_name t.user) (h.to_json t) none t

-- Sealed where this machine can, and never in plaintext over a sealed file.
abbrev pub save_by : Host → Store → UserTemplates → Sealing → Outcome Text
save_by h s t tpm = save_sealed h s t
save_by h s t (plain why) =
    if exists s.disk.files (sealed_name t.user)
    then (if is_tpm h.probes
        then save_sealed h (record s { sealing = tpm }) t
        else (s, err (sealed_store why)))
    else save_plain h s t

unfoldable pub save : Host → Store → UserTemplates → Outcome Text
save h s t =
    if ltb max_templates (length t.templates)
    then (s, err too_many)
    else map_or (non_finite_field t)
        (remove_stale_temps h s t.user (some h.pid) >>= λ s' _. save_by h s' t s'.sealing)
        (λ what. (s, err (not_finite what)))

-- A set read from the sealed file is cached.
abbrev pub read_sealed :
    Host → Store → Text → Fingerprint → Res (Option UserTemplates) → Outcome (Option UserTemplates)
read_sealed h s user fp (err e) = (s, err e)
read_sealed h s user fp (ok none) = (s, ok none)
read_sealed h s user fp (ok (some t)) =
    (record s { cache = keep s.cache user (fp, t) }, ok (some t))

abbrev pub unsealed : Host → Text → Creds → Res (Option UserTemplates)
unsealed h user (fails k) = err (unsealing k)
unsealed h user (bytes text) = parse h text user

abbrev pub hit : Fingerprint → Option (Fingerprint × UserTemplates) → Option UserTemplates
hit fp none = none
hit fp (some (have, t)) = if same_fingerprint have fp then some t else none

unfoldable pub load_sealed : Host → Store → Text → File → Outcome (Option UserTemplates)
load_sealed h s user f =
    let name = sealed_name user in
    let fp = fingerprint name f in
    if not (h.stats name)
    then (s, err io)
    else map_or (hit fp (cached s.cache user))
        (if not (h.reads name)
          then (s, err io)
          else read_sealed h s user fp (unsealed h user (h.unseals (cred_name user) f.bytes)))
        (λ t. (s, ok (if_matches h t)))

-- A set found in the clear on a machine that can seal is sealed now; a failure of that is only
-- logged.
abbrev pub read_plain : Host → Store → Res (Option UserTemplates) → Outcome (Option UserTemplates)
read_plain h s (err e) = (s, err e)
read_plain h s (ok none) = (s, ok none)
read_plain h s (ok (some t)) = (if is_tpm s.sealing then (save h s t).0 else s, ok (some t))

unfoldable pub load_plain : Host → Store → Text → File → Outcome (Option UserTemplates)
load_plain h s user f =
    if not (h.reads (plain_name user)) then (s, err io) else read_plain h s (parse h f.bytes user)

unfoldable pub load : Host → Store → Text → Outcome (Option UserTemplates)
load h s user =
    if not (check_user user)
    then (s, err bad_user)
    else map_or (get s.disk.files (sealed_name user))
        (map_or (get s.disk.files (plain_name user)) (s, ok none) (load_plain h s user))
        (load_sealed h s user)

unfoldable pub check_can_replace : Store → Text → Res (Unit {0})
check_can_replace s user = elim s.sealing [
  | tpm ↦ ok tt
  | plain why ↦ if is_sealed s user then err (sealed_store why) else ok tt
]

aside_name : Host → Text → Text
aside_name h user = aside_prefix user ++ decimal h.now_secs

unfoldable pub set_aside_unreadable : Host → Store → Text → Outcome (Option Text)
unfolding aside_name
set_aside_unreadable h s user =
    if not (check_user user)
    then (s, err bad_user)
    else map_or (get s.disk.files (sealed_name user)) (s, ok none)
        (λ f.
          either (check_can_replace s user) (λ e. (s, err e))
            (λ _.
              let aside = aside_name h user in
              if not (h.renames (sealed_name user)) then (s, err io) else (
                record s {
                  disk = record s.disk {
                    files = put (remove s.disk.files (sealed_name user)) aside f;
                  };
                  cache = forget s.cache user;
                },
                ok (some aside),
              )))

unfoldable pub set_aside_if_unreadable : Host → Store → Text → Failure → Outcome (Option Text)
set_aside_if_unreadable h s user e =
    if is_definitive e then set_aside_unreadable h s user else (s, ok none)

-- Nothing is there any more, or the failure stands.
abbrev pub reported : Failure → Store → Option Text → Outcome (Option UserTemplates)
reported e s none = (s, err e)
reported e s (some aside) = (s, ok none)

abbrev pub after_load :
    Host → Text → Outcome (Option UserTemplates) → Outcome (Option UserTemplates)
after_load h user (s, ok t) = (s, ok t)
after_load h user (s, err e) = set_aside_if_unreadable h s user e >>= reported e

-- The one way that an enrolment opens a set.
unfoldable pub open_for_enrolment : Host → Store → Text → Outcome (Option UserTemplates)
open_for_enrolment h s user =
    either (check_can_replace s user) (λ e. (s, err e)) (λ _. after_load h user (load h s user))

-- A file that goes if it is there: whether it was.
unfoldable pub drop_file : Host → Store → Text → Outcome Bool
drop_file h s name =
    if not (exists s.disk.files name)
    then (s, ok false)
    else if h.removes name
    then (with_files s (remove s.disk.files name), ok true)
    else (s, err io)

abbrev pub without : Text → List Text → List Text
without user users = retain (λ u. not (text_eq u user)) users

abbrev pub has : Text → List Text → Bool
has user [] = false
has user (u ∷ users) = text_eq u user || has user users

unfoldable pub drop_gestures : Host → Store → Text → Outcome (Unit {0})
drop_gestures h s user =
    if has user s.disk.gestures && not (h.removes_dir (codes "gestures/" ++ user))
    then (s, err io)
    else (record s { disk = record s.disk { gestures = without user s.disk.gestures } }, ok tt)

unfoldable pub drop_records : Host → Store → Text → Outcome (Unit {0})
drop_records h s user =
    if has user s.disk.records && not (h.removes_dir (codes "record/" ++ user))
    then (s, err io)
    else (record s { disk = record s.disk { records = without user s.disk.records } }, ok tt)

unfoldable pub drop_asides : Host → Store → Text → Outcome (Unit {0})
drop_asides h s user =
    swept s (sweep h.removes (listed h (starts_with (aside_prefix user))) s.disk.files)

-- Everything the store holds about a user: whether templates were there.
unfoldable pub delete : Host → Store → Text → Outcome Bool
delete h s user = remove_stale_temps h s user none >>= λ s₁ _.
    drop_file h s₁ (sealed_name user) >>= λ s₂ sealed.
    drop_file h s₂ (plain_name user) >>= λ s₃ clear. drop_asides h s₃ user >>= λ s₄ _.
    drop_gestures h s₄ user >>= λ s₅ _. drop_records h s₅ user >>= λ s₆ _.
    (record s₆ { cache = forget s₆.cache user }, ok (sealed || clear))
