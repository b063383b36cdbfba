-- ===== src/Examples/Stored.antt =====
-- A store at concrete inputs (faceauth-daemon/src/store).
use omarchy_faceauth.Prelude.{
  ℕ, ◌≡◌, refl, ◌⊎◌, true, false, Option, none, some, List, [], ◌∷◌, ◌++◌, Text, codes, text_eq,
  strip_prefix, if◌then◌else◌, ltb, max, ◌+◌, length,
}
use mathlib.Core.Path.{subst}
use omarchy_faceauth.Prelude.Splits.{contains}
use omarchy_faceauth.Store.Templates.{
  Template, non_finite_field, usable_on, UserTemplates, no_gesture,
}
use omarchy_faceauth.Store.Sealing.{Sealing, tpm, plain, Creds, bytes, fails, transient}
use omarchy_faceauth.Store.Disk.{
  File, Store, Host, ok, get, exists, put, sweep, cached, keep, fingerprint,
}
use omarchy_faceauth.Store.Files.{
  load, save, delete, sealed_name, check_user, remove_stale_temps, save_sealed, put_file,
  load_sealed, uid_matches, drop_file, drop_asides, drop_gestures, drop_records,
}
use omarchy_faceauth.Store.Files.Runs.{sealed_stays, run, call, saves, loads, sets_aside, Call}
use omarchy_faceauth.Store.Files.Reload.{IsReader, load-save, restart}
use omarchy_faceauth.Store.Files.Gone.{IsGone, delete-IsGone}
use omarchy_faceauth.Store.Files.Neighbours.{get-delete, delete-neighbour}
use omarchy_faceauth.Store.Files.Loads.{load-run-IsOwned}
use omarchy_faceauth.Store.Pruning.{Floats, prune_to, best_match_on}
use omarchy_faceauth.Store.Pruning.Ends.{IsSublist, prune_to-Ends}
use omarchy_faceauth.Store.Pruning.Match.{IsMatch, best_match_on-IsMatch}

abbrev look : ℕ → Template
look quality = record {
  embedding = quality ∷ [];
  quality = quality;
  face_width = 0;
  created = 1;
  label = codes "enrol";
  device = codes "cam";
  yaw = none;
  nose_pitch = none;
}

abbrev ann : Text
ann = codes "ann"

abbrev ann_set : UserTemplates
ann_set = record {
  version = 1;
  user = ann;
  uid = 1000;
  model = codes "m";
  templates = look 1 ∷ look 2 ∷ [];
  gesture = no_gesture;
}

abbrev json_of : UserTemplates → Text
json_of t = codes "{}"

abbrev of_text : Text → Option UserTemplates
of_text s = if text_eq s (codes "{}") then some ann_set else none

abbrev sealed_by : Text → Text → Creds
sealed_by n b = bytes (codes "tpm:" ++ b)

abbrev unsealed_by : Text → Text → Creds
unsealed_by n b = elim (strip_prefix (codes "tpm:") b) [ none ↦ fails transient | some t ↦ bytes t ]

-- A machine on which every step succeeds, with sealing or without.
abbrev machine : Sealing → Host
machine probed = record {
  uid_of = λ n. some 1000;
  to_json = json_of;
  of_json = of_text;
  seals = sealed_by;
  unseals = unsealed_by;
  probes = probed;
  now = 7;
  now_secs = 7;
  pid = 3;
  seq = 0;
  stats = λ n. true;
  reads = λ n. true;
  creates = λ n. true;
  writes = λ n. true;
  renames = λ n. true;
  removes = λ n. true;
  lists = λ n. true;
  removes_dir = λ n. true;
  syncs = true;
}

abbrev untrusted : Sealing
untrusted = plain (codes "no TPM")

abbrev sealing : Host
sealing = machine tpm

abbrev clear : Host
clear = machine untrusted

abbrev emptied : Sealing → Store
emptied by = record {
  disk = record { files = []; gestures = []; records = [] };
  sealing = by;
  cache = [];
}

-- ann's set, sealed, and then on a daemon that cannot seal.
abbrev with_ann : Store
with_ann = (save sealing (emptied tpm) ann_set).0

abbrev stuck : Store
stuck = record with_ann { sealing = untrusted; cache = [] }

abbrev opened : Creds → Creds
opened (bytes b) = unsealed_by [] b
opened (fails k) = fails k

reader : IsReader sealing ann_set sealing
reader = record {
  stats = λ n. refl;
  reads = λ n. refl;
  json = refl;
  unseals = λ b e. subst (λ (c : Creds). opened c ≡ bytes (codes "{}")) e refl;
  uid = refl;
}

-- A set goes into one sealed file, and comes back from it.
save_run : save sealing (emptied tpm) ann_set ≡ (with_ann, ok (sealed_name ann))
unfolding save load delete run call check_user contains get non_finite_field remove_stale_temps
    sweep save_sealed put_file exists put load_sealed cached keep fingerprint uid_matches drop_file
    drop_asides drop_gestures drop_records
save_run = refl

abbrev blob_of_ann : File
blob_of_ann = record { bytes = codes "tpm:{}"; mtime = 7 }

load-save_example : (load sealing (restart sealing with_ann) ann).1 ≡ ok (some ann_set)
load-save_example =
    (load-save sealing sealing (emptied tpm) with_ann ann_set (sealed_name ann) reader refl
      save_run).1

-- A daemon that cannot seal is asked to save, load and set aside ann's sealed set.
blob_there : get stuck.disk.files (sealed_name ann) ≡ some blob_of_ann
unfolding save load delete run call check_user contains get non_finite_field remove_stale_temps
    sweep save_sealed put_file exists put load_sealed cached keep fingerprint uid_matches drop_file
    drop_asides drop_gestures drop_records
blob_there = refl

abbrev asked : List (Text × Host × Call)
asked = (ann, clear, saves ann_set) ∷ (ann, clear, loads) ∷ (ann, clear, sets_aside) ∷ []

sealed_stays_example :
    get (run asked stuck).disk.files (sealed_name ann) ≡ get stuck.disk.files (sealed_name ann)
unfolding save load delete run call check_user contains get non_finite_field remove_stale_temps
    sweep save_sealed put_file exists put load_sealed cached keep fingerprint uid_matches drop_file
    drop_asides drop_gestures drop_records
sealed_stays_example =
    (sealed_stays ann asked stuck refl refl ((refl, refl), ((refl, refl), ((refl, refl), tt)))).0

-- A delete of ann.
abbrev after_delete : Store
after_delete = (delete sealing with_ann ann).0

delete_run : delete sealing with_ann ann ≡ (after_delete, ok true)
unfolding save load delete run call check_user contains get non_finite_field remove_stale_temps
    sweep save_sealed put_file exists put load_sealed cached keep fingerprint uid_matches drop_file
    drop_asides drop_gestures drop_records
delete_run = refl

delete-IsGone_example : IsGone sealing ann after_delete
delete-IsGone_example = delete-IsGone sealing with_ann after_delete ann true delete_run

get-delete_example :
    get (delete sealing with_ann ann).0.disk.files (codes "bob.cred")
    ≡ get with_ann.disk.files (codes "bob.cred")
get-delete_example = get-delete sealing with_ann ann (codes "bob.cred") refl

-- With the set of `ann.tmp-bob` beside it, which goes too.
abbrev with_both : Store
with_both = record with_ann {
  disk = record {
    files = (sealed_name (codes "ann.tmp-bob"), blob_of_ann) ∷ [];
    gestures = [];
    records = [];
  };
}

both_run : delete sealing with_both ann ≡ ((delete sealing with_both ann).0, ok false)
unfolding save load delete run call check_user contains get non_finite_field remove_stale_temps
    sweep save_sealed put_file exists put load_sealed cached keep fingerprint uid_matches drop_file
    drop_asides drop_gestures drop_records
both_run = refl

delete-neighbour_example :
    get (delete sealing with_both ann).0.disk.files (sealed_name (codes "ann.tmp-bob")) ≡ none
delete-neighbour_example =
    delete-neighbour sealing with_both (delete sealing with_both ann).0 ann (codes "bob") false refl
      both_run

-- Whose set a load answers with.
load-run : load sealing (run ((ann, sealing, saves ann_set) ∷ []) (emptied tpm)) ann ≡ (
  (load sealing (run ((ann, sealing, saves ann_set) ∷ []) (emptied tpm)) ann).0,
  ok (some ann_set),
)
unfolding save load delete run call check_user contains get non_finite_field remove_stale_temps
    sweep save_sealed put_file exists put load_sealed cached keep fingerprint uid_matches drop_file
    drop_asides drop_gestures drop_records
load-run = refl

load-run-IsOwned_example :
    (ann ≡ ann) × ((sealing.uid_of ann ≡ none) ⊎ (sealing.uid_of ann ≡ some ann_set.uid))
load-run-IsOwned_example =
    load-run-IsOwned ((ann, sealing, saves ann_set) ∷ []) (emptied tpm)
      (load sealing (run ((ann, sealing, saves ann_set) ∷ []) (emptied tpm)) ann).0 sealing ann
      ann_set refl load-run

-- A set pruned and matched, with numbers for floats.
abbrev numbers : Floats
numbers = record {
  cosine = λ a b. elim a [ [] ↦ 0 | x ∷ _ ↦ x ];
  sum = λ xs. 0;
  over = λ s n. s;
  less = λ a b. false;
  at_least = λ a b. true;
  before = λ a b. ltb a b;
  greater = λ a b. max a b;
}

prune_to-Ends_example :
    (length (prune_to numbers 1 ann_set).0.templates ≡ 1)
    × ((prune_to numbers 1 ann_set).1 + length (prune_to numbers 1 ann_set).0.templates ≡ 2)
    × IsSublist (prune_to numbers 1 ann_set).0.templates ann_set.templates
prune_to-Ends_example = prune_to-Ends numbers 1 ann_set

best_match_on-IsMatch_example :
    ((m : ℕ × ℕ) × (best_match_on numbers ann_set [] (codes "cam") ≡ some m)
      × IsMatch numbers ann_set [] (codes "cam") m)
    ⊎ ((best_match_on numbers ann_set [] (codes "cam") ≡ none)
        × (usable_on ann_set (codes "cam") ≡ 0))
best_match_on-IsMatch_example = best_match_on-IsMatch numbers ann_set [] (codes "cam")
