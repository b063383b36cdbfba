-- ===== src/Store/Files/Loads.antt =====
-- Whose set a load answers with (faceauth-daemon/src/store/files.rs).
use omarchy_faceauth.Prelude.{
  ℕ, ◌≡◌, refl, ◌⊎◌, inl, inr, Bool, true, ◌&&◌, not, Option, none, some, List, [], ◌∷◌, ◌++◌, Text,
  codes, text_eq, text_eq→≡, starts_with, ◌==◌, map_or, if-cases, map_or-cases, arith,
}
use mathlib.Core.Path.{subst}
use omarchy_faceauth.Store.Templates.{UserTemplates, format_version}
use omarchy_faceauth.Store.Sealing.{is_tpm, Creds, bytes, fails, cred_name}
use omarchy_faceauth.Store.Disk.{
  File, Files, Fingerprint, Disk, Cache, Store, Failure, Res, ok, err, either, Outcome, ◌>>=◌, Host,
  get, put, remove, sweep, fingerprint, cached, keep, forget, same_fingerprint, is_definitive,
}
use omarchy_faceauth.Store.Disk
use omarchy_faceauth.Store.Disk.Laws.{either-cases}
use omarchy_faceauth.Store.Files.{
  check_user, listed, plain_name, sealed_name, remove_stale_temps, hit, unsealed, parse,
  read_sealed, read_plain, load_sealed, load_plain, load, if_matches, uid_matches,
  check_can_replace, set_aside_unreadable, set_aside_if_unreadable, after_load, reported,
  open_for_enrolment, drop_file, drop_gestures, drop_records, drop_asides, delete, aside_prefix,
  has,
}
use omarchy_faceauth.Store.Files.Runs.{Call, saves, loads, opens, sets_aside, deletes, call, run}
use omarchy_faceauth.Store.Files.Owner.{
  IsSound, Sound, forget-IsSound, hit-IsSound, save-Sound, swept-Sound, remove_stale_temps-Sound,
  >>=-Sound,
}

-- A load that answers with a set.
abbrev pub Owned : Host → Text → Outcome (Option UserTemplates) → Type 0
Owned h u (s, ok (some t)) = IsSound s.cache × (t.user ≡ u) × (uid_matches h t ≡ true)
Owned h u (s, r) = IsSound s.cache

if_matches-Owned :
    (h : Host) (u : Text) (s : Store) (t : UserTemplates)
    → IsSound s.cache
    → t.user ≡ u
    → Owned h u (s, ok (if_matches h t))
if_matches-Owned h u s t sound e =
    if-cases (λ (o : Option UserTemplates). Owned h u (s, ok o)) (uid_matches h t) _ _
      (λ m. (sound, e, m)) (λ _. sound)

-- What a file parses to is its user's.
abbrev Parsed : Host → Text → Res (Option UserTemplates) → Type 0
Parsed h u (ok (some t)) = (t.user ≡ u) × (uid_matches h t ≡ true)
Parsed h u r = Unit {0}

parse-Parsed : (h : Host) (text u : Text) → Parsed h u (parse h text u)
unfolding parse
parse-Parsed h text u =
    map_or-cases (Parsed h u) (h.of_json text) _ _ (λ _. tt)
      (λ t _.
        if-cases (Parsed h u) (not (t.version == format_version)) _ _ (λ _. tt)
          (λ _.
            if-cases (Parsed h u) (not (text_eq t.user u)) _ _ (λ _. tt)
              (λ same.
                if-cases (λ (o : Option UserTemplates). Parsed h u (ok o)) (uid_matches h t) _ _
                  (λ m. (text_eq→≡ t.user u (ground arith), m)) (λ _. tt))))

unsealed-Parsed : (h : Host) (u : Text) (c : Creds) → Parsed h u (unsealed h u c)
unsealed-Parsed h u (bytes b) = parse-Parsed h b u
unsealed-Parsed h u (fails k) = tt

read_sealed-Owned :
    (h : Host) (s : Store) (u : Text) (fp : Fingerprint) (r : Res (Option UserTemplates))
    → IsSound s.cache
    → Parsed h u r
    → Owned h u (read_sealed h s u fp r)
unfolding keep
read_sealed-Owned h s u fp (err e) sound parsed = sound
read_sealed-Owned h s u fp (ok none) sound parsed = sound
read_sealed-Owned h s u fp (ok (some t)) sound (e, m) = ((e, forget-IsSound s.cache u sound), e, m)

read_plain-Owned :
    (h : Host) (s : Store) (u : Text) (r : Res (Option UserTemplates))
    → IsSound s.cache
    → Parsed h u r
    → Owned h u (read_plain h s r)
read_plain-Owned h s u (err e) sound parsed = sound
read_plain-Owned h s u (ok none) sound parsed = sound
read_plain-Owned h s u (ok (some t)) sound (e, m) =
    if-cases (λ (s' : Store). Owned h u (s', ok (some t))) (is_tpm s.sealing) _ _
      (λ _. (save-Sound h s t sound, e, m)) (λ _. (sound, e, m))

pub load-Owned : (h : Host) (s : Store) (u : Text) → IsSound s.cache → Owned h u (load h s u)
unfolding load load_sealed load_plain
load-Owned h s u sound =
    if-cases (Owned h u) (not (check_user u)) _ _ (λ _. sound)
      (λ _.
        map_or-cases (Owned h u) (get s.disk.files (sealed_name u)) _ _
          (λ _.
            map_or-cases (Owned h u) (get s.disk.files (plain_name u)) _ _ (λ _. sound)
              (λ f _.
                if-cases (Owned h u) (not (h.reads (plain_name u))) _ _ (λ _. sound)
                  (λ _.
                    read_plain-Owned h s u (parse h f.bytes u) sound (parse-Parsed h f.bytes u))))
          (λ f _.
            let fp = fingerprint (sealed_name u) f in
            if-cases (Owned h u) (not (h.stats (sealed_name u))) _ _ (λ _. sound)
              (λ _.
                map_or-cases (Owned h u) (hit fp (cached s.cache u)) _ _
                  (λ _.
                    if-cases (Owned h u) (not (h.reads (sealed_name u))) _ _ (λ _. sound)
                      (λ _.
                        read_sealed-Owned h s u fp (unsealed h u (h.unseals (cred_name u) f.bytes))
                          sound (unsealed-Parsed h u (h.unseals (cred_name u) f.bytes))))
                  (λ t e. if_matches-Owned h u s t sound (hit-IsSound s.cache u fp t sound e)))))

set_aside-Sound :
    (h : Host) (s : Store) (u : Text) → IsSound s.cache → Sound (set_aside_unreadable h s u)
unfolding set_aside_unreadable
set_aside-Sound h s u sound =
    if-cases (Sound {A = Option Text}) (not (check_user u)) _ _ (λ _. sound)
      (λ _.
        map_or-cases (Sound {A = Option Text}) (get s.disk.files (sealed_name u)) _ _ (λ _. sound)
          (λ f _.
            either-cases (Sound {A = Option Text}) (check_can_replace s u) _ _ (λ e. sound)
              (λ _.
                if-cases (Sound {A = Option Text}) (not (h.renames (sealed_name u))) _ _
                  (λ _. sound) (λ _. forget-IsSound s.cache u sound))))

after_load-Sound :
    (h : Host) (u : Text) (o : Outcome (Option UserTemplates)) → Sound o → Sound (after_load h u o)
unfolding set_aside_if_unreadable
after_load-Sound h u (s, ok t) sound = sound
after_load-Sound h u (s, err e) sound =
    >>=-Sound (set_aside_if_unreadable h s u e) (reported e)
      (if-cases (Sound {A = Option Text}) (is_definitive e) _ _ (λ _. set_aside-Sound h s u sound)
        (λ _. sound))
      (λ s' a k. reported-Sound s' a k)
  where
    reported-Sound : (s' : Store) (a : Option Text) → IsSound s'.cache → Sound (reported e s' a)
    reported-Sound s' none k = k
    reported-Sound s' (some a) k = k

Owned-Sound : (h : Host) (u : Text) (o : Outcome (Option UserTemplates)) → Owned h u o → Sound o
Owned-Sound h u (s, ok (some t)) k = k.0
Owned-Sound h u (s, ok none) k = k
Owned-Sound h u (s, err e) k = k

drop_file-Sound : (h : Host) (s : Store) (n : Text) → IsSound s.cache → Sound (drop_file h s n)
unfolding drop_file
drop_file-Sound h s n sound =
    if-cases (Sound {A = Bool}) (not (Disk.exists s.disk.files n)) _ _ (λ _. sound)
      (λ _. if-cases (Sound {A = Bool}) (h.removes n) _ _ (λ _. sound) (λ _. sound))

delete-Sound : (h : Host) (s : Store) (u : Text) → IsSound s.cache → Sound (delete h s u)
unfolding delete drop_asides drop_gestures drop_records
delete-Sound h s u sound =
    >>=-Sound (remove_stale_temps h s u none) _ (remove_stale_temps-Sound h s u none sound)
      (λ s₁ _ k₁.
        >>=-Sound (drop_file h s₁ (sealed_name u)) _ (drop_file-Sound h s₁ (sealed_name u) k₁)
          (λ s₂ _ k₂.
            >>=-Sound (drop_file h s₂ (plain_name u)) _ (drop_file-Sound h s₂ (plain_name u) k₂)
              (λ s₃ _ k₃.
                >>=-Sound (drop_asides h s₃ u) _
                  (swept-Sound s₃
                    (sweep h.removes (listed h (starts_with (aside_prefix u))) s₃.disk.files) k₃)
                  (λ s₄ _ k₄.
                    >>=-Sound (drop_gestures h s₄ u) _
                      (if-cases (Sound {A = Unit {0}})
                        (has u s₄.disk.gestures && not (h.removes_dir (codes "gestures/" ++ u))) _ _
                        (λ _. k₄) (λ _. k₄))
                      (λ s₅ _ k₅.
                        >>=-Sound (drop_records h s₅ u) _
                          (if-cases (Sound {A = Unit {0}})
                            (has u s₅.disk.records && not (h.removes_dir (codes "record/" ++ u))) _
                            _ (λ _. k₅) (λ _. k₅))
                          (λ s₆ _ k₆. forget-IsSound s₆.cache u k₆))))))

call-IsSound :
    (u : Text) (h : Host) (c : Call) (s : Store) → IsSound s.cache → IsSound (call u h c s).cache
unfolding call open_for_enrolment
call-IsSound u h (saves t) s sound = save-Sound h s t sound
call-IsSound u h loads s sound = Owned-Sound h u (load h s u) (load-Owned h s u sound)
call-IsSound u h opens s sound =
    either-cases (Sound {A = Option UserTemplates}) (check_can_replace s u) _ _ (λ e. sound)
      (λ _.
        after_load-Sound h u (load h s u) (Owned-Sound h u (load h s u) (load-Owned h s u sound)))
call-IsSound u h sets_aside s sound = set_aside-Sound h s u sound
call-IsSound u h deletes s sound = delete-Sound h s u sound

pub run-IsSound :
    (calls : List (Text × Host × Call)) (s : Store) → IsSound s.cache → IsSound (run calls s).cache
unfolding run
run-IsSound [] s sound = sound
run-IsSound ((u, h, c) ∷ cs) s sound = run-IsSound cs (call u h c s) (call-IsSound u h c s sound)

uid_matches-cases :
    (h : Host) (t : UserTemplates)
    → uid_matches h t ≡ true
    → (h.uid_of t.user ≡ none) ⊎ (h.uid_of t.user ≡ some t.uid)
unfolding uid_matches
uid_matches-cases h t e = which (h.uid_of t.user) e
  where
    which :
        (o : Option ℕ) → map_or o true (λ now. t.uid == now) ≡ true → (o ≡ none) ⊎ (o ≡ some t.uid)
    which none e = inl refl
    which (some now) e = inr (ground arith)

-- After any calls for any users, on a store opened with an empty cache, a load of a user that answers
-- with a set answers with one enrolled under that name, and the name has no account now or the
-- account has the uid that the set was enrolled under.
pub load-run-IsOwned :
    (calls : List (Text × Host × Call)) (s s' : Store) (h : Host) (u : Text) (t : UserTemplates)
    → s.cache ≡ []
    → load h (run calls s) u ≡ (s', ok (some t))
    → (t.user ≡ u) × ((h.uid_of u ≡ none) ⊎ (h.uid_of u ≡ some t.uid))
load-run-IsOwned calls s s' h u t empty e =
    let sound = run-IsSound calls s (rw empty tt) in
    let (_, same, m) = subst (Owned h u) e (load-Owned h (run calls s) u sound) in
    (
      same,
      subst (λ n. (h.uid_of n ≡ none) ⊎ (h.uid_of n ≡ some t.uid)) same (uid_matches-cases h t m),
    )
