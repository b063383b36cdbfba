-- ===== src/Store/Files/Owner.antt =====
-- Every cached set is that of the user it is cached for: what a save does to the cache (faceauth-daemon/src/store/files.rs).
use omarchy_faceauth.Prelude.{
  ℕ, ◌≡◌, refl, inl, inr, Bool, true, false, ◌&&◌, not, ltb, length, Option, none, some, [], ◌∷◌,
  Text, text_eq, text_eq→≡, is_some_and, map_or, All, if◌then◌else◌, if-cases, map_or-cases,
  Bool-cases, arith,
}
use omarchy_faceauth.Store.Templates.{UserTemplates, max_templates, non_finite_field}
use omarchy_faceauth.Store.Sealing.{Sealing, tpm, plain, is_tpm, Creds, bytes, fails, cred_name}
use omarchy_faceauth.Store.Disk.{
  File, Files, Fingerprint, Disk, Cache, Store, Failure, Res, ok, err, either, Outcome, ◌>>=◌, Host,
  get, put, remove, sweep, fingerprint, cached, keep, forget, same_fingerprint, is_definitive,
}
use omarchy_faceauth.Store.Disk
use omarchy_faceauth.Store.Files.{
  check_user, plain_name, sealed_name, is_stale, listed, swept, remove_stale_temps, save_blob,
  save_sealed, save_plain, save_by, save, hit, tmp_name, with_files, finish_put, put_file,
}

-- A cached set is that of the user it is cached for.
abbrev pub IsSound : Cache → Type 0
IsSound c = All (λ (e : Text × (Fingerprint × UserTemplates)). e.1.1.user ≡ e.0) c

pub forget-IsSound : (c : Cache) (u : Text) → IsSound c → IsSound (forget c u)
unfolding forget
forget-IsSound [] u h = tt
forget-IsSound ((v, e) ∷ c) u (h, hs) = which (text_eq v u) (forget-IsSound c u hs)
  where
    which :
        (b : Bool)
        → IsSound (forget c u)
        → IsSound (if not b then (v, e) ∷ forget c u else forget c u)
    which true k = k
    which false k = (h, k)

pub hit-IsSound :
    (c : Cache) (u : Text) (fp : Fingerprint) (t : UserTemplates)
    → IsSound c
    → hit fp (cached c u) ≡ some t
    → t.user ≡ u
unfolding cached
hit-IsSound [] u fp t h e = cc
hit-IsSound ((v, (have, r)) ∷ c) u fp t (h, hs) e = elim (Bool-cases (text_eq v u)) [
  | inl here ↦ elim (Bool-cases (same_fingerprint have fp)) [
    | inl same ↦ ground (arith, text_eq→≡ v u)
    | inr other ↦ ground arith
  ]
  | inr away ↦ hit-IsSound c u fp t hs (ground arith)
]

abbrev pub Sound : {A : Type 0} → Outcome A → Type 0
Sound o = IsSound o.0.cache

pub >>=-Sound :
    {A B : Type 0} (m : Outcome A) (f : Store → A → Outcome B)
    → Sound m
    → ((s : Store) (a : A) → IsSound s.cache → Sound (f s a))
    → Sound (m >>= f)
>>=-Sound (s, ok a) f h k = k s a h
>>=-Sound (s, err e) f h k = h

pub swept-Sound : (s : Store) (r : Files × Bool) → IsSound s.cache → Sound (swept s r)
swept-Sound s (fs, true) h = h
swept-Sound s (fs, false) h = h

pub remove_stale_temps-Sound :
    (h : Host) (s : Store) (u : Text) (k : Option ℕ)
    → IsSound s.cache
    → Sound (remove_stale_temps h s u k)
unfolding remove_stale_temps
remove_stale_temps-Sound h s u k sound =
    if-cases (Sound {A = Unit {0}}) (not (check_user u)) _ _ (λ _. sound)
      (λ _. swept-Sound s (sweep h.removes (listed h (is_stale u k)) s.disk.files) sound)

finish_put-Sound :
    (h : Host) (s : Store) (n : Text) (f : File) (other : Option Text) (t : UserTemplates)
    → IsSound s.cache
    → Sound (finish_put h s n f other t)
unfolding finish_put keep
finish_put-Sound h s n f other t sound =
    let gone = map_or other s (λ o. with_files s (remove s.disk.files o)) in
    let kept : IsSound gone.cache =
      map_or-cases (λ (r : Store). IsSound r.cache) other _ _ (λ _. sound) (λ o _. sound) in
    if-cases (Sound {A = Text})
      (is_some_and other (λ o. Disk.exists s.disk.files o && not (h.removes o))) _ _ (λ _. sound)
      (λ _.
        if-cases (Sound {A = Text}) (not h.syncs) _ _ (λ _. kept)
          (λ _.
            if-cases (λ (r : Store). IsSound r.cache) (h.stats n) _ _
              (λ _. (refl, forget-IsSound gone.cache t.user kept))
              (λ _. forget-IsSound gone.cache t.user kept)))

put_file-Sound :
    (h : Host) (s : Store) (n text : Text) (other : Option Text) (t : UserTemplates)
    → IsSound s.cache
    → Sound (put_file h s n text other t)
unfolding put_file
put_file-Sound h s n text other t sound =
    let f : File = record { bytes = text; mtime = h.now } in
    if-cases (Sound {A = Text}) (not (h.creates (tmp_name h t.user))) _ _
      (λ _.
        if-cases (λ (r : Store). IsSound r.cache) (h.removes (tmp_name h t.user)) _ _ (λ _. sound)
          (λ _. sound))
      (λ _.
        if-cases (Sound {A = Text})
          (not (h.writes (tmp_name h t.user) && h.renames (tmp_name h t.user))) _ _
          (λ _.
            if-cases (λ (r : Store). IsSound r.cache) (h.removes (tmp_name h t.user)) _ _
              (λ _. sound) (λ _. sound))
          (λ _. finish_put-Sound h (with_files s (put s.disk.files n f)) n f other t sound))

save_blob-Sound :
    (h : Host) (s : Store) (t : UserTemplates) (c : Creds)
    → IsSound s.cache
    → Sound (save_blob h s t c)
save_blob-Sound h s t (bytes b) sound =
    put_file-Sound h s (sealed_name t.user) b (some (plain_name t.user)) t sound
save_blob-Sound h s t (fails k) sound = sound

save_by-Sound :
    (h : Host) (s : Store) (t : UserTemplates) (b : Sealing)
    → IsSound s.cache
    → Sound (save_by h s t b)
unfolding save_sealed save_plain
save_by-Sound h s t tpm sound =
    save_blob-Sound h s t (h.seals (cred_name t.user) (h.to_json t)) sound
save_by-Sound h s t (plain why) sound =
    if-cases (Sound {A = Text}) (Disk.exists s.disk.files (sealed_name t.user)) _ _
      (λ _.
        if-cases (Sound {A = Text}) (is_tpm h.probes) _ _
          (λ _.
            save_blob-Sound h (record s { sealing = tpm }) t
              (h.seals (cred_name t.user) (h.to_json t)) sound)
          (λ _. sound))
      (λ _. put_file-Sound h s (plain_name t.user) (h.to_json t) none t sound)

pub save-Sound : (h : Host) (s : Store) (t : UserTemplates) → IsSound s.cache → Sound (save h s t)
unfolding save
save-Sound h s t sound =
    if-cases (Sound {A = Text}) (ltb max_templates (length t.templates)) _ _ (λ _. sound)
      (λ _.
        map_or-cases (Sound {A = Text}) (non_finite_field t) _ _
          (λ _.
            >>=-Sound (remove_stale_temps h s t.user (some h.pid)) _
              (remove_stale_temps-Sound h s t.user (some h.pid) sound)
              (λ s' _ k. save_by-Sound h s' t s'.sealing k))
          (λ what _. sound))
