-- ===== src/Store/Files/Saved.antt =====
-- What a save that succeeds leaves (faceauth-daemon/src/store/files.rs).
use omarchy_faceauth.Prelude.{
  ◌≡◌, refl, ◌⊎◌, inl, inr, Bool, true, false, ◌&&◌, not, ltb, length, Option, none, some, Text,
  text_eq_refl, is_some, if-cases, map_or-cases, arith,
}
use omarchy_faceauth.Store.Templates.{UserTemplates, max_templates, non_finite_field}
use omarchy_faceauth.Store.Sealing.{Sealing, tpm, plain, is_tpm, Creds, bytes, fails, cred_name}
use omarchy_faceauth.Store.Disk.{
  File, Files, Fingerprint, Disk, Cache, Store, Failure, Res, ok, err, Outcome, ◌>>=◌, Host, get,
  put, remove, sweep, fingerprint, cached, keep, forget, same_fingerprint,
}
use omarchy_faceauth.Store.Disk
use omarchy_faceauth.Store.Disk.Laws.{get-put, get-remove, cached-forget}
use omarchy_faceauth.Store.Files.{
  check_user, plain_name, sealed_name, is_stale, listed, swept, remove_stale_temps, save_blob,
  save_sealed, save_plain, save_by, save, hit, tmp_name, with_files, remember, finish_put, put_file,
}
use omarchy_faceauth.Store.Files.Names.{text_eq-names_back}

abbrev pub written : Host → Text → File
written h text = record { bytes = text; mtime = h.now }

-- What the cache says of a file is nothing or this set.
abbrev pub Fits : Store → Text → Fingerprint → UserTemplates → Type 0
Fits s u fp t = (hit fp (cached s.cache u) ≡ none) ⊎ (hit fp (cached s.cache u) ≡ some t)

-- A set is there in one form.
abbrev pub IsSealedSet : Host → UserTemplates → Store → Type 0
IsSealedSet h t s =
    (b : Text) × (h.seals (cred_name t.user) (h.to_json t) ≡ bytes b)
    × (get s.disk.files (sealed_name t.user) ≡ some (written h b))
    × (get s.disk.files (plain_name t.user) ≡ none)
    × Fits s t.user (fingerprint (sealed_name t.user) (written h b)) t

abbrev pub IsPlainSet : Host → UserTemplates → Store → Type 0
IsPlainSet h t s =
    (get s.disk.files (sealed_name t.user) ≡ none)
    × (get s.disk.files (plain_name t.user) ≡ some (written h (h.to_json t)))

abbrev pub Wrote : Host → UserTemplates → Outcome Text → Type 0
Wrote h t (s, err e) = Unit {0}
Wrote h t (s, ok p) = (check_user t.user ≡ true) × (IsSealedSet h t s ⊎ IsPlainSet h t s)

same_fingerprint_refl : (fp : Fingerprint) → same_fingerprint fp fp ≡ true
same_fingerprint_refl fp = rw (text_eq_refl fp.path) ground arith

remember-files :
    (h : Host) (s : Store) (n : Text) (f : File) (t : UserTemplates)
    → (remember h s n f t).disk ≡ s.disk
remember-files h s n f t =
    if-cases (λ (s' : Store). s'.disk ≡ s.disk) (h.stats n) _ _ (λ _. refl) (λ _. refl)

remember-Fits :
    (h : Host) (s : Store) (n : Text) (f : File) (t : UserTemplates)
    → Fits (remember h s n f t) t.user (fingerprint n f) t
unfolding keep cached
remember-Fits h s n f t =
    if-cases (λ (s' : Store). Fits s' t.user (fingerprint n f) t) (h.stats n) _ _
      (λ _. inr (rw (text_eq_refl t.user, same_fingerprint_refl (fingerprint n f)) refl))
      (λ _. inl (rw (cached-forget s.cache t.user) refl))

put_file-Wrote :
    (h : Host) (s : Store) (n text : Text) (other : Option Text) (t : UserTemplates)
    → Wrote h t (
        finish_put h
          (with_files s (put s.disk.files n (written h text)))
          n
          (written h text)
          other
          t)
    → Wrote h t (put_file h s n text other t)
unfolding put_file
put_file-Wrote h s n text other t k =
    if-cases (Wrote h t) (not (h.creates (tmp_name h t.user))) _ _ (λ _. tt)
      (λ _.
        if-cases (Wrote h t) (not (h.writes (tmp_name h t.user) && h.renames (tmp_name h t.user))) _
          _ (λ _. tt) (λ _. k))

save_blob-Wrote :
    (h : Host) (s : Store) (t : UserTemplates) (c : Creds)
    → check_user t.user ≡ true
    → h.seals (cred_name t.user) (h.to_json t) ≡ c
    → Wrote h t (save_blob h s t c)
unfolding finish_put
save_blob-Wrote h s t (fails k) known e = tt
save_blob-Wrote h s t (bytes b) known e =
    let u = t.user in
    let f = written h b in
    let here = put s.disk.files (sealed_name u) f in
    let gone = with_files s (remove here (plain_name u)) in
    put_file-Wrote h s (sealed_name u) b (some (plain_name u)) t (
      if-cases (Wrote h t) (Disk.exists here (plain_name u) && not (h.removes (plain_name u))) _ _
        (λ _. tt)
        (λ _.
          if-cases (Wrote h t) (not h.syncs) _ _ (λ _. tt)
            (λ _. (
              known,
              inl (
                b,
                e,
                rw
                    (
                      remember-files h gone (sealed_name u) f t,
                      get-remove here (plain_name u) (sealed_name u),
                      text_eq-names_back u,
                      get-put s.disk.files (sealed_name u) (sealed_name u) f,
                      text_eq_refl (sealed_name u),
                    )
                    refl,
                rw
                    (
                      remember-files h gone (sealed_name u) f t,
                      get-remove here (plain_name u) (plain_name u),
                      text_eq_refl (plain_name u),
                    )
                    refl,
                remember-Fits h gone (sealed_name u) f t,
              ),
            ))))

save_plain-Wrote :
    (h : Host) (s : Store) (t : UserTemplates)
    → check_user t.user ≡ true
    → get s.disk.files (sealed_name t.user) ≡ none
    → Wrote h t (save_plain h s t)
unfolding finish_put save_plain
save_plain-Wrote h s t known absent =
    let u = t.user in
    let f = written h (h.to_json t) in
    let here = with_files s (put s.disk.files (plain_name u) f) in
    put_file-Wrote h s (plain_name u) (h.to_json t) none t (
      if-cases (Wrote h t) (not h.syncs) _ _ (λ _. tt)
        (λ _. (
          known,
          inr (
            rw
                (
                  remember-files h here (plain_name u) f t,
                  get-put s.disk.files (plain_name u) (sealed_name u) f,
                  text_eq-names_back u,
                )
                absent,
            rw
                (
                  remember-files h here (plain_name u) f t,
                  get-put s.disk.files (plain_name u) (plain_name u) f,
                  text_eq_refl (plain_name u),
                )
                refl,
          ),
        )))

save_by-Wrote :
    (h : Host) (s : Store) (t : UserTemplates) (b : Sealing)
    → check_user t.user ≡ true
    → Wrote h t (save_by h s t b)
unfolding save_sealed Disk.exists
save_by-Wrote h s t tpm known =
    save_blob-Wrote h s t (h.seals (cred_name t.user) (h.to_json t)) known refl
save_by-Wrote h s t (plain why) known =
    if-cases (Wrote h t) (is_some (get s.disk.files (sealed_name t.user))) _ _
      (λ _.
        if-cases (Wrote h t) (is_tpm h.probes) _ _
          (λ _.
            save_blob-Wrote h (record s { sealing = tpm }) t
              (h.seals (cred_name t.user) (h.to_json t)) known refl)
          (λ _. tt))
      (λ absent.
        save_plain-Wrote h s t known (is_none (get s.disk.files (sealed_name t.user)) absent))
  where
    is_none : (o : Option File) → is_some o ≡ false → o ≡ none
    is_none none e = refl
    is_none (some f) e = cc

pub save-Wrote : (h : Host) (s : Store) (t : UserTemplates) → Wrote h t (save h s t)
unfolding save remove_stale_temps
save-Wrote h s t =
    if-cases (Wrote h t) (ltb max_templates (length t.templates)) _ _ (λ _. tt)
      (λ _.
        map_or-cases (Wrote h t) (non_finite_field t) _ _
          (λ _.
            if-cases
              (λ (m : Outcome (Unit {0})). Wrote h t (m >>= λ s' _. save_by h s' t s'.sealing))
              (not (check_user t.user)) _ _ (λ _. tt)
              (λ e.
                after (sweep h.removes (listed h (is_stale t.user (some h.pid))) s.disk.files)
                  (ground arith)))
          (λ what _. tt))
  where
    after :
        (r : Files × Bool)
        → check_user t.user ≡ true
        → Wrote h t (swept s r >>= λ s' _. save_by h s' t s'.sealing)
    after (fs, true) known = save_by-Wrote h (with_files s fs) t s.sealing known
    after (fs, false) known = tt
