-- ===== src/Store/Files/Sticky.antt =====
-- A daemon that cannot seal leaves a sealed set as it is (faceauth-daemon/src/store/files.rs).
use omarchy_faceauth.Prelude.{
  ℕ, ◌≡◌, refl, ◌∙◌, Bool, true, false, not, ltb, length, Option, none, some, Text, is_some,
  if-cases, map_or-cases, arith,
}
use omarchy_faceauth.Store.Templates.{UserTemplates, max_templates, non_finite_field}
use omarchy_faceauth.Store.Sealing.{Sealing, tpm, plain, is_tpm, cred_name}
use omarchy_faceauth.Store.Disk.{
  File, Files, Fingerprint, Disk, Store, Failure, Res, ok, err, either, Outcome, ◌>>=◌, Host, get,
  sweep, fingerprint, cached, is_definitive,
}
use omarchy_faceauth.Store.Disk
use omarchy_faceauth.Store.Disk.Laws.{get-sweep}
use omarchy_faceauth.Store.Files.{
  check_user, plain_name, sealed_name, is_stale, listed, swept, remove_stale_temps, save_by, save,
  hit, unsealed, read_sealed, load_sealed, load, check_can_replace, set_aside_unreadable,
  set_aside_if_unreadable, after_load, reported, open_for_enrolment,
}
use omarchy_faceauth.Store.Files.Names.{is_stale-sealed_name, is_stale-plain_name}

-- A user's two files, and what the daemon believes of sealing, are as they were.
abbrev pub Same : Text → Store → Store → Type 0
Same u s s' =
    (get s'.disk.files (sealed_name u) ≡ get s.disk.files (sealed_name u))
    × (get s'.disk.files (plain_name u) ≡ get s.disk.files (plain_name u))
    × (s'.sealing ≡ s.sealing)

Same-refl : (u : Text) (s : Store) → Same u s s
Same-refl u s = (refl, refl, refl)

swept-Same :
    (u : Text) (s : Store) (removes picks : Text → Bool)
    → picks (sealed_name u) ≡ false
    → picks (plain_name u) ≡ false
    → Same u s (swept s (sweep removes picks s.disk.files)).0
swept-Same u s removes picks hs hp =
    which (sweep removes picks s.disk.files)
      (get-sweep removes picks s.disk.files (sealed_name u) hs)
      (get-sweep removes picks s.disk.files (plain_name u) hp)
  where
    which :
        (r : Files × Bool)
        → get r.0 (sealed_name u) ≡ get s.disk.files (sealed_name u)
        → get r.0 (plain_name u) ≡ get s.disk.files (plain_name u)
        → Same u s (swept s r).0
    which (fs, true) a b = (a, b, refl)
    which (fs, false) a b = (a, b, refl)

pub remove_stale_temps-Same :
    (h : Host) (s : Store) (u : Text) (k : Option ℕ) → Same u s (remove_stale_temps h s u k).0
unfolding remove_stale_temps
remove_stale_temps-Same h s u k =
    if-cases (λ (o : Outcome (Unit {0})). Same u s o.0) (not (check_user u)) _ _
      (λ _. Same-refl u s)
      (λ _.
        swept-Same u s h.removes (listed h (is_stale u k))
          (ground (arith, is_stale-sealed_name u k)) (ground (arith, is_stale-plain_name u k)))

-- As they were, and the call has failed.
abbrev pub Barred : {A : Type 0} → Text → Store → Outcome A → Type 0
Barred u s o = Same u s o.0 × ((e : Failure) × (o.1 ≡ err e))

>>=-Barred :
    {A B : Type 0} (u : Text) (s : Store) (m : Outcome A) (f : Store → A → Outcome B)
    → Same u s m.0
    → ((s' : Store) (a : A) → Same u s s' → Barred u s (f s' a))
    → Barred u s (m >>= f)
>>=-Barred u s (s', ok a) f h k = k s' a h
>>=-Barred u s (s', err e) f h k = (h, (e, refl))

-- A sealed set is there, and the daemon cannot seal.
abbrev pub Stuck : Text → Store → Type 0
Stuck u s = (is_tpm s.sealing ≡ false) × (is_some (get s.disk.files (sealed_name u)) ≡ true)

pub Stuck-Same : (u : Text) (s s' : Store) → Stuck u s → Same u s s' → Stuck u s'
Stuck-Same u s s' (p, q) (a, b, c) = (rw c p, rw a q)

Same-trans : (u : Text) (s t r : Store) → Same u s t → Same u t r → Same u s r
Same-trans u s t r (a, b, c) (d, e, f) = (d ∙ a, e ∙ b, f ∙ c)

save_by-Barred :
    (h : Host) (s : Store) (t : UserTemplates) (b : Sealing)
    → is_tpm b ≡ false
    → is_tpm h.probes ≡ false
    → is_some (get s.disk.files (sealed_name t.user)) ≡ true
    → Barred t.user s (save_by h s t b)
unfolding Disk.exists
save_by-Barred h s t tpm hb hp hs = cc
save_by-Barred h s t (plain why) hb hp hs = rw (hs, hp) (Same-refl t.user s, (_, refl))

pub save-Barred :
    (h : Host) (s : Store) (t : UserTemplates)
    → is_tpm h.probes ≡ false
    → Stuck t.user s
    → Barred t.user s (save h s t)
unfolding save
save-Barred h s t hp (hs, hf) =
    if-cases (Barred t.user s) (ltb max_templates (length t.templates)) _ _
      (λ _. (Same-refl t.user s, (_, refl)))
      (λ _.
        map_or-cases (Barred t.user s) (non_finite_field t) _ _
          (λ _.
            >>=-Barred t.user s (remove_stale_temps h s t.user (some h.pid)) _
              (remove_stale_temps-Same h s t.user (some h.pid)) (λ s' _ same. later s' same))
          (λ what _. (Same-refl t.user s, (_, refl))))
  where
    later : (s' : Store) → Same t.user s s' → Barred t.user s (save_by h s' t s'.sealing)
    later s' same =
        let stuck = Stuck-Same t.user s s' (hs, hf) same in
        let (kept, failed) = save_by-Barred h s' t s'.sealing stuck.0 hp stuck.1 in
        (Same-trans t.user s s' (save_by h s' t s'.sealing).0 same kept, failed)

read_sealed-Same :
    (h : Host) (s : Store) (u : Text) (fp : Fingerprint) (r : Res (Option UserTemplates))
    → Same u s (read_sealed h s u fp r).0
read_sealed-Same h s u fp (err e) = Same-refl u s
read_sealed-Same h s u fp (ok none) = Same-refl u s
read_sealed-Same h s u fp (ok (some t)) = Same-refl u s

pub load_sealed-Same :
    (h : Host) (s : Store) (u : Text) (f : File) → Same u s (load_sealed h s u f).0
unfolding load_sealed
load_sealed-Same h s u f =
    let P : Outcome (Option UserTemplates) → Type 0 = λ o. Same u s o.0 in
    if-cases P (not (h.stats (sealed_name u))) _ _ (λ _. Same-refl u s)
      (λ _.
        map_or-cases P (hit (fingerprint (sealed_name u) f) (cached s.cache u)) _ _
          (λ _.
            if-cases P (not (h.reads (sealed_name u))) _ _ (λ _. Same-refl u s)
              (λ _.
                read_sealed-Same h s u (fingerprint (sealed_name u) f)
                  (unsealed h u (h.unseals (cred_name u) f.bytes))))
          (λ t _. Same-refl u s))

pub load-Same :
    (h : Host) (s : Store) (u : Text)
    → is_some (get s.disk.files (sealed_name u)) ≡ true
    → Same u s (load h s u).0
unfolding load
load-Same h s u hs =
    let P : Outcome (Option UserTemplates) → Type 0 = λ o. Same u s o.0 in
    if-cases P (not (check_user u)) _ _ (λ _. Same-refl u s)
      (λ _.
        map_or-cases P (get s.disk.files (sealed_name u)) _ _ (λ absent. cc)
          (λ f _. load_sealed-Same h s u f))

can_replace-Stuck :
    (s : Store) (u : Text)
    → Stuck u s
    → check_user u ≡ true
    → (e : Failure) × (check_can_replace s u ≡ err e)
unfolding check_can_replace Disk.exists
can_replace-Stuck s u (hs, hf) hc = which s.sealing hs
  where
    which :
        (b : Sealing)
        → is_tpm b ≡ false
        → (e : Failure) × (check_can_replace (record s { sealing = b }) u ≡ err e)
    which tpm k = cc
    which (plain why) k = rw (hf, hc) (_, refl)

pub set_aside-Same :
    (h : Host) (s : Store) (u : Text) → Stuck u s → Same u s (set_aside_unreadable h s u).0
unfolding set_aside_unreadable
set_aside-Same h s u stuck =
    let P : Outcome (Option Text) → Type 0 = λ o. Same u s o.0 in
    if-cases P (not (check_user u)) _ _ (λ _. Same-refl u s)
      (λ known.
        map_or-cases P (get s.disk.files (sealed_name u)) _ _ (λ _. Same-refl u s)
          (λ f _.
            let (e, barred) = can_replace-Stuck s u stuck (ground arith) in
            rw barred (Same-refl u s)))

after_load-Same :
    (h : Host) (s : Store) (u : Text) (o : Outcome (Option UserTemplates))
    → Stuck u s
    → Same u s o.0
    → Same u s (after_load h u o).0
unfolding set_aside_if_unreadable
after_load-Same h s u (s', ok t) stuck same = same
after_load-Same h s u (s', err e) stuck same = aside (set_aside_if_unreadable h s' u e) (
    if-cases (λ (o : Outcome (Option Text)). Same u s o.0) (is_definitive e) _ _
      (λ _.
        Same-trans u s s' (set_aside_unreadable h s' u).0 same
          (set_aside-Same h s' u (Stuck-Same u s s' stuck same)))
      (λ _. same))
  where
    aside : (o : Outcome (Option Text)) → Same u s o.0 → Same u s (o >>= reported e).0
    aside (s₂, ok none) k = k
    aside (s₂, ok (some a)) k = k
    aside (s₂, err f) k = k

pub open_for_enrolment-Same :
    (h : Host) (s : Store) (u : Text) → Stuck u s → Same u s (open_for_enrolment h s u).0
unfolding open_for_enrolment
open_for_enrolment-Same h s u stuck = which (check_can_replace s u)
  where
    which :
        (r : Res (Unit {0}))
        → Same u s (either r (λ e. (s, err e)) (λ _. after_load h u (load h s u))).0
    which (err e) = Same-refl u s
    which (ok _) = after_load-Same h s u (load h s u) stuck (load-Same h s u stuck.1)
