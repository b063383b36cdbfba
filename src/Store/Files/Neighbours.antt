-- ===== src/Store/Files/Neighbours.antt =====
-- What a delete does to the files of others (faceauth-daemon/src/store/files.rs).
use omarchy_faceauth.Prelude.{
  ℕ, ◌≡◌, refl, ap, ◌∙◌, Bool, true, false, ◌&&◌, not, Option, none, some, [], ◌∷◌, ◌++◌, Text,
  codes, text_eq, text_eq_iff, starts_with, strip_prefix, All, if-cases, arith,
}
use mathlib.Core.Path.{subst}
use omarchy_faceauth.Store.Disk.{
  File, Files, Disk, Cache, Store, Failure, Res, ok, err, Outcome, ◌>>=◌, Host, get, remove, sweep,
  cached, forget,
}
use omarchy_faceauth.Store.Disk
use omarchy_faceauth.Store.Disk.Laws.{get-remove, get-sweep}
use omarchy_faceauth.Store.Files.{
  check_user, plain_name, sealed_name, tmp_prefix, aside_prefix, is_stale, listed, swept,
  remove_stale_temps, drop_file, has, drop_gestures, drop_records, drop_asides, delete,
}
use omarchy_faceauth.Store.Files.Gone.{delete-IsGone}

-- A file is as it was, however the call ends.
abbrev Keeps : {A : Type 0} → Text → Store → Outcome A → Type 0
Keeps n s o = get o.0.disk.files n ≡ get s.disk.files n

>>=-Keeps :
    {A B : Type 0} (n : Text) (s : Store) (m : Outcome A) (f : Store → A → Outcome B)
    → Keeps n s m
    → ((s' : Store) (a : A) → Keeps n s' (f s' a))
    → Keeps n s (m >>= f)
>>=-Keeps n s (s', ok a) f h k = k s' a ∙ h
>>=-Keeps n s (s', err e) f h k = h

swept-Keeps :
    (n : Text) (s : Store) (removes picks : Text → Bool)
    → picks n ≡ false
    → Keeps n s (swept s (sweep removes picks s.disk.files))
swept-Keeps n s removes picks h =
    which (sweep removes picks s.disk.files) (get-sweep removes picks s.disk.files n h)
  where
    which : (r : Files × Bool) → get r.0 n ≡ get s.disk.files n → Keeps n s (swept s r)
    which (fs, true) k = k
    which (fs, false) k = k

drop_file-Keeps :
    (h : Host) (s : Store) (m n : Text) → text_eq m n ≡ false → Keeps n s (drop_file h s m)
unfolding drop_file
drop_file-Keeps h s m n e =
    if-cases (Keeps {A = Bool} n s) (not (Disk.exists s.disk.files m)) _ _ (λ _. refl)
      (λ _.
        if-cases (Keeps {A = Bool} n s) (h.removes m) _ _
          (λ _. rw (get-remove s.disk.files m n, e) refl) (λ _. refl))

drop_gestures-Keeps : (h : Host) (s : Store) (u n : Text) → Keeps n s (drop_gestures h s u)
unfolding drop_gestures
drop_gestures-Keeps h s u n =
    if-cases (Keeps {A = Unit {0}} n s)
      (has u s.disk.gestures && not (h.removes_dir (codes "gestures/" ++ u))) _ _ (λ _. refl)
      (λ _. refl)

drop_records-Keeps : (h : Host) (s : Store) (u n : Text) → Keeps n s (drop_records h s u)
unfolding drop_records
drop_records-Keeps h s u n =
    if-cases (Keeps {A = Unit {0}} n s)
      (has u s.disk.records && not (h.removes_dir (codes "record/" ++ u))) _ _ (λ _. refl)
      (λ _. refl)

-- A longer prefix fits no more texts.
starts_with-longer : (p q n : Text) → starts_with p n ≡ false → starts_with (p ++ q) n ≡ false
starts_with-longer [] q n h = cc
starts_with-longer (c ∷ p) q [] h = refl
starts_with-longer (c ∷ p) q (d ∷ n) h = ground (arith, starts_with-longer p q n)

text_eq-longer : (p q n : Text) → starts_with p n ≡ false → text_eq (p ++ q) n ≡ false
text_eq-longer [] q n h = cc
text_eq-longer (c ∷ p) q [] h = refl
text_eq-longer (c ∷ p) q (d ∷ n) h = ground (arith, text_eq-longer p q n)

append_assoc : (u : Text) (c : ℕ) (q : Text) → (u ++ (c ∷ [])) ++ q ≡ u ++ (c ∷ q)
append_assoc [] c q = refl
append_assoc (d ∷ u) c q = ap (λ r. d ∷ r) (append_assoc u c q)

module _ (u n : Text) (other : starts_with (u ++ codes ".") n ≡ false) where
  starts_with-dot : (q : Text) → starts_with (u ++ (b'.' ∷ q)) n ≡ false
  starts_with-dot q =
      subst (λ p. starts_with p n ≡ false) (append_assoc u b'.' q)
        (starts_with-longer (u ++ codes ".") q n other)

  text_eq-dot : (q : Text) → text_eq (u ++ (b'.' ∷ q)) n ≡ false
  text_eq-dot q =
      subst (λ p. text_eq p n ≡ false) (append_assoc u b'.' q)
        (text_eq-longer (u ++ codes ".") q n other)

-- A delete, however it ends, leaves every file whose name does not start with the user's name and a
-- dot.
pub get-delete :
    (h : Host) (s : Store) (u n : Text)
    → starts_with (u ++ codes ".") n ≡ false
    → get (delete h s u).0.disk.files n ≡ get s.disk.files n
unfolding delete remove_stale_temps drop_asides
get-delete h s u n other =
    >>=-Keeps n s (remove_stale_temps h s u none) _
      (if-cases (Keeps {A = Unit {0}} n s) (not (check_user u)) _ _ (λ _. refl)
        (λ _.
          swept-Keeps n s h.removes (listed h (is_stale u none))
            (ground (arith, starts_with-dot u n other (codes "tmp-")))))
      (λ s₁ _.
        >>=-Keeps n s₁ (drop_file h s₁ (sealed_name u)) _
          (drop_file-Keeps h s₁ (sealed_name u) n (text_eq-dot u n other (codes "cred")))
          (λ s₂ _.
            >>=-Keeps n s₂ (drop_file h s₂ (plain_name u)) _
              (drop_file-Keeps h s₂ (plain_name u) n (text_eq-dot u n other (codes "json")))
              (λ s₃ _.
                >>=-Keeps n s₃ (drop_asides h s₃ u) _
                  (swept-Keeps n s₃ h.removes (listed h (starts_with (aside_prefix u)))
                    (ground (arith, starts_with-dot u n other (codes "cred.unreadable-"))))
                  (λ s₄ _.
                    >>=-Keeps n s₄ (drop_gestures h s₄ u) _ (drop_gestures-Keeps h s₄ u n) (λ s₅ _.
                      >>=-Keeps n s₅ (drop_records h s₅ u) _ (drop_records-Keeps h s₅ u n)
                        (λ s₆ _. refl))))))

-- Where a file stands that a predicate of all files refuses, there is none.
pub get-All :
    (p : Text → Bool) (fs : Files) (n : Text)
    → All (λ (e : Text × File). p e.0 ≡ false) fs
    → p n ≡ true
    → get fs n ≡ none
unfolding get
get-All p [] n h k = refl
get-All p ((m, f) ∷ fs) n (h, hs) k = ground (arith, text_eq_iff m n, get-All p fs n)

strip_prefix-neighbour :
    (u x : Text)
    → strip_prefix (tmp_prefix u) (sealed_name (u ++ (codes ".tmp-" ++ x)))
      ≡ some (x ++ codes ".cred")
strip_prefix-neighbour [] x = refl
strip_prefix-neighbour (c ∷ u) x = ground (arith, strip_prefix-neighbour u x)

-- A delete of `u` that succeeds also takes the sealed set of the user named `u.tmp-` and any `x`,
-- since that file starts like a staging file of `u`, if the directory's listing gives it.
pub delete-neighbour :
    (h : Host) (s s' : Store) (u x : Text) (any : Bool)
    → h.lists (sealed_name (u ++ (codes ".tmp-" ++ x))) ≡ true
    → delete h s u ≡ (s', ok any)
    → get s'.disk.files (sealed_name (u ++ (codes ".tmp-" ++ x))) ≡ none
delete-neighbour h s s' u x any there e =
    let (stale, gestures, records, uncached) = delete-IsGone h s s' u any e in
    get-All (listed h (is_stale u none)) s'.disk.files (sealed_name (u ++ (codes ".tmp-" ++ x)))
      (All-map s'.disk.files stale)
      (rw there (
        ap (λ (o : Option Text). elim o [ none ↦ false | some _ ↦ true ] && true)
          (strip_prefix-neighbour u x)))
  where
    All-map :
        (fs : Files)
        → All
            (λ (e : Text × File).
              (listed h (is_stale u none) e.0 ≡ false)
              × (text_eq e.0 (sealed_name u) ≡ false)
              × (text_eq e.0 (plain_name u) ≡ false)
              × (listed h (starts_with (aside_prefix u)) e.0 ≡ false))
            fs
        → All (λ (e : Text × File). listed h (is_stale u none) e.0 ≡ false) fs
    All-map [] h = tt
    All-map (e ∷ fs) (h, hs) = (h.0, All-map fs hs)
