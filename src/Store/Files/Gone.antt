-- ===== src/Store/Files/Gone.antt =====
-- What a delete that succeeds leaves of a user, and of everybody else
-- (faceauth-daemon/src/store/files.rs).
use omarchy_faceauth.Prelude.{
  ◌≡◌, refl, Bool, true, false, ◌&&◌, not, Option, none, some, List, [], ◌∷◌, ◌++◌, Text, codes,
  text_eq, starts_with, is_some, All, if-cases, arith,
}
use mathlib.Core.Path.{subst}
use omarchy_faceauth.Store.Disk.{
  File, Files, Disk, Cache, Store, Failure, Res, ok, err, Outcome, ◌>>=◌, Host, get, remove, sweep,
  cached, forget,
}
use omarchy_faceauth.Store.Disk
use omarchy_faceauth.Store.Disk.Laws.{
  sweep-All, All-sweep, All-remove, remove-All, All-absent, cached-forget,
}
use omarchy_faceauth.Store.Files.{
  check_user, plain_name, sealed_name, aside_prefix, is_stale, listed, swept, remove_stale_temps,
  drop_file, without, has, drop_gestures, drop_records, drop_asides, delete,
}

-- What holds of the store if the call succeeds.
abbrev pub Leaves : {A : Type 0} → (Store → Type 0) → Outcome A → Type 0
Leaves P (s, ok a) = P s
Leaves P (s, err e) = Unit {0}

>>=-Leaves :
    {A B : Type 0} (P Q : Store → Type 0) (m : Outcome A) (f : Store → A → Outcome B)
    → Leaves P m
    → ((s : Store) (a : A) → P s → Leaves Q (f s a))
    → Leaves Q (m >>= f)
>>=-Leaves P Q (s, ok a) f h k = k s a h
>>=-Leaves P Q (s, err e) f h k = tt

-- A predicate of every file.
abbrev pub Each : (Text × File → Type 0) → Store → Type 0
Each P s = All P s.disk.files

abbrev pub Also : (Text × File → Type 0) → (Text → Bool) → Text × File → Type 0
Also P picks e = P e × (picks e.0 ≡ false)

All-Also :
    (P : Text × File → Type 0) (picks : Text → Bool) (fs : Files)
    → All P fs
    → All (λ (e : Text × File). picks e.0 ≡ false) fs
    → All (Also P picks) fs
All-Also P picks [] h k = tt
All-Also P picks (e ∷ fs) (h, hs) (k, ks) = ((h, k), All-Also P picks fs hs ks)

swept-Leaves :
    (h : Host) (s : Store) (P : Text × File → Type 0) (picks : Text → Bool)
    → Each P s
    → Leaves (Each (Also P picks)) (swept s (sweep h.removes picks s.disk.files))
swept-Leaves h s P picks each =
    which (sweep h.removes picks s.disk.files) (All-sweep P h.removes picks s.disk.files each)
      (sweep-All h.removes picks s.disk.files)
  where
    which :
        (r : Files × Bool)
        → All P r.0
        → (r.1 ≡ true → All (λ (e : Text × File). picks e.0 ≡ false) r.0)
        → Leaves (Each (Also P picks)) (swept s r)
    which (fs, true) a b = All-Also P picks fs a (b refl)
    which (fs, false) a b = tt

is_none : (o : Option File) → is_some o ≡ false → o ≡ none
is_none none e = refl
is_none (some f) e = cc

drop_file-Leaves :
    (h : Host) (s : Store) (n : Text) (P : Text × File → Type 0)
    → Each P s
    → Leaves (Each (Also P (λ m. text_eq m n))) (drop_file h s n)
unfolding drop_file Disk.exists
drop_file-Leaves h s n P each =
    let Q : Outcome Bool → Type 0 = Leaves (Each (Also P (λ m. text_eq m n))) in
    if-cases Q (not (is_some (get s.disk.files n))) _ _
      (λ absent.
        All-Also P (λ m. text_eq m n) s.disk.files each
          (All-absent s.disk.files n (is_none (get s.disk.files n) (ground arith))))
      (λ _.
        if-cases Q (h.removes n) _ _
          (λ _.
            All-Also P (λ m. text_eq m n) (remove s.disk.files n) (All-remove P s.disk.files n each)
              (remove-All s.disk.files n))
          (λ _. tt))

-- The directories.
has-without : (u : Text) (us : List Text) → has u (without u us) ≡ false
has-without u [] = refl
has-without u (v ∷ us) = ground (arith, has-without u us)

drop_gestures-Leaves :
    (h : Host) (s : Store) (u : Text) (P : Text × File → Type 0)
    → Each P s
    → Leaves (λ r. Each P r × (has u r.disk.gestures ≡ false)) (drop_gestures h s u)
unfolding drop_gestures
drop_gestures-Leaves h s u P each =
    if-cases (Leaves {A = Unit {0}} (λ r. Each P r × (has u r.disk.gestures ≡ false)))
      (has u s.disk.gestures && not (h.removes_dir (codes "gestures/" ++ u))) _ _ (λ _. tt)
      (λ _. (each, has-without u s.disk.gestures))

drop_records-Leaves :
    (h : Host) (s : Store) (u : Text) (P : Text × File → Type 0)
    → Each P s × (has u s.disk.gestures ≡ false)
    → Leaves
        (λ r. Each P r × (has u r.disk.gestures ≡ false) × (has u r.disk.records ≡ false))
        (drop_records h s u)
unfolding drop_records
drop_records-Leaves h s u P (each, gone) =
    if-cases
      (Leaves {A = Unit {0}}
        (λ r. Each P r × (has u r.disk.gestures ≡ false) × (has u r.disk.records ≡ false)))
      (has u s.disk.records && not (h.removes_dir (codes "record/" ++ u))) _ _ (λ _. tt)
      (λ _. (each, gone, has-without u s.disk.records))

-- Nothing of a user is in the store: no template in either form, no directory of gestures or
-- recordings, nothing cached, and no staging file or blob set aside among the files that a listing
-- gives.
abbrev pub IsGone : Host → Text → Store → Type 0
IsGone h u s =
    All
      (λ (e : Text × File).
        (listed h (is_stale u none) e.0 ≡ false)
        × (text_eq e.0 (sealed_name u) ≡ false)
        × (text_eq e.0 (plain_name u) ≡ false)
        × (listed h (starts_with (aside_prefix u)) e.0 ≡ false))
      s.disk.files
    × (has u s.disk.gestures ≡ false)
    × (has u s.disk.records ≡ false)
    × (cached s.cache u ≡ none)

All-flat :
    (a b c d : Text → Bool) (fs : Files)
    → All (Also (Also (Also (Also (λ _. Unit {0}) a) b) c) d) fs
    → All
        (λ (e : Text × File). (a e.0 ≡ false) × (b e.0 ≡ false) × (c e.0 ≡ false) × (d e.0 ≡ false))
        fs
All-flat a b c d [] h = tt
All-flat a b c d (e ∷ fs) (((((t, h₁), h₂), h₃), h₄), hs) =
    ((h₁, h₂, h₃, h₄), All-flat a b c d fs hs)

All-Unit : (fs : Files) → All (λ (e : Text × File). Unit {0}) fs
All-Unit [] = tt
All-Unit (e ∷ fs) = (tt, All-Unit fs)

delete-Leaves : (h : Host) (s : Store) (u : Text) → Leaves (IsGone h u) (delete h s u)
unfolding delete remove_stale_temps drop_asides
delete-Leaves h s u =
    let P₀ : Text × File → Type 0 = λ e. Unit {0} in
    let P₁ = Also P₀ (listed h (is_stale u none)) in
    let P₂ = Also P₁ (λ m. text_eq m (sealed_name u)) in
    let P₃ = Also P₂ (λ m. text_eq m (plain_name u)) in
    let P₄ = Also P₃ (listed h (starts_with (aside_prefix u))) in
    let Q₅ : Store → Type 0 = λ r. Each P₄ r × (has u r.disk.gestures ≡ false) in
    let Q₆ : Store → Type 0 =
      λ r. Each P₄ r × (has u r.disk.gestures ≡ false) × (has u r.disk.records ≡ false) in
    >>=-Leaves (Each P₁) (IsGone h u) (remove_stale_temps h s u none) _
      (if-cases (Leaves {A = Unit {0}} (Each P₁)) (not (check_user u)) _ _ (λ _. tt)
        (λ _. swept-Leaves h s P₀ (listed h (is_stale u none)) (All-Unit s.disk.files)))
      (λ s₁ _ k₁.
        >>=-Leaves (Each P₂) (IsGone h u) (drop_file h s₁ (sealed_name u)) _
          (drop_file-Leaves h s₁ (sealed_name u) P₁ k₁)
          (λ s₂ _ k₂.
            >>=-Leaves (Each P₃) (IsGone h u) (drop_file h s₂ (plain_name u)) _
              (drop_file-Leaves h s₂ (plain_name u) P₂ k₂)
              (λ s₃ _ k₃.
                >>=-Leaves (Each P₄) (IsGone h u) (drop_asides h s₃ u) _
                  (swept-Leaves h s₃ P₃ (listed h (starts_with (aside_prefix u))) k₃)
                  (λ s₄ _ k₄.
                    >>=-Leaves Q₅ (IsGone h u) (drop_gestures h s₄ u) _
                      (drop_gestures-Leaves h s₄ u P₄ k₄)
                      (λ s₅ _ k₅.
                        >>=-Leaves Q₆ (IsGone h u) (drop_records h s₅ u) _
                          (drop_records-Leaves h s₅ u P₄ k₅)
                          (λ s₆ _ (each, gestures, records). (
                            All-flat (listed h (is_stale u none)) (λ m. text_eq m (sealed_name u))
                                (λ m. text_eq m (plain_name u))
                                (listed h (starts_with (aside_prefix u))) s₆.disk.files each,
                            gestures,
                            records,
                            cached-forget s₆.cache u,
                          )))))))

-- A delete that succeeds leaves no set of the user in either form, no directory of their gestures or
-- recordings, and nothing cached; and no staging file and no blob set aside that the directory's
-- listing gives. What a listing does not give, and everything if it cannot be opened, may stay,
-- although the delete succeeds.
pub delete-IsGone :
    (h : Host) (s s' : Store) (u : Text) (any : Bool) → delete h s u ≡ (s', ok any) → IsGone h u s'
delete-IsGone h s s' u any e = subst (Leaves (IsGone h u)) e (delete-Leaves h s u)
