-- ===== src/Store/Disk/Laws.antt =====
-- The files by name, after each way of changing them (faceauth-daemon/src/store/files.rs).
use omarchy_faceauth.Prelude.{
  ◌≡◌, inl, inr, refl, Bool, true, false, not, none, some, [], ◌∷◌, Text, text_eq, text_eq_iff, All,
  if◌then◌else◌, arith, Bool-cases,
}
use omarchy_faceauth.Store.Disk.{
  File, Files, Cache, Failure, Res, ok, err, either, get, remove, put, sweep, cached, forget,
}

pub get-remove :
    (fs : Files) (n m : Text) → get (remove fs n) m ≡ (if text_eq n m then none else get fs m)
unfolding get remove
get-remove [] n m = ground arith
get-remove ((k, f) ∷ fs) n m =
    ground (arith, text_eq_iff k n, text_eq_iff k m, text_eq_iff n m, get-remove fs n m)

pub get-put :
    (fs : Files) (n m : Text) (f : File)
    → get (put fs n f) m ≡ (if text_eq n m then some f else get fs m)
unfolding put get
get-put fs n m f = ground (arith, get-remove fs n m)

-- What a sweep does not pick stays, and after one that succeeds nothing it picks is left.
pub get-sweep :
    (removes picks : Text → Bool) (fs : Files) (m : Text)
    → picks m ≡ false
    → get (sweep removes picks fs).0 m ≡ get fs m
unfolding sweep get
get-sweep removes picks [] m h = refl
get-sweep removes picks ((n, f) ∷ fs) m h =
    ground (arith, text_eq_iff n m, get-sweep removes picks fs m)

pub sweep-All :
    (removes picks : Text → Bool) (fs : Files)
    → (sweep removes picks fs).1 ≡ true
    → All (λ (e : Text × File). picks e.0 ≡ false) (sweep removes picks fs).0
unfolding sweep
sweep-All removes picks [] h = tt
sweep-All removes picks ((n, f) ∷ fs) h = elim (Bool-cases (picks n)) [
  | inl picked ↦ ground (arith, sweep-All removes picks fs)
  | inr other ↦ ground (arith, sweep-All removes picks fs)
]

pub All-sweep :
    (P : Text × File → Type 0) (removes picks : Text → Bool) (fs : Files)
    → All P fs
    → All P (sweep removes picks fs).0
unfolding sweep
All-sweep P removes picks [] h = tt
All-sweep P removes picks ((n, f) ∷ fs) (h, hs) =
    which (picks n) (removes n) (All-sweep P removes picks fs hs)
  where
    which :
        (p r : Bool)
        → All P (sweep removes picks fs).0
        → All P (
            let after : Files × Bool =
              if p
              then (if r
                  then ((sweep removes picks fs).0, (sweep removes picks fs).1)
                  else ((n, f) ∷ fs, false))
              else ((n, f) ∷ (sweep removes picks fs).0, (sweep removes picks fs).1) in
            after.0)
    which true true k = k
    which true false k = (h, hs)
    which false r k = (h, k)

pub All-remove : (P : Text × File → Type 0) (fs : Files) (n : Text) → All P fs → All P (remove fs n)
unfolding remove
All-remove P [] n h = tt
All-remove P ((k, f) ∷ fs) n (h, hs) = which (text_eq k n) (All-remove P fs n hs)
  where
    which :
        (b : Bool)
        → All P (remove fs n)
        → All P (if not b then (k, f) ∷ remove fs n else remove fs n)
    which true t = t
    which false t = (h, t)

pub remove-All :
    (fs : Files) (n : Text) → All (λ (e : Text × File). text_eq e.0 n ≡ false) (remove fs n)
unfolding remove
remove-All [] n = tt
remove-All ((k, f) ∷ fs) n = which (text_eq k n) refl (remove-All fs n)
  where
    which :
        (b : Bool)
        → text_eq k n ≡ b
        → All (λ (e : Text × File). text_eq e.0 n ≡ false) (remove fs n)
        → All
            (λ (e : Text × File). text_eq e.0 n ≡ false)
            (if not b then (k, f) ∷ remove fs n else remove fs n)
    which true e t = t
    which false e t = (e, t)

pub All-absent :
    (fs : Files) (n : Text) → get fs n ≡ none → All (λ (e : Text × File). text_eq e.0 n ≡ false) fs
unfolding get
All-absent [] n h = tt
All-absent ((k, f) ∷ fs) n h = ground (arith, All-absent fs n)

pub cached-forget : (c : Cache) (user : Text) → cached (forget c user) user ≡ none
unfolding cached forget
cached-forget [] user = refl
cached-forget ((u, e) ∷ c) user = ground (arith, cached-forget c user)

-- Case analysis on a result.
pub either-cases :
    {A B : Type 0} (P : B → Type 0) (r : Res A) (f : Failure → B) (g : A → B)
    → ((e : Failure) → P (f e))
    → ((a : A) → P (g a))
    → P (either r f g)
either-cases P (ok a) f g h k = k a
either-cases P (err e) f g h k = h e
