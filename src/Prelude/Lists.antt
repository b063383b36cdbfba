-- ===== src/Prelude/Lists.antt =====
-- Lists measured by native numbers and filtered by Boolean tests, as `Vec` and its iterators are.
use Prim.Native.Nat.{ℕ, suc, ◌+◌, ◌≤◌}
use mathlib.Core.Path.{◌≡◌, refl}
use mathlib.Core.Bool.{Bool, true, false}
use mathlib.Core.List.{List, [], ◌∷◌, ◌++◌, map}
use mathlib.Core.Option.{Option, none, some}
use native.Mathlib.Omega.{arith}
use omarchy_faceauth.Prelude.Tests.{if◌then◌else◌}

module _ {ℓ} {A : Type ℓ} where
  abbrev pub length : List A → ℕ
  length [] = 0
  length (x ∷ xs) = suc (length xs)

  -- `Vec::retain` and `Iterator::filter`.
  abbrev pub retain : (A → Bool) → List A → List A
  retain p [] = []
  retain p (x ∷ xs) = if p x then x ∷ retain p xs else retain p xs

  -- `Iterator::find`.
  abbrev pub find : (A → Bool) → List A → Option A
  find p [] = none
  find p (x ∷ xs) = if p x then some x else find p xs

  abbrev pub first : List A → Option A
  first [] = none
  first (x ∷ _) = some x

  -- `VecDeque::pop_front`, its value dropped.
  abbrev pub rest : List A → List A
  rest [] = []
  rest (_ ∷ xs) = xs

  pub length-append : (xs ys : List A) → length (xs ++ ys) ≡ length xs + length ys
  length-append [] ys = omega arith
  length-append (x ∷ xs) ys = omega (arith, length-append xs ys)

  pub length-retain-le : (p : A → Bool) (xs : List A) → length (retain p xs) ≤ length xs
  length-retain-le p [] = omega arith
  length-retain-le p (x ∷ xs) = ground (arith, length-retain-le p xs)

  pub retain-append :
      (p : A → Bool) (xs ys : List A) → retain p (xs ++ ys) ≡ retain p xs ++ retain p ys
  retain-append p [] ys = refl
  retain-append p (x ∷ xs) ys = ground (arith, retain-append p xs ys)

abbrev pub All {ℓ κ} : {A : Type ℓ} → (A → Type κ) → List A → Type κ
All P [] = Unit
All P (x ∷ xs) = P x × All P xs

-- A predicate of every entry, through the ways of making lists.
module _ {A : Type 0} where
  pub All-retain : (P : A → Type 0) (p : A → Bool) (xs : List A) → All P xs → All P (retain p xs)
  All-retain P p [] h = tt
  All-retain P p (x ∷ xs) (h, hs) = which (p x) (All-retain P p xs hs)
    where
      which : (b : Bool) → All P (retain p xs) → All P (if b then x ∷ retain p xs else retain p xs)
      which true k = (h, k)
      which false k = k

  pub retain-All : (p : A → Bool) (xs : List A) → All (λ x. p x ≡ true) (retain p xs)
  retain-All p [] = tt
  retain-All p (x ∷ xs) = which (p x) refl (retain-All p xs)
    where
      which :
          (b : Bool)
          → p x ≡ b
          → All (λ y. p y ≡ true) (retain p xs)
          → All (λ y. p y ≡ true) (if b then x ∷ retain p xs else retain p xs)
      which true e k = (e, k)
      which false e k = k

  pub All-imp : (P Q : A → Type 0) (xs : List A) → ((x : A) → P x → Q x) → All P xs → All Q xs
  All-imp P Q [] k h = tt
  All-imp P Q (x ∷ xs) k (h, hs) = (k x h, All-imp P Q xs k hs)

pub All-map :
    {A B : Type 0} (P : B → Type 0) (f : A → B) (xs : List A)
    → All (λ x. P (f x)) xs
    → All P (map f xs)
All-map P f [] h = tt
All-map P f (x ∷ xs) (h, hs) = (h, All-map P f xs hs)
