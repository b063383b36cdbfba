-- ===== src/Store/Pruning/Match.antt =====
-- What a match on a camera is (faceauth-daemon/src/store/templates.rs).
use omarchy_faceauth.Prelude.{
  ℕ, ◌+◌, ◌≡◌, refl, sym, ◌∙◌, ◌⊎◌, inl, inr, Bool, true, Option, none, some, List, [], ◌∷◌, map,
  Text, F32, text_eq→≡, length, retain, map_or, All, All-retain, All-map, All-imp, retain-All,
  arith,
}
use mathlib.Core.Path.{subst}
use omarchy_faceauth.Store.Templates.{Template, UserTemplates, is_usable_on, usable_on}
use omarchy_faceauth.Store.Pruning.{Floats, indexed, max_by, best_of, best_match_on}
use omarchy_faceauth.Store.Pruning.Ends.{Holds, max_by-Holds, template_at, indexed-template_at}

-- A score of a template of the camera, by its index.
abbrev pub IsMatch : Floats → UserTemplates → List F32 → Text → F32 × ℕ → Type 0
IsMatch f u embedding device m =
    (t : Template) × (template_at m.1 u.templates ≡ some t)
    × (t.device ≡ device)
    × (m.0 ≡ f.cosine t.embedding embedding)

All-both :
    {A : Type 0} (P Q : A → Type 0) (xs : List A) → All P xs → All Q xs → All (λ x. P x × Q x) xs
All-both P Q [] h k = tt
All-both P Q (x ∷ xs) (h, hs) (k, ks) = ((h, k), All-both P Q xs hs ks)

module _ (f : Floats) (u : UserTemplates) (embedding : List F32) (device : Text) where
  abbrev on_camera : List (ℕ × Template)
  on_camera = retain (λ (e : ℕ × Template). is_usable_on device e.1) (indexed 0 u.templates)

  abbrev IsThere : ℕ × Template → Type 0
  IsThere e = (j : ℕ) × (e.0 ≡ 0 + j) × (template_at j u.templates ≡ some e.1)

  on_camera-All :
      All
        (λ (e : ℕ × Template). IsMatch f u embedding device (f.cosine e.1.embedding embedding, e.0))
        on_camera
  on_camera-All =
      All-imp (λ (e : ℕ × Template). IsThere e × (is_usable_on device e.1 ≡ true))
        (λ (e : ℕ × Template). IsMatch f u embedding device (f.cosine e.1.embedding embedding, e.0))
        on_camera
        (λ e ((j, at, there), usable).
          let here : j ≡ e.0 = omega arith in
          (
            e.1,
            subst (λ i. template_at i u.templates ≡ some e.1) here there,
            text_eq→≡ e.1.device device usable,
            refl,
          ))
        (All-both IsThere (λ (e : ℕ × Template). is_usable_on device e.1 ≡ true) on_camera
          (All-retain IsThere (λ (e : ℕ × Template). is_usable_on device e.1)
            (indexed 0 u.templates) (indexed-template_at 0 u.templates))
          (retain-All (λ (e : ℕ × Template). is_usable_on device e.1) (indexed 0 u.templates)))

  best-Holds : Holds (IsMatch f u embedding device) (best_match_on f u embedding device)
  unfolding best_match_on
  best-Holds =
      swapped
        (max_by f (map (λ (e : ℕ × Template). (e.0, f.cosine e.1.embedding embedding)) on_camera))
        (max_by-Holds (λ e. IsMatch f u embedding device (e.1, e.0)) f _
          (All-map (λ e. IsMatch f u embedding device (e.1, e.0))
            (λ (e : ℕ × Template). (e.0, f.cosine e.1.embedding embedding)) on_camera
            on_camera-All))
    where
      swapped :
          (o : Option (ℕ × F32))
          → Holds (λ e. IsMatch f u embedding device (e.1, e.0)) o
          → Holds (IsMatch f u embedding device) (map_or o none (λ (e : ℕ × F32). some (e.1, e.0)))
      swapped none h = tt
      swapped (some e) h = h

-- A set matches on a camera exactly where it has a template of that camera.
length-indexed :
    (p : Template → Bool) (k : ℕ) (ts : List Template)
    → length (retain (λ (e : ℕ × Template). p e.1) (indexed k ts)) ≡ length (retain p ts)
unfolding indexed
length-indexed p k [] = refl
length-indexed p k (t ∷ ts) = ground (arith, length-indexed p (k + 1) ts)

usable_on-length :
    (f : Floats) (u : UserTemplates) (embedding : List F32) (device : Text)
    → length (on_camera f u embedding device) ≡ usable_on u device
unfolding usable_on
usable_on-length f u embedding device = length-indexed (is_usable_on device) 0 u.templates

no_best :
    (f : Floats) (embedding : List F32) (es : List (ℕ × Template))
    → best_of f (map (λ (e : ℕ × Template). (e.0, f.cosine e.1.embedding embedding)) es) ≡ none
    → length es ≡ 0
no_best f embedding [] k = refl
no_best f embedding (x ∷ es) k = cc

-- A match on a camera is a template of the set that was enrolled on that camera, with its similarity,
-- and there is one unless no template of the set is of that camera.
pub best_match_on-IsMatch :
    (f : Floats) (u : UserTemplates) (embedding : List F32) (device : Text)
    → ((m : F32 × ℕ) × (best_match_on f u embedding device ≡ some m)
        × IsMatch f u embedding device m)
      ⊎ ((best_match_on f u embedding device ≡ none) × (usable_on u device ≡ 0))
unfolding best_match_on
best_match_on-IsMatch f u embedding device =
    which (best_match_on f u embedding device) refl (best-Holds f u embedding device)
  where
    which :
        (o : Option (F32 × ℕ))
        → best_match_on f u embedding device ≡ o
        → Holds (IsMatch f u embedding device) o
        → ((m : F32 × ℕ) × (best_match_on f u embedding device ≡ some m)
            × IsMatch f u embedding device m)
          ⊎ ((best_match_on f u embedding device ≡ none) × (usable_on u device ≡ 0))
    which none e h = inr (
      e,
      sym (usable_on-length f u embedding device)
          ∙ no_best f embedding (on_camera f u embedding device) e,
    )
    which (some m) e h = inl (m, e, h)
