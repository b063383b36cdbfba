-- ===== src/Prelude/Joins.antt =====
-- Putting back together what a text was split into.
use omarchy_faceauth.Prelude.{
  ℕ, ◌≡◌, refl, inl, inr, Bool, some, List, [], ◌∷◌, ◌++◌, Text, text_eq_iff, ◌==◌, arith,
  Bool-cases, Option-cases,
}
use omarchy_faceauth.Prelude.Splits.{split, split_by, strip_suffix, push_head}

-- The pieces with a separator between them.
unfoldable pub join : ℕ → List Text → Text
join sep [] = []
join sep (p ∷ []) = p
join sep (p ∷ q ∷ ps) = p ++ sep ∷ join sep (q ∷ ps)

join-push_head : (sep c : ℕ) (ps : List Text) → join sep (push_head c ps) ≡ c ∷ join sep ps
unfolding join
join-push_head sep c [] = refl
join-push_head sep c (p ∷ []) = refl
join-push_head sep c (p ∷ q ∷ ps) = refl

split_by-cons : (p : ℕ → Bool) (s : Text) → (q : Text) × (qs : List Text) × (split_by p s ≡ q ∷ qs)
unfolding split_by
split_by-cons p [] = ([], [], refl)
split_by-cons p (c ∷ s) =
    let (q, qs, e) = split_by-cons p s in
    elim (Bool-cases (p c)) [
      | inl hit ↦ ([], split_by p s, ground arith)
      | inr miss ↦ (c ∷ q, qs, ground arith)
    ]

join-nil :
    (sep : ℕ) (ps : List Text) (q : Text) (qs : List Text)
    → ps ≡ q ∷ qs
    → join sep ([] ∷ ps) ≡ sep ∷ join sep ps
unfolding join
join-nil sep [] q qs e = cc
join-nil sep (p ∷ ps) q qs e = refl

pub join-split : (sep : ℕ) (s : Text) → join sep (split sep s) ≡ s
unfolding split split_by join
join-split sep [] = refl
join-split sep (c ∷ s) =
    let rest = split_by (λ d. d == sep) s in
    let (q, qs, e) = split_by-cons (λ d. d == sep) s in
    ground (arith, join-split sep s, join-nil sep rest q qs e, join-push_head sep c rest)

pub strip_suffix-append : (p s r : Text) → strip_suffix p s ≡ some r → r ++ p ≡ s
unfolding strip_suffix
strip_suffix-append [] [] r h = ground arith
strip_suffix-append (a ∷ p) [] r h = cc
strip_suffix-append p (c ∷ s) r h = elim (Option-cases (strip_suffix p s)) [
  | inl e ↦ ground (arith, text_eq_iff (c ∷ s) p)
  | inr (t, e) ↦ ground (arith, text_eq_iff (c ∷ s) p, strip_suffix-append p s t e)
]
