-- ===== src/Store/Pruning/Ends.antt =====
-- Where a set's pruning ends, and what a match is (faceauth-daemon/src/store/templates.rs).
use omarchy_faceauth.Prelude.{
  ℕ, zero, suc, ◌+◌, ◌≤◌, ◌<◌, min, max, ◌≡◌, refl, inl, inr, not, Option, none, some, List, [],
  ◌∷◌, map, F32, ltb, length, retain, map_or, All, All-retain, All-map, All-imp, if◌then◌else◌,
  if-cases, Bool-cases, arith,
}
use omarchy_faceauth.Store.Templates.{Template, UserTemplates}
use omarchy_faceauth.Store.Pruning.{
  Floats, Scores, indexed, least_from, most_from, min_by, max_by, sims, mean_to_rest, fold_max,
  minus_one, means, qualities, outlier_mean, quality_floor, outlier, poor, duplicate, victim,
  remove_at, prune_on, prune_to,
}

-- The best of a list is one of it.
least_from-All :
    (P : ℕ × F32 → Type 0) (f : Floats) (e : ℕ × F32) (es : Scores)
    → P e
    → All P es
    → P (least_from f e es)
unfolding least_from
least_from-All P f e [] h hs = h
least_from-All P f e (x ∷ xs) h (k, ks) =
    least_from-All P f (if f.before x.1 e.1 then x else e) xs
      (if-cases P (f.before x.1 e.1) x e (λ _. k) (λ _. h)) ks

most_from-All :
    (P : ℕ × F32 → Type 0) (f : Floats) (e : ℕ × F32) (es : Scores)
    → P e
    → All P es
    → P (most_from f e es)
unfolding most_from
most_from-All P f e [] h hs = h
most_from-All P f e (x ∷ xs) h (k, ks) =
    most_from-All P f (if f.before x.1 e.1 then e else x) xs
      (if-cases P (f.before x.1 e.1) e x (λ _. h) (λ _. k)) ks

-- A predicate of what is there.
abbrev pub Holds : {A : Type 0} → (A → Type 0) → Option A → Type 0
Holds P none = Unit {0}
Holds P (some a) = P a

min_by-Holds : (P : ℕ × F32 → Type 0) (f : Floats) (es : Scores) → All P es → Holds P (min_by f es)
min_by-Holds P f [] h = tt
min_by-Holds P f (e ∷ es) (h, hs) = least_from-All P f e es h hs

pub max_by-Holds :
    (P : ℕ × F32 → Type 0) (f : Floats) (es : Scores) → All P es → Holds P (max_by f es)
max_by-Holds P f [] h = tt
max_by-Holds P f (e ∷ es) (h, hs) = most_from-All P f e es h hs

-- An index is one of the set.
indexed-All :
    (i : ℕ) (ts : List Template) → All (λ (e : ℕ × Template). e.0 < i + length ts) (indexed i ts)
unfolding indexed
indexed-All i [] = tt
indexed-All i (t ∷ ts) = (
  omega arith,
  All-imp (λ (e : ℕ × Template). e.0 < i + 1 + length ts) _ (indexed (i + 1) ts)
      (λ e h. omega arith) (indexed-All (i + 1) ts),
)

module _ (f : Floats) (ts : List Template) where
  abbrev IsIn : ℕ × F32 → Type 0
  IsIn e = e.0 < length ts

  scored-All :
      (g : ℕ × Template → F32) → All IsIn (map (λ (e : ℕ × Template). (e.0, g e)) (indexed 0 ts))
  scored-All g =
      All-map IsIn (λ (e : ℕ × Template). (e.0, g e)) (indexed 0 ts)
        (All-imp (λ (e : ℕ × Template). e.0 < 0 + length ts) (λ (e : ℕ × Template). e.0 < length ts)
          (indexed 0 ts) (λ e h. omega arith) (indexed-All 0 ts))

  outlier-Holds : Holds IsIn (outlier f ts)
  unfolding outlier
  outlier-Holds =
      min_by-Holds IsIn f (retain (λ (e : ℕ × F32). f.less e.1 outlier_mean) (means f ts)) (
        All-retain IsIn (λ (e : ℕ × F32). f.less e.1 outlier_mean) (means f ts)
          (scored-All (mean_to_rest f ts)))

  poor-Holds : Holds IsIn (poor f ts)
  unfolding poor
  poor-Holds =
      min_by-Holds IsIn f
        (retain (λ (e : ℕ × F32). not (f.at_least e.1 quality_floor)) (qualities ts))
        (All-retain IsIn (λ (e : ℕ × F32). not (f.at_least e.1 quality_floor)) (qualities ts)
          (scored-All (λ e. e.1.quality)))

  map_or-lt :
      (o : Option (ℕ × F32)) (d : ℕ)
      → Holds IsIn o
      → d < length ts
      → map_or o d (λ (e : ℕ × F32). e.0) < length ts
  map_or-lt none d h k = k
  map_or-lt (some e) d h k = h

  victim-lt : 0 < length ts → victim f ts < length ts
  unfolding victim duplicate
  victim-lt some_left = map_or-lt (outlier f ts) _ outlier-Holds (
      map_or-lt (poor f ts) _ poor-Holds (
        map_or-lt
          (max_by f
            (map (λ (e : ℕ × Template). (e.0, fold_max f minus_one (sims f ts e))) (indexed 0 ts)))
          0 (max_by-Holds IsIn f _ (scored-All (λ e. fold_max f minus_one (sims f ts e))))
          some_left))

length-remove_at :
    (i : ℕ) (ts : List Template) → i < length ts → length (remove_at i ts) + 1 ≡ length ts
unfolding remove_at
length-remove_at i [] h = omega arith
length-remove_at zero (t ∷ ts) h = omega arith
length-remove_at (suc i) (t ∷ ts) h = omega (arith, length-remove_at i ts)

prune_on-length :
    (fuel : ℕ) (f : Floats) (most : ℕ) (ts : List Template)
    → length ts ≤ fuel
    → (length (prune_on fuel f most ts).0 ≡ min (length ts) (max most 1))
      × ((prune_on fuel f most ts).1 + length (prune_on fuel f most ts).0 ≡ length ts)
unfolding prune_on
prune_on-length zero f most ts h = (omega arith, omega arith)
prune_on-length (suc fuel) f most ts h = elim (Bool-cases (ltb (max most 1) (length ts))) [
  | inl over ↦
      let gone = length-remove_at (victim f ts) ts (victim-lt f ts (ground arith)) in
      let (a, b) = prune_on-length fuel f most (remove_at (victim f ts) ts) (omega (arith, gone)) in
      rw over (ground (arith, gone, a, b), ground (arith, gone, a, b))
  | inr under ↦ rw under (ground arith, ground arith)
]

-- What is left of a list, in its order.
pub data IsSublist : List Template → List Template → Type 0 where
  nil : IsSublist [] []
  gone : {t : Template} {xs ys : List Template} → IsSublist xs ys → IsSublist xs (t ∷ ys)
  kept : {t : Template} {xs ys : List Template} → IsSublist xs ys → IsSublist (t ∷ xs) (t ∷ ys)

IsSublist-refl : (ts : List Template) → IsSublist ts ts
IsSublist-refl [] = nil
IsSublist-refl (t ∷ ts) = kept (IsSublist-refl ts)

remove_at-IsSublist :
    (i : ℕ) (xs ts : List Template) → IsSublist xs (remove_at i ts) → IsSublist xs ts
unfolding remove_at
remove_at-IsSublist i xs [] h = h
remove_at-IsSublist zero xs (t ∷ ts) h = gone h
remove_at-IsSublist (suc i) xs (t ∷ ts) (gone h) = gone (remove_at-IsSublist i xs ts h)
remove_at-IsSublist (suc i) xs (t ∷ ts) (kept {xs = rest} h) =
    kept (remove_at-IsSublist i rest ts h)

prune_on-IsSublist :
    (fuel : ℕ) (f : Floats) (most : ℕ) (ts : List Template)
    → IsSublist (prune_on fuel f most ts).0 ts
unfolding prune_on
prune_on-IsSublist zero f most ts = IsSublist-refl ts
prune_on-IsSublist (suc fuel) f most ts =
    if-cases (λ (r : List Template × ℕ). IsSublist r.0 ts) (ltb (max most 1) (length ts)) _ _
      (λ _.
        remove_at-IsSublist (victim f ts) _ ts
          (prune_on-IsSublist fuel f most (remove_at (victim f ts) ts)))
      (λ _. IsSublist-refl ts)

-- Pruning ends: a set above the cap, taken as one at least, comes down to just that many and a set
-- within it is left alone; what it returns is how many went, and what is left was in the set, in its
-- order.
pub prune_to-Ends :
    (f : Floats) (most : ℕ) (u : UserTemplates)
    → (length (prune_to f most u).0.templates ≡ min (length u.templates) (max most 1))
      × ((prune_to f most u).1 + length (prune_to f most u).0.templates ≡ length u.templates)
      × IsSublist (prune_to f most u).0.templates u.templates
unfolding prune_to
prune_to-Ends f most u =
    let (a, b) = prune_on-length (length u.templates) f most u.templates (omega arith) in
    (a, b, prune_on-IsSublist (length u.templates) f most u.templates)

-- The template at an index.
abbrev pub template_at : ℕ → List Template → Option Template
template_at i [] = none
template_at zero (t ∷ ts) = some t
template_at (suc i) (t ∷ ts) = template_at i ts

pub indexed-template_at :
    (k : ℕ) (ts : List Template)
    → All
        (λ (e : ℕ × Template). (j : ℕ) × (e.0 ≡ k + j) × (template_at j ts ≡ some e.1))
        (indexed k ts)
unfolding indexed
indexed-template_at k [] = tt
indexed-template_at k (t ∷ ts) = (
  (0, omega arith, refl),
  All-imp (λ (e : ℕ × Template). (j : ℕ) × (e.0 ≡ k + 1 + j) × (template_at j ts ≡ some e.1))
      (λ (e : ℕ × Template). (j : ℕ) × (e.0 ≡ k + j) × (template_at j (t ∷ ts) ≡ some e.1))
      (indexed (k + 1) ts) (λ e (j, at, there). (suc j, omega arith, there))
      (indexed-template_at (k + 1) ts),
)
