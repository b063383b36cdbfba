-- ===== src/Store/Pruning.antt =====
-- Trimming a set to its cap, and what a set matches on a camera
-- (faceauth-daemon/src/store/templates.rs). A float is its bit pattern; what is computed with floats
-- is an argument.
pub mod Ends
pub mod Match
use omarchy_faceauth.Prelude.{
  ℕ, zero, suc, ◌+◌, ◌-◌, max, Bool, true, false, not, Option, none, some, List, [], ◌∷◌, map, Text,
  F32, ltb, ◌==◌, length, retain, map_or, if◌then◌else◌,
}
use omarchy_faceauth.Store.Templates.{Template, UserTemplates, is_usable_on}

-- The engine's similarity, and the standard library's `sum`, division, `<`, `partial_cmp` as `>=`,
-- `total_cmp` as less, and `max`.
pub record Floats : Type 0 where
  pub cosine : List F32 → List F32 → F32
  pub sum : List F32 → F32
  pub over : F32 → ℕ → F32
  pub less : F32 → F32 → Bool
  pub at_least : F32 → F32 → Bool
  pub before : F32 → F32 → Bool
  pub greater : F32 → F32 → F32

-- 0.5, 0.6 and -1.0.
abbrev pub outlier_mean : F32
outlier_mean = 1056964608

abbrev pub quality_floor : F32
quality_floor = 1058642330

abbrev minus_one : F32
minus_one = 3212836864

abbrev pub Scores : Type 0
Scores = List (ℕ × F32)

unfoldable pub indexed : ℕ → List Template → List (ℕ × Template)
indexed i [] = []
indexed i (t ∷ ts) = (i, t) ∷ indexed (i + 1) ts

-- `min_by` keeps the first of equals, and `max_by` the last.
unfoldable pub least_from : Floats → ℕ × F32 → Scores → ℕ × F32
least_from f e [] = e
least_from f e (x ∷ xs) = least_from f (if f.before x.1 e.1 then x else e) xs

unfoldable pub most_from : Floats → ℕ × F32 → Scores → ℕ × F32
most_from f e [] = e
most_from f e (x ∷ xs) = most_from f (if f.before x.1 e.1 then e else x) xs

abbrev pub min_by : Floats → Scores → Option (ℕ × F32)
min_by f [] = none
min_by f (e ∷ es) = some (least_from f e es)

abbrev pub max_by : Floats → Scores → Option (ℕ × F32)
max_by f [] = none
max_by f (e ∷ es) = some (most_from f e es)

abbrev pub others : ℕ → List Template → List (ℕ × Template)
others i ts = retain (λ (e : ℕ × Template). not (e.0 == i)) (indexed 0 ts)

abbrev pub sims : Floats → List Template → ℕ × Template → List F32
sims f ts e = map (λ (o : ℕ × Template). f.cosine e.1.embedding o.1.embedding) (others e.0 ts)

abbrev pub mean_to_rest : Floats → List Template → ℕ × Template → F32
mean_to_rest f ts e = f.over (f.sum (sims f ts e)) (length ts - 1)

abbrev pub fold_max : Floats → F32 → List F32 → F32
fold_max f m [] = m
fold_max f m (x ∷ xs) = fold_max f (f.greater m x) xs

abbrev pub means : Floats → List Template → Scores
means f ts = map (λ (e : ℕ × Template). (e.0, mean_to_rest f ts e)) (indexed 0 ts)

abbrev pub qualities : List Template → Scores
qualities ts = map (λ (e : ℕ × Template). (e.0, e.1.quality)) (indexed 0 ts)

unfoldable pub outlier : Floats → List Template → Option (ℕ × F32)
unfolding indexed least_from
outlier f ts = min_by f (retain (λ (e : ℕ × F32). f.less e.1 outlier_mean) (means f ts))

unfoldable pub poor : Floats → List Template → Option (ℕ × F32)
unfolding indexed least_from
poor f ts = min_by f (retain (λ (e : ℕ × F32). not (f.at_least e.1 quality_floor)) (qualities ts))

unfoldable pub duplicate : Floats → List Template → ℕ
unfolding indexed most_from
duplicate f ts =
    map_or
      (max_by f
        (map (λ (e : ℕ × Template). (e.0, fold_max f minus_one (sims f ts e))) (indexed 0 ts)))
      0 (λ (e : ℕ × F32). e.0)

unfoldable pub victim : Floats → List Template → ℕ
unfolding outlier poor duplicate
victim f ts = map_or (outlier f ts) (map_or (poor f ts) (duplicate f ts) (λ e. e.0)) (λ e. e.0)

-- `Vec::remove`.
unfoldable pub remove_at : ℕ → List Template → List Template
remove_at i [] = []
remove_at zero (t ∷ ts) = ts
remove_at (suc i) (t ∷ ts) = t ∷ remove_at i ts

-- The loop, and how many went.
unfoldable pub prune_on : ℕ → Floats → ℕ → List Template → List Template × ℕ
unfolding victim remove_at
prune_on zero f most ts = (ts, 0)
prune_on (suc fuel) f most ts =
    let rest = prune_on fuel f most (remove_at (victim f ts) ts) in
    if ltb (max most 1) (length ts) then (rest.0, rest.1 + 1) else (ts, 0)

-- Each round takes one template, so a round for each is enough.
unfoldable pub prune_to : Floats → ℕ → UserTemplates → UserTemplates × ℕ
unfolding prune_on
prune_to f most u =
    let kept = prune_on (length u.templates) f most u.templates in
    (record u { templates = kept.0 }, kept.1)

abbrev pub best_of : Floats → Scores → Option (F32 × ℕ)
best_of f es = map_or (max_by f es) none (λ (e : ℕ × F32). some (e.1, e.0))

-- `best_match_on`: the highest similarity of an embedding to a template of the camera.
unfoldable pub best_match_on : Floats → UserTemplates → List F32 → Text → Option (F32 × ℕ)
unfolding indexed most_from
best_match_on f u embedding device = best_of f (
    map (λ (e : ℕ × Template). (e.0, f.cosine e.1.embedding embedding))
      (retain (λ (e : ℕ × Template). is_usable_on device e.1) (indexed 0 u.templates)))
