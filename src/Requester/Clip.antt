-- ===== src/Requester/Clip.antt =====
-- What a card may show (faceauth-daemon/src/consent/requester.rs).
use mathlib.Core.Path.{subst}
use omarchy_faceauth.Prelude.{
  ℕ, zero, suc, ◌+◌, ◌≤◌, ◌≡◌, ◌∙◌, refl, ap, sym, Bool, true, false, not, ◌&&◌, ◌||◌, List, [],
  ◌∷◌, map, Text, All, All-imp, retain, retain-All, take, length, ltb, leb, ◌==◌, if◌then◌else◌,
  arith,
}
use omarchy_faceauth.Prelude.Chars.{is_control}
use omarchy_faceauth.Requester.{
  command_clip, formats, in_ranges, is_dropped_category, kept_chars, cut_at, clip_command,
}

-- The characters that must not reach a card, from the Unicode tables: controls (Cc), the separators of
-- lines and paragraphs (Zl, Zp), and the formats (Cf), the marks that turn the direction of a text
-- among them.
abbrev pub hidden : List (ℕ × ℕ)
hidden =
    (0, 31)
    ∷ (127, 159)
    ∷ (8232, 8233)
    ∷ (173, 173)
    ∷ (1536, 1541)
    ∷ (1564, 1564)
    ∷ (1757, 1757)
    ∷ (1807, 1807)
    ∷ (2192, 2193)
    ∷ (2274, 2274)
    ∷ (6158, 6158)
    ∷ (8203, 8207)
    ∷ (8234, 8238)
    ∷ (8288, 8292)
    ∷ (8294, 8303)
    ∷ (65279, 65279)
    ∷ (65529, 65531)
    ∷ (69821, 69821)
    ∷ (69837, 69837)
    ∷ (78896, 78911)
    ∷ (113824, 113827)
    ∷ (119155, 119162)
    ∷ (917505, 917505)
    ∷ (917536, 917631)
    ∷ []

abbrev pub lies_in : List (ℕ × ℕ) → ℕ → Bool
lies_in [] c = false
lies_in ((lo, hi) ∷ more) c = (leb lo c && leb c hi) || lies_in more c

abbrev pub IsShown : ℕ → Type 0
IsShown c = lies_in hidden c ≡ false

-- A text as it is shown: tabs are spaces, and the hidden characters are left out.
abbrev pub shown_of : Text → Text
shown_of s = retain (λ c. not (lies_in hidden c)) (map (λ c. if c == 9 then 32 else c) s)

in_ranges-lies_in : (c : ℕ) (rs : List (ℕ × ℕ)) → in_ranges c rs ≡ lies_in rs c
in_ranges-lies_in c [] = refl
in_ranges-lies_in c ((lo, hi) ∷ more) =
    ap (λ b. (leb lo c && leb c hi) || b) (in_ranges-lies_in c more)

joined :
    (c : ℕ) (b : Bool)
    → (((is_control c || c == 8232) || c == 8233) || b)
      ≡ ((leb 0 c && leb c 31) || ((leb 127 c && leb c 159) || ((leb 8232 c && leb c 8233) || b)))
joined c b = ground arith

-- The test of the code is the one of the tables.
dropped-lies_in : (c : ℕ) → is_dropped_category c ≡ lies_in hidden c
unfolding is_dropped_category
dropped-lies_in c =
    ap (λ b. ((is_control c || c == 8232) || c == 8233) || b) (in_ranges-lies_in c formats)
    ∙ joined c (lies_in formats c)

kept_chars-shown_of : (s : Text) → kept_chars s ≡ shown_of s
unfolding kept_chars
kept_chars-shown_of [] = refl
kept_chars-shown_of (c ∷ s) =
    step (c == 9) (is_dropped_category c) (lies_in hidden c) (dropped-lies_in c) refl (kept_chars s)
      (shown_of s) (kept_chars-shown_of s)
  where
    step :
        (tab dropped b : Bool)
        → dropped ≡ b
        → lies_in hidden c ≡ b
        → (more more' : Text) → more ≡ more'
        → (if tab then 32 ∷ more else if dropped then more else c ∷ more)
          ≡ (let d = if tab then 32 else c in if not (lies_in hidden d) then d ∷ more' else more')
    step true dropped b e k more more' same = ap (λ (t : Text). 32 ∷ t) same
    step false dropped true e k more more' same = rw (e, k) same
    step false dropped false e k more more' same = rw (e, k) (ap (λ (t : Text). c ∷ t) same)

shown_of-IsShown : (s : Text) → All IsShown (shown_of s)
shown_of-IsShown s =
    let spaced = map (λ c. if c == 9 then 32 else c) s in
    let kept : Text = retain (λ c. not (lies_in hidden c)) spaced in
    All-imp (λ c. not (lies_in hidden c) ≡ true) IsShown kept (λ c k. not_true (lies_in hidden c) k)
      (retain-All (λ c. not (lies_in hidden c)) spaced)
  where
    not_true : (b : Bool) → not b ≡ true → b ≡ false
    not_true true k = cc
    not_true false k = refl

take-All : (n : ℕ) (s : Text) → All IsShown s → All IsShown (take n s)
take-All zero s h = tt
take-All (suc n) [] h = tt
take-All (suc n) (c ∷ s) (h, hs) = (h, take-All n s hs)

length-take-le : (n : ℕ) (s : Text) → length (take n s) ≤ n
length-take-le zero s = omega arith
length-take-le (suc n) [] = omega arith
length-take-le (suc n) (c ∷ s) = omega (arith, length-take-le n s)

take-take : (n : ℕ) (s : Text) → take n (take (suc n) s) ≡ take n s
take-take zero s = refl
take-take (suc n) [] = refl
take-take (suc n) (c ∷ s) = ap (λ (t : Text). c ∷ t) (take-take n s)

plus_one : (n : ℕ) → suc n ≡ n + 1
plus_one n = omega arith

length-take-over : (n : ℕ) (s : Text) → ltb n (length (take (n + 1) s)) ≡ ltb n (length s)
length-take-over zero [] = refl
length-take-over zero (c ∷ s) = ground arith
length-take-over (suc n) [] = ground arith
length-take-over (suc n) (c ∷ s) = ground (arith, length-take-over n s)

take-short : (n m : ℕ) (s : Text) → length s ≤ n → length s ≤ m → take n s ≡ take m s
take-short zero zero s h k = refl
take-short zero (suc m) [] h k = refl
take-short zero (suc m) (c ∷ s) h k = absurd (omega arith)
take-short (suc n) zero [] h k = refl
take-short (suc n) zero (c ∷ s) h k = absurd (omega arith)
take-short (suc n) (suc m) [] h k = refl
take-short (suc n) (suc m) (c ∷ s) h k =
    ap (λ (t : Text). c ∷ t) (take-short n m s (omega arith) (omega arith))

-- A cut text is the text up to the limit, and the flag says whether there was more.
cut_at-take :
    (limit : ℕ) (s : Text)
    → ◌≡◌ {A = Text × Bool} (cut_at limit s) (take limit s, ltb limit (length s))
unfolding cut_at
cut_at-take limit s = which (ltb limit (length (take (limit + 1) s))) refl
  where
    which :
        (b : Bool)
        → ltb limit (length (take (limit + 1) s)) ≡ b
        → ◌≡◌ {A = Text × Bool}
            (if b then (take limit (take (limit + 1) s), true) else (take (limit + 1) s, false))
            (take limit s, ltb limit (length s))
    which true e =
        let over : ltb limit (length s) ≡ true = sym (length-take-over limit s) ∙ e in
        let same : take limit (take (limit + 1) s) ≡ take limit s =
          subst (λ n. take limit (take n s) ≡ take limit s) (plus_one limit) (take-take limit s) in
        rw (same, over) refl
    which false e =
        let fits : ltb limit (length s) ≡ false = sym (length-take-over limit s) ∙ e in
        let same : take (limit + 1) s ≡ take limit s =
          take-short (limit + 1) limit s (ground arith) (ground arith) in
        rw (same, fits) refl

-- Whatever a requester calls itself: what the window is given is the text with spaces for tabs, and
-- with all controls, separators of lines and paragraphs, and formats left out, by the ranges of the
-- Unicode tables, in its order, up to 16384 characters; and the flag says whether there were more. So
-- none of these characters is in it, and it is never longer.
pub clip_command-IsShown :
    (s : Text)
    → let (shown, cut) = clip_command s in
      (shown ≡ take command_clip (shown_of s))
      × (cut ≡ ltb command_clip (length (shown_of s)))
      × All IsShown shown
      × (length shown ≤ command_clip)
unfolding clip_command
clip_command-IsShown s =
    let e : ◌≡◌ {A = Text × Bool} (cut_at command_clip (kept_chars s))
        (take command_clip (shown_of s), ltb command_clip (length (shown_of s))) =
      rw (kept_chars-shown_of s) (cut_at-take command_clip (shown_of s)) in
    let shown : (cut_at command_clip (kept_chars s)).0 ≡ take command_clip (shown_of s) =
      ap (λ (p : Text × Bool). p.0) e in
    (
      shown,
      ap (λ (p : Text × Bool). p.1) e,
      rw shown (take-All command_clip (shown_of s) (shown_of-IsShown s)),
      rw shown (length-take-le command_clip (shown_of s)),
    )
