-- ===== src/Camera/Frames.antt =====
-- Unpacking a whole frame of packed groups (faceauth-camera/src/unpack.rs).
use native.Mathlib.Nat.{suc-mul, add-mul}
use omarchy_faceauth.Prelude.{
  ℕ, zero, suc, ◌≡◌, ◌⊎◌, ◌∙◌, inl, inr, ◌≤◌, ◌<◌, ◌+◌, ◌*◌, ◌/◌, refl, sym, ◌||◌, true, false,
  Bool, Option, none, some, List, ltb, leb, length, map_or, arith, if-cases, map_or-cases,
}
use omarchy_faceauth.Camera.{
  byte_at, window, pixel_at, group, row, rows, usize_limit, unpack_ipu3_10, ipu3_row_stride, plane,
  checked_mul,
}
use omarchy_faceauth.Camera.Groups.{OnSome, weaken, chain, sliced, IsGroup, group-IsGroup}
use omarchy_faceauth.Camera.Luma.{IsMisfit}

same_or_later : (a b : ℕ) → a ≤ b → (a ≡ b) ⊎ (a + 1 ≤ b)
same_or_later a b h = omega arith

-- From group `grp` of a row on, the samples are the pixels of the row's groups.
abbrev IsRow : List ℕ → ℕ → ℕ → ℕ → List ℕ → List ℕ → Type 0
IsRow bytes grp width base dst d =
    (length d ≡ length dst)
    × ((q k : ℕ)
        → grp ≤ q
        → k < 25
        → q * 25 + k < width
        → byte_at d (base + (q * 25 + k)) ≡ pixel_at (window bytes (q * 32) 32) k)
    × ((j : ℕ) → j < base + grp * 25 → byte_at d j ≡ byte_at dst j)
    × ((j : ℕ) → base + width ≤ j → byte_at d j ≡ byte_at dst j)

IsRow-more :
    (bytes : List ℕ) (grp width base : ℕ) (dst d e : List ℕ)
    → IsGroup (window bytes (grp * 32) 32) 25 0 (grp * 25) width base dst d
    → IsRow bytes (grp + 1) width base d e
    → IsRow bytes grp width base dst e
IsRow-more bytes grp width base dst d e (fl, at, before, after) (fl', at', before', after') = (
  omega arith,
  λ q k lo hi hk. elim (same_or_later grp q lo) [
    | inl here ↦ rw (sym here) (
        before' (base + (grp * 25 + k)) (omega arith)
        ∙ at k (omega arith) (omega arith) (omega arith))
    | inr later ↦ at' q k later hi hk
  ],
  λ j lo. before' j (omega arith) ∙ before j (omega arith),
  λ j hi. after' j hi ∙ after j hi,
)

row-IsRow :
    (fuel grp : ℕ) (bytes : List ℕ) (width base : ℕ) (dst : List ℕ)
    → length bytes ≡ (width + 49) / 50 * 64
    → width ≤ grp * 25 + fuel
    → base + width ≤ length dst
    → OnSome (IsRow bytes grp width base dst) (row fuel grp bytes width base dst)
unfolding row
row-IsRow zero grp bytes width base dst hl hf hb =
    if-cases (OnSome (IsRow bytes grp width base dst)) (ltb (grp * 25) width) none (some dst)
      (λ inside. ground arith)
      (λ out. (refl, λ q k lo hi hk. ground arith, λ j lo. refl, λ j hi. refl))
row-IsRow (suc fuel) grp bytes width base dst hl hf hb =
    if-cases (OnSome (IsRow bytes grp width base dst)) (ltb (grp * 25) width) _ (some dst)
      (λ inside. sliced (IsRow bytes grp width base dst) bytes (grp * 32) 32 _ (ground arith) (λ hg.
        chain (IsGroup (window bytes (grp * 32) 32) 25 0 (grp * 25) width base dst)
          (IsRow bytes grp width base dst)
          (group 25 0 (window bytes (grp * 32) 32) (grp * 25) width base dst) _
          (group-IsGroup 25 0 (window bytes (grp * 32) 32) (grp * 25) width base dst hg
            (omega arith) hb)
          (λ d hd.
            weaken (IsRow bytes (grp + 1) width base d) (IsRow bytes grp width base dst)
              (row fuel (grp + 1) bytes width base d)
              (row-IsRow fuel (grp + 1) bytes width base d hl (omega arith) (omega (arith, hd.0)))
              (λ e. IsRow-more bytes grp width base dst d e hd))))
      (λ out. (refl, λ q k lo hi hk. ground arith, λ j lo. refl, λ j hi. refl))

-- From row `y` on, `n` rows are the pixels of their groups.
abbrev pub IsRows : List ℕ → ℕ → ℕ → ℕ → ℕ → List ℕ → List ℕ → Type 0
IsRows src n y stride width dst d =
    (length d ≡ length dst)
    × ((p q k : ℕ)
        → y ≤ p
        → p < y + n
        → k < 25
        → q * 25 + k < width
        → byte_at d (p * width + (q * 25 + k))
          ≡ pixel_at (window (window src (p * stride) stride) (q * 32) 32) k)
    × ((j : ℕ) → j < y * width → byte_at d j ≡ byte_at dst j)
    × ((j : ℕ) → (y + n) * width ≤ j → byte_at d j ≡ byte_at dst j)

-- The products of a row more, and the end of its samples.
products :
    (y n w : ℕ)
    → ((y + 1) * w ≡ y * w + w)
      × ((y + suc n) * w ≡ y * w + w + n * w)
      × ((y + 1 + n) * w ≡ y * w + w + n * w)
products y n w = (
  omega (arith, add-mul y 1 w),
  omega (arith, add-mul y (suc n) w, suc-mul n w),
  omega (arith, add-mul (y + 1) n w, add-mul y 1 w),
)

IsRows-more :
    (src : List ℕ) (n y stride width : ℕ) (dst d e : List ℕ)
    → IsRow (window src (y * stride) stride) 0 width (y * width) dst d
    → IsRows src n (y + 1) stride width d e
    → IsRows src (suc n) y stride width dst e
IsRows-more src n y stride width dst d e (fl, at, before, after) (fl', at', before', after') = (
  omega arith,
  λ p q k lo hi hk hw. elim (same_or_later y p lo) [
    | inl here ↦ rw (sym here) (
        before' (y * width + (q * 25 + k)) (omega (arith, products y n width))
        ∙ at q k (omega arith) hk hw)
    | inr later ↦ at' p q k later (omega arith) hk hw
  ],
  λ j lo. before' j (omega (arith, products y n width)) ∙ before j (omega arith),
  λ j hi.
      after' j (omega (arith, products y n width)) ∙ after j (omega (arith, products y n width)),
)

rows-IsRows :
    (n y : ℕ) (src : List ℕ) (stride width : ℕ) (dst : List ℕ)
    → stride ≡ (width + 49) / 50 * 64
    → (y + n) * stride ≤ length src
    → (y + n) * width ≤ length dst
    → OnSome (IsRows src n y stride width dst) (rows n y src stride width dst)
unfolding rows
rows-IsRows zero y src stride width dst hs hp hm =
    (refl, λ p q k lo hi hk hw. ground arith, λ j lo. refl, λ j hi. refl)
rows-IsRows (suc n) y src stride width dst hs hp hm =
    sliced R src (y * stride) stride _ (omega (arith, products y n stride)) (λ hl.
      if-cases (OnSome R) (leb (y * width + width) (length dst)) _ none
        (λ fits.
          chain (IsRow bytes 0 width (y * width) dst) R (row width 0 bytes width (y * width) dst) _
            (row-IsRow width 0 bytes width (y * width) dst (hl ∙ hs) (omega arith)
              (omega (arith, products y n width)))
            (λ d hd.
              weaken (IsRows src n (y + 1) stride width d) R (rows n (y + 1) src stride width d)
                (rows-IsRows n (y + 1) src stride width d hs (omega (arith, products y n stride))
                  (omega (arith, products y n width, hd.0)))
                (λ e. IsRows-more src n y stride width dst d e hd)))
        (λ out. ground (arith, products y n width)))
  where
    R : List ℕ → Type 0
    R = IsRows src (suc n) y stride width dst

    bytes : List ℕ
    bytes = window src (y * stride) stride

-- What unpacking packed rows answers. Ten bits of a group are `pixel_at`.
abbrev pub IsFrame : List ℕ → ℕ → ℕ → List ℕ → Option (Bool × List ℕ) → Type 0
IsFrame src width height dst none = true ≡ false
IsFrame src width height dst (some (true, dst')) =
    IsRows src height 0 (ipu3_row_stride width) width dst dst'
IsFrame src width height dst (some (false, dst')) =
    (dst' ≡ dst) × IsMisfit (ipu3_row_stride width * height) (width * height) src dst

frame :
    (src : List ℕ) (width height : ℕ) (dst : List ℕ) (o : Option (List ℕ))
    → OnSome (IsRows src height 0 (ipu3_row_stride width) width dst) o
    → IsFrame src width height dst (map_or o none (λ dst'. some (true, dst')))
frame src width height dst none r = r
frame src width height dst (some bs) r = r

stride_lem : (w : ℕ) → (w + 49) / 50 * 64 < usize_limit → ipu3_row_stride w ≡ (w + 49) / 50 * 64
unfolding ipu3_row_stride
stride_lem w h = omega arith

-- Unpacking packed rows does not panic, when a row's stride does not overflow: either each sample of
-- the frame is the pixel of its row, its group of 25 and its place there, and those behind the frame
-- stay, or the frame is refused, the samples stay, and the bytes or the samples given are too few or
-- too many for a `usize`.
pub unpack-IsFrame :
    (src : List ℕ) (width height : ℕ) (dst : List ℕ)
    → (width + 49) / 50 * 64 < usize_limit
    → IsFrame src width height dst (unpack_ipu3_10 src width height dst)
unfolding unpack_ipu3_10 plane
unpack-IsFrame src width height dst h =
    map_or-cases Q (checked_mul stride height) _ _ (λ e. (refl, ground arith))
      (λ packed hp.
        map_or-cases Q (plane width height 1) _ _ (λ e. (refl, ground arith))
          (λ pixels hd.
            if-cases Q (ltb (length src) packed || ltb (length dst) pixels) _ _
              (λ e. (refl, ground arith))
              (λ enough. frame src width height dst (rows height 0 src stride width dst) (
                rows-IsRows height 0 src stride width dst (stride_lem width h) (ground arith)
                  (ground arith)))))
  where
    Q : Option (Bool × List ℕ) → Type 0
    Q = IsFrame src width height dst

    stride : ℕ
    stride = ipu3_row_stride width
