-- ===== src/Camera/Luma.antt =====
-- Unpacking frames of whole bytes (faceauth-camera/src/unpack.rs).
use omarchy_faceauth.Prelude.{
  ℕ, zero, suc, ◌≡◌, ◌≤◌, ◌<◌, ap, ◌+◌, ◌*◌, ◌%◌, ◌∙◌, ◌||◌, ◌⊎◌, [], ◌∷◌, refl, true, false, Bool,
  Option, none, some, List, ltb, length, map_or, arith, if-cases, map_or-cases,
}
use omarchy_faceauth.Camera.{
  usize_limit, byte_at, set_at, each, plane, unpack_pairs, luma_at, grey_at, unpack_yuyv_luma,
  unpack_y16, unpack_grey8, widened, byte_sample,
}
use omarchy_faceauth.Camera.Formats.{
  greys8, lumas, greys16, byte_sample-greys8, luma_at-lumas, grey_at-greys16, luma_at-some,
  grey_at-some,
}
use omarchy_faceauth.Camera.Buffers.{set_at-Resized, byte_at-set_at, length-set_at}

-- The samples from `i` on, `n` of them, are read, and all others are the ones of before.
abbrev pub IsFilled : (ℕ → Option ℕ) → ℕ → ℕ → List ℕ → List ℕ → Type 0
IsFilled read n i dst dst' =
    (length dst' ≡ length dst)
    × ((j : ℕ) → i ≤ j → j < i + n → byte_at dst' j ≡ read j)
    × ((j : ℕ) → j < i → byte_at dst' j ≡ byte_at dst j)
    × ((j : ℕ) → i + n ≤ j → byte_at dst' j ≡ byte_at dst j)

abbrev pub Filled : (ℕ → Option ℕ) → ℕ → ℕ → List ℕ → Option (List ℕ) → Type 0
Filled read n i dst none = true ≡ false
Filled read n i dst (some dst') = IsFilled read n i dst dst'

Filled-more :
    (read : ℕ → Option ℕ) (n i : ℕ) (dst d : List ℕ) (v : ℕ) (o : Option (List ℕ))
    → read i ≡ some v
    → set_at dst i v ≡ some d
    → length d ≡ length dst
    → Filled read n (i + 1) d o
    → Filled read (suc n) i dst o
Filled-more read n i dst d v none hr hs hl f = f
Filled-more read n i dst d v (some dst') hr hs hl (fl, at, before, after) = (
  omega arith,
  λ j lo hi. ground (arith, at j, before j, byte_at-set_at dst i v d j hs),
  λ j lo. ground (arith, before j, byte_at-set_at dst i v d j hs),
  λ j hi. ground (arith, after j, byte_at-set_at dst i v d j hs),
)

pub each-Filled :
    (read : ℕ → Option ℕ) (n i : ℕ) (dst : List ℕ)
    → ((j : ℕ) → j < i + n → ¬ (read j ≡ none))
    → i + n ≤ length dst
    → Filled read n i dst (each read n i dst)
unfolding each
each-Filled read zero i dst hr hd = (refl, λ j lo hi. ground arith, λ j lo. refl, λ j hi. refl)
each-Filled read (suc n) i dst hr hd =
    map_or-cases (Filled read (suc n) i dst) (read i) none _ (λ e. elim (hr i (omega arith) e) [ ])
      (λ v hv.
        map_or-cases (Filled read (suc n) i dst) (set_at dst i v) none _
          (λ e. ground (arith, set_at-Resized dst i v))
          (λ d hs.
            Filled-more read n i dst d v (each read n (i + 1) d) hv hs (length-set_at dst i v d hs)
              (each-Filled read n (i + 1) d (λ j hj. hr j (omega arith))
                (omega (arith, length-set_at dst i v d hs)))))

-- What a frame of `bytes` bytes and `pixels` samples is refused for.
abbrev pub IsMisfit : ℕ → ℕ → List ℕ → List ℕ → Type 0
IsMisfit bytes pixels src dst =
    length src < bytes ⊎ length dst < pixels ⊎ usize_limit ≤ bytes ⊎ usize_limit ≤ pixels

abbrev pub IsPicture : (ℕ → Option ℕ) → ℕ → ℕ → List ℕ → List ℕ → Option (Bool × List ℕ) → Type 0
IsPicture read bytes pixels src dst none = true ≡ false
IsPicture read bytes pixels src dst (some (true, dst')) = IsFilled read pixels 0 dst dst'
IsPicture read bytes pixels src dst (some (false, dst')) =
    (dst' ≡ dst) × IsMisfit bytes pixels src dst

picture :
    (read : ℕ → Option ℕ) (bytes pixels : ℕ) (src dst : List ℕ) (o : Option (List ℕ))
    → Filled read pixels 0 dst o
    → IsPicture read bytes pixels src dst (map_or o none (λ dst'. some (true, dst')))
picture read bytes pixels src dst none f = f
picture read bytes pixels src dst (some dst') f = f

Filled-same :
    (read spec : ℕ → Option ℕ) (n : ℕ) (dst : List ℕ) (o : Option (List ℕ))
    → ((j : ℕ) → j < n → read j ≡ spec j)
    → Filled read n 0 dst o
    → Filled spec n 0 dst o
Filled-same read spec n dst none same f = f
Filled-same read spec n dst (some dst') same (fl, at, before, after) =
    (fl, λ j lo hi. at j lo hi ∙ same j (omega arith), before, after)

pairs-IsPicture :
    (read spec : ℕ → Option ℕ) (src : List ℕ) (width height : ℕ) (dst : List ℕ)
    → ((j : ℕ) → 2 * j + 1 < length src → ¬ (read j ≡ none))
    → ((j : ℕ) → 2 * j + 1 < length src → read j ≡ spec j)
    → IsPicture spec
        (width * height * 2)
        (width * height)
        src
        dst
        (unpack_pairs read src width height dst)
unfolding unpack_pairs plane
pairs-IsPicture read spec src width height dst hr same =
    map_or-cases Q (plane width height 2) _ _ (λ e. (refl, ground arith))
      (λ bytes hb.
        map_or-cases Q (plane width height 1) _ _ (λ e. (refl, ground arith))
          (λ pixels hp.
            if-cases Q (ltb (length src) bytes || ltb (length dst) pixels) _ _
              (λ e. (refl, ground arith))
              (λ enough.
                picture spec (width * height * 2) (width * height) src dst
                  (each read (width * height) 0 dst)
                  (Filled-same read spec (width * height) dst (each read (width * height) 0 dst)
                    (λ j hj. same j (ground arith))
                    (each-Filled read (width * height) 0 dst (λ j hj. hr j (ground arith))
                      (ground arith))))))
  where
    Q : Option (Bool × List ℕ) → Type 0
    Q = IsPicture spec (width * height * 2) (width * height) src dst

more-IsFilled :
    (n s d : ℕ) (ss ds out : List ℕ)
    → IsFilled (byte_sample ss) n 0 ds out
    → IsFilled (byte_sample (s ∷ ss)) (suc n) 0 (d ∷ ds) (s * 4 ∷ out)
unfolding byte_sample byte_at
more-IsFilled n s d ss ds out tail = (ap suc tail.0, at, λ j lo. ground arith, after)
  where
    at : (j : ℕ) → 0 ≤ j → j < 0 + suc n → byte_at (s * 4 ∷ out) j ≡ byte_sample (s ∷ ss) j
    at zero lo hi = refl
    at (suc j) lo hi = tail.1 j (omega arith) (omega arith)

    after : (j : ℕ) → 0 + suc n ≤ j → byte_at (s * 4 ∷ out) j ≡ byte_at (d ∷ ds) j
    after zero hi = ground arith
    after (suc j) hi = tail.3 j (omega arith)

widened-IsFilled :
    (n : ℕ) (src dst : List ℕ)
    → n ≤ length src
    → n ≤ length dst
    → IsFilled (byte_sample src) n 0 dst (widened n src dst)
unfolding widened
widened-IsFilled zero src dst hs hd = (refl, λ j lo hi. ground arith, λ j lo. refl, λ j hi. refl)
widened-IsFilled (suc n) [] dst hs hd = ground arith
widened-IsFilled (suc n) (s ∷ ss) [] hs hd = ground arith
widened-IsFilled (suc n) (s ∷ ss) (d ∷ ds) hs hd =
    more-IsFilled n s d ss ds (widened n ss ds)
      (widened-IsFilled n ss ds (omega arith) (omega arith))

grey8-IsPicture :
    (src : List ℕ) (width height : ℕ) (dst : List ℕ)
    → IsPicture
        (byte_at (greys8 src))
        (width * height)
        (width * height)
        src
        dst
        (unpack_grey8 src width height dst)
unfolding unpack_grey8 plane
grey8-IsPicture src width height dst =
    map_or-cases Q (plane width height 1) _ _ (λ e. (refl, ground arith))
      (λ pixels hp.
        if-cases Q (ltb (length src) pixels || ltb (length dst) pixels) _ _
          (λ e. (refl, ground arith))
          (λ enough.
            Filled-same (byte_sample src) (byte_at (greys8 src)) (width * height) dst
              (some (widened (width * height) src dst)) (λ j hj. byte_sample-greys8 src j)
              (widened-IsFilled (width * height) src dst (ground arith) (ground arith))))
  where
    Q : Option (Bool × List ℕ) → Type 0
    Q = IsPicture (byte_at (greys8 src)) (width * height) (width * height) src dst

-- Grey frames of 8 bits and of 16, and the luma of YUYV, are unpacked without a panic: either the
-- samples of the frame are those that its bytes stand for, in order, and the samples behind it stay,
-- or the frame is refused, the samples stay, and the bytes or the samples given are too few or too
-- many for a `usize`. A byte of 8-bit grey is a sample on a quarter of the scale; the luma is the first
-- byte of each pair; of 16 bits the low byte is first, and the shift is as a release build masks it.
pub unpack-IsPicture :
    (src : List ℕ) (width height shift_down : ℕ) (dst : List ℕ)
    → IsPicture
        (byte_at (greys8 src))
        (width * height)
        (width * height)
        src
        dst
        (unpack_grey8 src width height dst)
      × IsPicture
          (byte_at (lumas src))
          (width * height * 2)
          (width * height)
          src
          dst
          (unpack_yuyv_luma src width height dst)
      × IsPicture
          (byte_at (greys16 (shift_down % 16) src))
          (width * height * 2)
          (width * height)
          src
          dst
          (unpack_y16 src width height shift_down dst)
unfolding unpack_yuyv_luma unpack_y16
unpack-IsPicture src width height shift_down dst = (
  grey8-IsPicture src width height dst,
  pairs-IsPicture (luma_at src) (byte_at (lumas src)) src width height dst (luma_at-some src)
      (luma_at-lumas src),
  pairs-IsPicture (grey_at src shift_down) (byte_at (greys16 (shift_down % 16) src)) src width
      height dst (grey_at-some src shift_down) (grey_at-greys16 shift_down src),
)
