-- ===== src/Camera/Formats.antt =====
-- The samples that the bytes of a frame stand for (faceauth-camera/src/unpack.rs).
use mathlib.Core.Path.{subst}
use omarchy_faceauth.Prelude.{
  ℕ, zero, suc, ◌≡◌, ap, refl, ◌<◌, ◌+◌, ◌*◌, ◌/◌, ◌%◌, ◌^◌, none, some, List, [], ◌∷◌, map, length,
  arith,
}
use omarchy_faceauth.Camera.{byte_at, byte_sample, luma_at, grey_at}
use omarchy_faceauth.Camera.Buffers.{byte_at-some}

-- What the formats say, as lists: a byte of grey is a sample on a quarter of the scale; of YUYV, the
-- first byte of each pair is the luma and the second is chroma; of 16-bit grey, the first byte of a pair
-- is the low one.
abbrev pub greys8 : List ℕ → List ℕ
greys8 src = map (λ b. b * 4) src

abbrev pub lumas : List ℕ → List ℕ
lumas [] = []
lumas (y ∷ []) = []
lumas (y ∷ chroma ∷ src) = y * 4 ∷ lumas src

abbrev pub greys16 : ℕ → List ℕ → List ℕ
greys16 shift [] = []
greys16 shift (low ∷ []) = []
greys16 shift (low ∷ high ∷ src) = (low + 256 * high) / 2 ^ shift % 1024 ∷ greys16 shift src

pub byte_sample-greys8 : (src : List ℕ) (j : ℕ) → byte_sample src j ≡ byte_at (greys8 src) j
unfolding byte_sample byte_at
byte_sample-greys8 [] j = refl
byte_sample-greys8 (b ∷ src) zero = refl
byte_sample-greys8 (b ∷ src) (suc j) = byte_sample-greys8 src j

byte_at-pair :
    (a b : ℕ) (s : List ℕ) (j : ℕ)
    → (byte_at (a ∷ b ∷ s) (2 * suc j) ≡ byte_at s (2 * j))
      × (byte_at (a ∷ b ∷ s) (2 * suc j + 1) ≡ byte_at s (2 * j + 1))
unfolding byte_at
byte_at-pair a b s j =
    let even : suc (suc (2 * j)) ≡ 2 * suc j = omega arith in
    let odd : suc (suc (2 * j + 1)) ≡ 2 * suc j + 1 = omega arith in
    (
      subst (λ n. byte_at (a ∷ b ∷ s) n ≡ byte_at s (2 * j)) even refl,
      subst (λ n. byte_at (a ∷ b ∷ s) n ≡ byte_at s (2 * j + 1)) odd refl,
    )

pub luma_at-lumas :
    (src : List ℕ) (j : ℕ) → 2 * j + 1 < length src → luma_at src j ≡ byte_at (lumas src) j
unfolding luma_at byte_at
luma_at-lumas [] j h = ground arith
luma_at-lumas (y ∷ []) j h = ground arith
luma_at-lumas (y ∷ c ∷ src) zero h = refl
luma_at-lumas (y ∷ c ∷ src) (suc j) h =
    rw ((byte_at-pair y c src j).0) (luma_at-lumas src j (omega arith))

low_first : (a b : ℕ) → a + b * 256 ≡ a + 256 * b
low_first a b = omega arith

pub grey_at-greys16 :
    (shift : ℕ) (src : List ℕ) (j : ℕ)
    → 2 * j + 1 < length src
    → grey_at src shift j ≡ byte_at (greys16 (shift % 16) src) j
unfolding grey_at byte_at
grey_at-greys16 shift [] j h = ground arith
grey_at-greys16 shift (y ∷ []) j h = ground arith
grey_at-greys16 shift (y ∷ c ∷ src) zero h =
    ap (λ (x : ℕ). some (x / 2 ^ (shift % 16) % 1024)) (low_first y c)
grey_at-greys16 shift (y ∷ c ∷ src) (suc j) h =
    rw ((byte_at-pair y c src j).0, (byte_at-pair y c src j).1)
      (grey_at-greys16 shift src j (omega arith))

pub luma_at-some : (src : List ℕ) (j : ℕ) → 2 * j + 1 < length src → ¬ (luma_at src j ≡ none)
unfolding luma_at
luma_at-some src j h e = ground (arith, byte_at-some src (2 * j))

pub grey_at-some : (src : List ℕ) (k j : ℕ) → 2 * j + 1 < length src → ¬ (grey_at src k j ≡ none)
unfolding grey_at
grey_at-some src k j h e = ground (arith, byte_at-some src (2 * j), byte_at-some src (2 * j + 1))
