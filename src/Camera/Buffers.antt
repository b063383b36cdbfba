-- ===== src/Camera/Buffers.antt =====
-- The accesses a frame is unpacked by, within their bounds (faceauth-camera/src/unpack.rs).
use omarchy_faceauth.Prelude.{
  ℕ, zero, suc, ◌≡◌, ◌==◌, if◌then◌else◌, ◌≤◌, ◌<◌, ◌+◌, ◌*◌, ◌/◌, ap, refl, true, false, map_or,
  Option, none, some, List, [], ◌∷◌, length, arith,
}
use omarchy_faceauth.Camera.{byte_at, set_at, window, pixel_at}

-- What a panic-free change of a buffer leaves: a buffer of the same length.
abbrev pub Resized : Option (List ℕ) → ℕ → Type 0
Resized none n = true ≡ false
Resized (some bs) n = length bs ≡ n

pub byte_at-some : (bs : List ℕ) (i : ℕ) → i < length bs → ¬ (byte_at bs i ≡ none)
unfolding byte_at
byte_at-some [] i h = ground arith
byte_at-some (b ∷ bs) zero h = ground arith
byte_at-some (b ∷ bs) (suc i) h = byte_at-some bs i (omega arith)

pub set_at-Resized : (bs : List ℕ) (i v : ℕ) → i < length bs → Resized (set_at bs i v) (length bs)
unfolding set_at
set_at-Resized [] i v h = ground arith
set_at-Resized (b ∷ bs) zero v h = refl
set_at-Resized (b ∷ bs) (suc i) v h = tail (set_at bs i v) (set_at-Resized bs i v (omega arith))
  where
    tail :
        (o : Option (List ℕ))
        → Resized o (length bs)
        → Resized (map_or o none (λ rest. some (b ∷ rest))) (length (b ∷ bs))
    tail none r = r
    tail (some rest) r = ap suc r

pub length-window :
    (bs : List ℕ) (from n : ℕ) → from + n ≤ length bs → length (window bs from n) ≡ n
unfolding window
length-window [] from n h = omega arith
length-window (b ∷ bs) (suc from) n h = length-window bs from n (omega arith)
length-window (b ∷ bs) zero zero h = refl
length-window (b ∷ bs) zero (suc n) h = ap suc (length-window bs zero n (omega arith))

-- Each pixel of a group lies in two bytes of its 32.
pub pixel_at-some : (g : List ℕ) (i : ℕ) → length g ≡ 32 → i < 25 → ¬ (pixel_at g i ≡ none)
unfolding pixel_at
pixel_at-some g i hg hi e =
    ground (arith, byte_at-some g (10 * i / 8), byte_at-some g (10 * i / 8 + 1))

-- A store is read back, and no other sample changes.
pub byte_at-set_at :
    (bs : List ℕ) (i v : ℕ) (bs' : List ℕ) (j : ℕ)
    → set_at bs i v ≡ some bs'
    → byte_at bs' j ≡ (if i == j then some v else byte_at bs j)
unfolding byte_at set_at
byte_at-set_at [] i v bs' j e = ground arith
byte_at-set_at (b ∷ bs) zero v bs' zero e = ground arith
byte_at-set_at (b ∷ bs) zero v bs' (suc j) e = ground arith
byte_at-set_at (b ∷ bs) (suc i) v [] j e = ground arith
byte_at-set_at (b ∷ bs) (suc i) v (c ∷ bs') zero e = ground arith
byte_at-set_at (b ∷ bs) (suc i) v (c ∷ bs') (suc j) e = ground (arith, byte_at-set_at bs i v bs' j)

pub length-set_at :
    (bs : List ℕ) (i v : ℕ) (bs' : List ℕ) → set_at bs i v ≡ some bs' → length bs' ≡ length bs
unfolding set_at
length-set_at [] i v bs' e = ground arith
length-set_at (b ∷ bs) zero v bs' e = ground arith
length-set_at (b ∷ bs) (suc i) v [] e = ground arith
length-set_at (b ∷ bs) (suc i) v (c ∷ bs') e = ground (arith, length-set_at bs i v bs')
