-- ===== src/Camera.antt =====
-- Unpacking a frame into 10-bit samples (faceauth-camera/src/unpack.rs). `none` stands for a panic,
-- an index or a slice out of range; a frame of the buffer's is a list.
pub mod Buffers
pub mod Bits
pub mod Groups
pub mod Frames
pub mod Formats
pub mod Luma
use omarchy_faceauth.Prelude.{
  ℕ, zero, suc, ◌+◌, ◌*◌, ◌/◌, ◌%◌, ◌^◌, Bool, true, false, ◌||◌, Option, none, some, List, [], ◌∷◌,
  ltb, leb, length, if◌then◌else◌, map_or,
}

abbrev pub usize_limit : ℕ
usize_limit = 18446744073709551616

-- `ipu3_row_stride`; the product wraps in a release build.
unfoldable pub ipu3_row_stride : ℕ → ℕ
ipu3_row_stride width = (width + 49) / 50 * 64 % usize_limit

abbrev pub checked_mul : ℕ → ℕ → Option ℕ
checked_mul a b = if ltb (a * b) usize_limit then some (a * b) else none

unfoldable pub plane : ℕ → ℕ → ℕ → Option ℕ
plane width height per = map_or (checked_mul width height) none (λ n. checked_mul n per)

unfoldable pub byte_at : List ℕ → ℕ → Option ℕ
byte_at [] i = none
byte_at (b ∷ bs) zero = some b
byte_at (b ∷ bs) (suc i) = byte_at bs i

unfoldable pub set_at : List ℕ → ℕ → ℕ → Option (List ℕ)
set_at [] i v = none
set_at (b ∷ bs) zero v = some (v ∷ bs)
set_at (b ∷ bs) (suc i) v = map_or (set_at bs i v) none (λ rest. some (b ∷ rest))

-- `n` bytes from `from` on.
unfoldable pub window : List ℕ → ℕ → ℕ → List ℕ
window [] from n = []
window (b ∷ bs) (suc from) n = window bs from n
window (b ∷ bs) zero zero = []
window (b ∷ bs) zero (suc n) = b ∷ window bs zero n

abbrev pub slice : List ℕ → ℕ → ℕ → Option (List ℕ)
slice bs from n = if leb (from + n) (length bs) then some (window bs from n) else none

-- Pixel `i` of a group: ten bits of two bytes, which share none, so that their `|` is their sum.
unfoldable pub pixel_at : List ℕ → ℕ → Option ℕ
unfolding byte_at
pixel_at g i = map_or (byte_at g (10 * i / 8)) none (λ a.
    map_or (byte_at g (10 * i / 8 + 1)) none (λ b. some ((a + b * 256) / 2 ^ (10 * i % 8) % 1024)))

-- The loop over a group's pixels, up to the row's width.
unfoldable pub group : ℕ → ℕ → List ℕ → ℕ → ℕ → ℕ → List ℕ → Option (List ℕ)
unfolding pixel_at set_at
group zero i g x0 width base dst = some dst
group (suc n) i g x0 width base dst =
    if ltb (x0 + i) width
    then map_or (pixel_at g i) none (λ v.
      map_or (set_at dst (base + (x0 + i)) v) none (λ dst'. group n (i + 1) g x0 width base dst'))
    else some dst

-- The groups of a row. Each covers 25 pixels, so that a round for each pixel is enough.
unfoldable pub row : ℕ → ℕ → List ℕ → ℕ → ℕ → List ℕ → Option (List ℕ)
unfolding group window
row zero grp bytes width base dst = if ltb (grp * 25) width then none else some dst
row (suc fuel) grp bytes width base dst =
    if ltb (grp * 25) width
    then map_or (slice bytes (grp * 32) 32) none (λ g.
      map_or (group 25 0 g (grp * 25) width base dst) none
        (λ dst'. row fuel (grp + 1) bytes width base dst'))
    else some dst

unfoldable pub rows : ℕ → ℕ → List ℕ → ℕ → ℕ → List ℕ → Option (List ℕ)
unfolding row window
rows zero y src stride width dst = some dst
rows (suc n) y src stride width dst = map_or (slice src (y * stride) stride) none (λ bytes.
    if leb (y * width + width) (length dst)
    then map_or (row width 0 bytes width (y * width) dst) none
        (λ dst'. rows n (y + 1) src stride width dst')
    else none)

-- `unpack_ipu3_10`: its answer, and the samples.
unfoldable pub unpack_ipu3_10 : List ℕ → ℕ → ℕ → List ℕ → Option (Bool × List ℕ)
unfolding rows plane ipu3_row_stride
unpack_ipu3_10 src width height dst =
    let refused : Option (Bool × List ℕ) = some (false, dst) in
    map_or (checked_mul (ipu3_row_stride width) height) refused (λ packed.
      map_or (plane width height 1) refused (λ pixels.
        if ltb (length src) packed || ltb (length dst) pixels
        then refused
        else map_or (rows height 0 src (ipu3_row_stride width) width dst) none
            (λ dst'. some (true, dst'))))

-- The zip of the samples with the bytes, 8 bits widened to 10.
unfoldable pub widened : ℕ → List ℕ → List ℕ → List ℕ
widened zero src dst = dst
widened (suc n) [] dst = dst
widened (suc n) (s ∷ ss) [] = []
widened (suc n) (s ∷ ss) (d ∷ ds) = s * 4 ∷ widened n ss ds

-- The sample of a byte.
unfoldable pub byte_sample : List ℕ → ℕ → Option ℕ
unfolding byte_at
byte_sample src i = map_or (byte_at src i) none (λ b. some (b * 4))

unfoldable pub unpack_grey8 : List ℕ → ℕ → ℕ → List ℕ → Option (Bool × List ℕ)
unfolding widened plane
unpack_grey8 src width height dst = map_or (plane width height 1) (some (false, dst)) (λ pixels.
    if ltb (length src) pixels || ltb (length dst) pixels
    then some (false, dst)
    else some (true, widened (width * height) src dst))

-- The loop `for i in i..i + n { dst[i] = … }`.
unfoldable pub each : (ℕ → Option ℕ) → ℕ → ℕ → List ℕ → Option (List ℕ)
unfolding set_at
each read zero i dst = some dst
each read (suc n) i dst =
    map_or (read i) none (λ v. map_or (set_at dst i v) none (λ dst'. each read n (i + 1) dst'))

-- What the unpackers of two bytes a pixel share.
unfoldable pub unpack_pairs : (ℕ → Option ℕ) → List ℕ → ℕ → ℕ → List ℕ → Option (Bool × List ℕ)
unfolding each plane
unpack_pairs read src width height dst =
    let refused : Option (Bool × List ℕ) = some (false, dst) in
    map_or (plane width height 2) refused (λ bytes. map_or (plane width height 1) refused (λ pixels.
      if ltb (length src) bytes || ltb (length dst) pixels
      then refused
      else map_or (each read (width * height) 0 dst) none (λ dst'. some (true, dst'))))

unfoldable pub luma_at : List ℕ → ℕ → Option ℕ
unfolding byte_at
luma_at src i = map_or (byte_at src (2 * i)) none (λ b. some (b * 4))

unfoldable pub unpack_yuyv_luma : List ℕ → ℕ → ℕ → List ℕ → Option (Bool × List ℕ)
unfolding unpack_pairs luma_at
unpack_yuyv_luma src width height dst = unpack_pairs (luma_at src) src width height dst

-- A 16-bit shift; a release build masks its count.
unfoldable pub grey_at : List ℕ → ℕ → ℕ → Option ℕ
unfolding byte_at
grey_at src shift_down i = map_or (byte_at src (2 * i)) none (λ a.
    map_or (byte_at src (2 * i + 1)) none
      (λ b. some ((a + b * 256) / 2 ^ (shift_down % 16) % 1024)))

unfoldable pub unpack_y16 : List ℕ → ℕ → ℕ → ℕ → List ℕ → Option (Bool × List ℕ)
unfolding unpack_pairs grey_at
unpack_y16 src width height shift_down dst =
    unpack_pairs (grey_at src shift_down) src width height dst
