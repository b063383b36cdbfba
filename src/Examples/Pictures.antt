-- ===== src/Examples/Pictures.antt =====
-- Frames at concrete inputs (faceauth-camera/src/unpack.rs).
use omarchy_faceauth.Prelude.{
  ℕ, zero, suc, ◌≡◌, ◌<◌, All, refl, true, false, some, List, [], ◌∷◌, ◌*◌, arith,
}
use omarchy_faceauth.Camera.{
  unpack_ipu3_10, unpack_grey8, unpack_yuyv_luma, unpack_y16, luma_at, grey_at, ipu3_row_stride,
  plane, rows, row, group, pixel_at, byte_at, set_at, window, widened, unpack_pairs, each,
}
use omarchy_faceauth.Camera.Frames.{IsFrame, unpack-IsFrame}
use omarchy_faceauth.Camera.Bits.{HasBit, pixel_at-HasBit}
use omarchy_faceauth.Camera.Formats.{greys8, lumas, greys16}
use omarchy_faceauth.Camera.Luma.{IsPicture, unpack-IsPicture}

abbrev zeros : ℕ → List ℕ
zeros zero = []
zeros (suc n) = 0 ∷ zeros n

-- A row of 64 bytes.
abbrev packed_row : List ℕ
packed_row = 1 ∷ 8 ∷ 3 ∷ zeros 61

unpacks_row : unpack_ipu3_10 packed_row 2 1 (7 ∷ 7 ∷ 7 ∷ []) ≡ some (true, 1 ∷ 194 ∷ 7 ∷ [])
unfolding unpack_ipu3_10 ipu3_row_stride plane rows row group pixel_at byte_at set_at window
unpacks_row = refl

refuses_row : unpack_ipu3_10 packed_row 2 2 (7 ∷ 7 ∷ 7 ∷ []) ≡ some (false, 7 ∷ 7 ∷ 7 ∷ [])
unfolding unpack_ipu3_10 ipu3_row_stride plane
refuses_row = refl

unpack-IsFrame_example :
    IsFrame packed_row 2 1 (7 ∷ 7 ∷ 7 ∷ []) (unpack_ipu3_10 packed_row 2 1 (7 ∷ 7 ∷ 7 ∷ []))
unpack-IsFrame_example = unpack-IsFrame packed_row 2 1 (7 ∷ 7 ∷ 7 ∷ []) (omega arith)

zeros-All : (n : ℕ) → All (λ b. b < 256) (zeros n)
zeros-All zero = tt
zeros-All (suc n) = (omega arith, zeros-All n)

-- Its first group, whose second pixel is 194.
abbrev first_group : List ℕ
first_group = 1 ∷ 8 ∷ 3 ∷ zeros 29

pixel_at-HasBit_example : HasBit first_group 1 7
pixel_at-HasBit_example =
    pixel_at-HasBit first_group 1 7 refl (omega arith, (omega arith, (omega arith, zeros-All 29)))
      (omega arith) (omega arith)

abbrev two_pixels : List ℕ
two_pixels = 8 ∷ 4 ∷ 200 ∷ 1 ∷ []

unpacks_grey : unpack_grey8 two_pixels 2 1 (7 ∷ 7 ∷ []) ≡ some (true, 32 ∷ 16 ∷ [])
unfolding unpack_grey8 plane widened
unpacks_grey = refl

unpacks_luma : unpack_yuyv_luma two_pixels 2 1 (7 ∷ 7 ∷ []) ≡ some (true, 32 ∷ 800 ∷ [])
unfolding unpack_yuyv_luma unpack_pairs each luma_at plane byte_at set_at
unpacks_luma = refl

unpacks_grey16 : unpack_y16 two_pixels 2 1 6 (7 ∷ 7 ∷ []) ≡ some (true, 16 ∷ 7 ∷ [])
unfolding unpack_y16 unpack_pairs each grey_at plane byte_at set_at
unpacks_grey16 = refl

unpack-IsPicture_example :
    IsPicture
      (byte_at (greys8 two_pixels))
      (2 * 1)
      (2 * 1)
      two_pixels
      (7 ∷ 7 ∷ [])
      (unpack_grey8 two_pixels 2 1 (7 ∷ 7 ∷ []))
    × IsPicture
        (byte_at (lumas two_pixels))
        (2 * 1 * 2)
        (2 * 1)
        two_pixels
        (7 ∷ 7 ∷ [])
        (unpack_yuyv_luma two_pixels 2 1 (7 ∷ 7 ∷ []))
    × IsPicture
        (byte_at (greys16 6 two_pixels))
        (2 * 1 * 2)
        (2 * 1)
        two_pixels
        (7 ∷ 7 ∷ [])
        (unpack_y16 two_pixels 2 1 6 (7 ∷ 7 ∷ []))
unpack-IsPicture_example = unpack-IsPicture two_pixels 2 1 6 (7 ∷ 7 ∷ [])
