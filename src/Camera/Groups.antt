-- ===== src/Camera/Groups.antt =====
-- The pixels of one packed group (faceauth-camera/src/unpack.rs).
use omarchy_faceauth.Prelude.{
  ℕ, zero, suc, ◌≡◌, ◌≤◌, ◌<◌, ◌+◌, refl, true, false, Option, none, some, List, ltb, leb, length,
  map_or, arith, if-cases, map_or-cases,
}
use omarchy_faceauth.Camera.{byte_at, set_at, window, slice, pixel_at, group}
use omarchy_faceauth.Camera.Buffers.{
  set_at-Resized, length-window, length-set_at, byte_at-set_at, pixel_at-some,
}

-- No panic, and a property of what is left.
abbrev pub OnSome : (List ℕ → Type 0) → Option (List ℕ) → Type 0
OnSome P none = true ≡ false
OnSome P (some d) = P d

pub weaken :
    (P R : List ℕ → Type 0) (o : Option (List ℕ))
    → OnSome P o
    → ((d : List ℕ) → P d → R d)
    → OnSome R o
weaken P R none h k = h
weaken P R (some d) h k = k d h

pub chain :
    (P R : List ℕ → Type 0) (o : Option (List ℕ)) (f : List ℕ → Option (List ℕ))
    → OnSome P o
    → ((d : List ℕ) → P d → OnSome R (f d))
    → OnSome R (map_or o none f)
chain P R none f h k = h
chain P R (some d) f h k = k d h

pub sliced :
    (R : List ℕ → Type 0) (bs : List ℕ) (from m : ℕ) (f : List ℕ → Option (List ℕ))
    → from + m ≤ length bs
    → (length (window bs from m) ≡ m → OnSome R (f (window bs from m)))
    → OnSome R (map_or (slice bs from m) none f)
sliced R bs from m f h k =
    if-cases (λ o. OnSome R (map_or o none f)) (leb (from + m) (length bs))
      (some (window bs from m)) none (λ _. k (length-window bs from m h)) (λ e. ground arith)

-- From pixel `i` of a group on, the samples are its pixels; those before it and behind the row stay.
abbrev pub IsGroup : List ℕ → ℕ → ℕ → ℕ → ℕ → ℕ → List ℕ → List ℕ → Type 0
IsGroup g n i x0 width base dst d =
    (length d ≡ length dst)
    × ((k : ℕ) → i ≤ k → k < i + n → x0 + k < width → byte_at d (base + (x0 + k)) ≡ pixel_at g k)
    × ((j : ℕ) → j < base + (x0 + i) → byte_at d j ≡ byte_at dst j)
    × ((j : ℕ) → base + width ≤ j → byte_at d j ≡ byte_at dst j)

IsGroup-more :
    (g : List ℕ) (n i x0 width base v : ℕ) (dst d e : List ℕ)
    → pixel_at g i ≡ some v
    → x0 + i < width
    → set_at dst (base + (x0 + i)) v ≡ some d
    → IsGroup g n (i + 1) x0 width base d e
    → IsGroup g (suc n) i x0 width base dst e
IsGroup-more g n i x0 width base v dst d e hv hw hs (fl, at, before, after) = (
  omega (arith, length-set_at dst (base + (x0 + i)) v d hs),
  λ k lo hi hk. ground (
    arith,
    at k,
    before (base + (x0 + k)),
    byte_at-set_at dst (base + (x0 + i)) v d (base + (x0 + k)) hs,
  ),
  λ j lo. ground (arith, before j, byte_at-set_at dst (base + (x0 + i)) v d j hs),
  λ j hi. ground (arith, after j, byte_at-set_at dst (base + (x0 + i)) v d j hs),
)

pub group-IsGroup :
    (n i : ℕ) (g : List ℕ) (x0 width base : ℕ) (dst : List ℕ)
    → length g ≡ 32
    → i + n ≤ 25
    → base + width ≤ length dst
    → OnSome (IsGroup g n i x0 width base dst) (group n i g x0 width base dst)
unfolding group
group-IsGroup zero i g x0 width base dst hg hi hb =
    (refl, λ k lo hi hk. ground arith, λ j lo. refl, λ j hi. refl)
group-IsGroup (suc n) i g x0 width base dst hg hi hb =
    if-cases Q (ltb (x0 + i) width) _ (some dst)
      (λ inside.
        map_or-cases Q (pixel_at g i) none _ (λ e. elim (pixel_at-some g i hg (omega arith) e) [ ])
          (λ v hv.
            map_or-cases Q (set_at dst (base + (x0 + i)) v) none _
              (λ e. ground (arith, set_at-Resized dst (base + (x0 + i)) v))
              (λ d hs.
                weaken (IsGroup g n (i + 1) x0 width base d) (IsGroup g (suc n) i x0 width base dst)
                  (group n (i + 1) g x0 width base d)
                  (group-IsGroup n (i + 1) g x0 width base d hg (omega arith)
                    (omega (arith, length-set_at dst (base + (x0 + i)) v d hs)))
                  (λ e. IsGroup-more g n i x0 width base v dst d e hv (ground arith) hs))))
      (λ out. (refl, λ k lo hi hk. ground arith, λ j lo. refl, λ j hi. refl))
  where
    Q : Option (List ℕ) → Type 0
    Q = OnSome (IsGroup g (suc n) i x0 width base dst)
