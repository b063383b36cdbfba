-- ===== src/Camera/Bits.antt =====
-- The pixels of a group as bits of its stream (faceauth-camera/src/unpack.rs).
use omarchy_faceauth.Prelude.{
  ℕ, ◌≡◌, ◌∙◌, ap, Bool-cases, ◌⊎◌, inl, inr, refl, sym, ◌<◌, ◌+◌, ◌-◌, ◌*◌, ◌/◌, ◌%◌, ◌^◌, Option,
  none, some, List, [], ◌∷◌, zero, suc, All, ltb, length, if◌then◌else◌, map_or, Option-cases,
  arith,
}
use mathlib.Core.Path.{subst}
use omarchy_faceauth.Camera.{byte_at, pixel_at}
use omarchy_faceauth.Camera.Buffers.{byte_at-some}

-- Bit `n` of a stream of bytes, the low bits of each byte first.
unfoldable pub bit_at : List ℕ → ℕ → Option ℕ
bit_at g n = map_or (byte_at g (n / 8)) none (λ b. some (b / 2 ^ (n % 8) % 2))

below10 :
    (P : ℕ → Type 0)
    → P 0
    → P 1
    → P 2
    → P 3
    → P 4
    → P 5
    → P 6
    → P 7
    → P 8
    → P 9
    → (t : ℕ) → t < 10
    → P t
below10 P a b c d e f g h i j t below = elim (one_of t below) [
  | inl r ↦ elim r [
    | inl k ↦ subst P k a
    | inr r ↦ elim r [
      | inl k ↦ subst P k b
      | inr r ↦ elim r [
        | inl k ↦ subst P k c
        | inr r ↦ elim r [ inl k ↦ subst P k d | inr k ↦ subst P k e ]
      ]
    ]
  ]
  | inr r ↦ elim r [
    | inl k ↦ subst P k f
    | inr r ↦ elim r [
      | inl k ↦ subst P k g
      | inr r ↦ elim r [
        | inl k ↦ subst P k h
        | inr r ↦ elim r [ inl k ↦ subst P k i | inr k ↦ subst P k j ]
      ]
    ]
  ]
]
  where
    one_of :
        (t : ℕ)
        → t < 10
        → ((0 ≡ t) ⊎ ((1 ≡ t) ⊎ ((2 ≡ t) ⊎ ((3 ≡ t) ⊎ (4 ≡ t)))))
          ⊎ ((5 ≡ t) ⊎ ((6 ≡ t) ⊎ ((7 ≡ t) ⊎ ((8 ≡ t) ⊎ (9 ≡ t)))))
    one_of t below = omega arith

-- Bit `t` of the ten from bit `s` of two bytes on.
abbrev PairBit : ℕ → ℕ → ℕ → ℕ → Type 0
PairBit a b s t =
    (a + b * 256) / 2 ^ s % 1024 / 2 ^ t % 2
    ≡ (if ltb (s + t) 8 then a / 2 ^ (s + t) % 2 else b / 2 ^ (s + t - 8) % 2)

pair_from0 : (a b : ℕ) → a < 256 → b < 256 → (t : ℕ) → t < 10 → PairBit a b 0 t
pair_from0 a b ha hb =
    below10 (λ t. PairBit a b 0 t) (omega arith) (omega arith) (omega arith) (omega arith)
      (omega arith) (omega arith) (omega arith) (omega arith) (omega arith) (omega arith)

pair_from2 : (a b : ℕ) → a < 256 → b < 256 → (t : ℕ) → t < 10 → PairBit a b 2 t
pair_from2 a b ha hb =
    below10 (λ t. PairBit a b 2 t) (omega arith) (omega arith) (omega arith) (omega arith)
      (omega arith) (omega arith) (omega arith) (omega arith) (omega arith) (omega arith)

pair_from4 : (a b : ℕ) → a < 256 → b < 256 → (t : ℕ) → t < 10 → PairBit a b 4 t
pair_from4 a b ha hb =
    below10 (λ t. PairBit a b 4 t) (omega arith) (omega arith) (omega arith) (omega arith)
      (omega arith) (omega arith) (omega arith) (omega arith) (omega arith) (omega arith)

pair_from6 : (a b : ℕ) → a < 256 → b < 256 → (t : ℕ) → t < 10 → PairBit a b 6 t
pair_from6 a b ha hb =
    below10 (λ t. PairBit a b 6 t) (omega arith) (omega arith) (omega arith) (omega arith)
      (omega arith) (omega arith) (omega arith) (omega arith) (omega arith) (omega arith)

pair_bits : (a b k : ℕ) → a < 256 → b < 256 → (t : ℕ) → t < 10 → PairBit a b (10 * k % 8) t
pair_bits a b k ha hb t ht = elim (shift_of (10 * k % 8) even (omega arith)) [
  | inl r ↦ elim r [
    | inl e ↦ subst (λ s. PairBit a b s t) e (pair_from0 a b ha hb t ht)
    | inr e ↦ subst (λ s. PairBit a b s t) e (pair_from2 a b ha hb t ht)
  ]
  | inr r ↦ elim r [
    | inl e ↦ subst (λ s. PairBit a b s t) e (pair_from4 a b ha hb t ht)
    | inr e ↦ subst (λ s. PairBit a b s t) e (pair_from6 a b ha hb t ht)
  ]
]
  where
    even : 10 * k % 8 % 2 ≡ 0
    even = omega arith

    shift_of : (s : ℕ) → s % 2 ≡ 0 → s < 8 → ((0 ≡ s) ⊎ (2 ≡ s)) ⊎ ((4 ≡ s) ⊎ (6 ≡ s))
    shift_of s h l = omega arith

byte_at-below : (g : List ℕ) (i a : ℕ) → All (λ b. b < 256) g → byte_at g i ≡ some a → a < 256
unfolding byte_at
byte_at-below [] i a h e = ground arith
byte_at-below (b ∷ g) zero a (h, hs) e = ground arith
byte_at-below (b ∷ g) (suc i) a (h, hs) e = byte_at-below g i a hs e

byte_at-is : (g : List ℕ) (i : ℕ) → i < length g → (a : ℕ) × (byte_at g i ≡ some a)
byte_at-is g i h = elim (Option-cases (byte_at g i)) [
  | inl e ↦ elim (byte_at-some g i h e) [ ]
  | inr found ↦ found
]

bit_at-pair :
    (g : List ℕ) (k t a b : ℕ)
    → t < 10
    → byte_at g (10 * k / 8) ≡ some a
    → byte_at g (10 * k / 8 + 1) ≡ some b
    → bit_at g (10 * k + t)
      ≡ some (
          if ltb (10 * k % 8 + t) 8
          then a / 2 ^ (10 * k % 8 + t) % 2
          else b / 2 ^ (10 * k % 8 + t - 8) % 2)
unfolding bit_at
bit_at-pair g k t a b ht ha hb = elim (Bool-cases (ltb (10 * k % 8 + t) 8)) [
  | inl low ↦
      let byte : (10 * k + t) / 8 ≡ 10 * k / 8 = ground arith in
      let bit : (10 * k + t) % 8 ≡ 10 * k % 8 + t = ground arith in rw (byte, bit, ha, low) refl
  | inr high ↦
      let byte : (10 * k + t) / 8 ≡ 10 * k / 8 + 1 = ground arith in
      let bit : (10 * k + t) % 8 ≡ 10 * k % 8 + t - 8 = ground arith in
      rw (byte, bit, hb, high) refl
]

-- There is a pixel `k`, of ten bits, and its bit `t` is the one of the stream.
abbrev pub HasBit : List ℕ → ℕ → ℕ → Type 0
HasBit g k t =
    (v : ℕ) × (pixel_at g k ≡ some v) × (v < 1024) × (bit_at g (10 * k + t) ≡ some (v / 2 ^ t % 2))

-- A group of 32 bytes has 25 pixels, each of ten bits: bit `t` of pixel `k` is bit `10 k + t` of the
-- group's stream, in which the low bits of each byte come first.
pub pixel_at-HasBit :
    (g : List ℕ) (k t : ℕ) → length g ≡ 32 → All (λ b. b < 256) g → k < 25 → t < 10 → HasBit g k t
unfolding pixel_at
pixel_at-HasBit g k t hg bytes hk ht =
    let (a, ha) = byte_at-is g (10 * k / 8) (omega arith) in
    let (b, hb) = byte_at-is g (10 * k / 8 + 1) (omega arith) in
    let small_a = byte_at-below g (10 * k / 8) a bytes ha in
    let small_b = byte_at-below g (10 * k / 8 + 1) b bytes hb in
    (
      (a + b * 256) / 2 ^ (10 * k % 8) % 1024,
      rw (ha, hb) refl,
      omega arith,
      bit_at-pair g k t a b ht ha hb ∙ ap some (sym (pair_bits a b k small_a small_b t ht)),
    )
