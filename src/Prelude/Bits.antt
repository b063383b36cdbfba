-- ===== src/Prelude/Bits.antt =====
-- When the bitwise operations of the source give zero.
use Prim.Native.Nat.{
  ℕ, zero, suc, ◌/◌, ◌%◌, ◌≤◌, max, digits, differ, bit_or, bit_xor, bit_or-bitwise,
  bit_xor-bitwise,
}
use mathlib.Core.Path.{◌≡◌, refl, sym, ◌∙◌}
use native.Mathlib.Omega.{arith}

or_digits_zero : (n a b : ℕ) → a ≤ n → digits (λ y. y) max n a b ≡ 0 → (a ≡ 0) × (b ≡ 0)
or_digits_zero zero a b h e = omega arith
or_digits_zero (suc n) zero b h e = omega arith
or_digits_zero (suc n) (suc a) b h e =
    let halves = or_digits_zero n (suc a / 2) (b / 2) (omega arith) (omega arith) in omega arith

pub bit_or-eq-zero : (a b : ℕ) → bit_or a b ≡ 0 → (a ≡ 0) × (b ≡ 0)
bit_or-eq-zero a b h = or_digits_zero a a b (omega arith) (sym (bit_or-bitwise a b) ∙ h)

differ-eq-zero : (x y : ℕ) → differ x y ≡ 0 → x ≡ y
differ-eq-zero zero y h = sym h
differ-eq-zero (suc x) zero h = h
differ-eq-zero (suc x) (suc y) h = omega (arith, differ-eq-zero x y h)

xor_digits_zero : (n a b : ℕ) → a ≤ n → digits (λ y. y) differ n a b ≡ 0 → a ≡ b
xor_digits_zero zero a b h e = omega arith
xor_digits_zero (suc n) zero b h e = sym e
xor_digits_zero (suc n) (suc a) b h e = omega (
  arith,
  xor_digits_zero n (suc a / 2) (b / 2) (omega arith) (omega arith),
  differ-eq-zero (suc a % 2) (b % 2) (omega arith),
)

pub bit_xor-eq-zero : (a b : ℕ) → bit_xor a b ≡ 0 → a ≡ b
bit_xor-eq-zero a b h = xor_digits_zero a a b (omega arith) (sym (bit_xor-bitwise a b) ∙ h)

differ_self : (x : ℕ) → differ x x ≡ 0
differ_self zero = refl
differ_self (suc x) = differ_self x

xor_digits_self : (n a : ℕ) → a ≤ n → digits (λ y. y) differ n a a ≡ 0
xor_digits_self zero a h = omega arith
xor_digits_self (suc n) zero h = refl
xor_digits_self (suc n) (suc a) h =
    omega (arith, xor_digits_self n (suc a / 2) (omega arith), differ_self (suc a % 2))

pub bit_xor_self : (a : ℕ) → bit_xor a a ≡ 0
bit_xor_self a = bit_xor-bitwise a a ∙ xor_digits_self a a (omega arith)
