-- ===== src/Consent/Token.antt =====
-- Answer tokens, compared in constant time (faceauth-daemon/src/consent/state.rs, `same_token`).
-- A token is the list of its bytes.
use mathlib.Core.Path.{subst}
use Prim.Native.Nat.{bit_or, bit_xor}
use omarchy_faceauth.Prelude.Bits.{bit_or-eq-zero, bit_xor-eq-zero, bit_xor_self}
use omarchy_faceauth.Prelude.{
  ℕ, ◌≡◌, refl, ◌≢◌, ◌↔◌, Bool, true, false, ◌&&◌, not, List, [], ◌∷◌, arith, ◌==◌, length,
}

abbrev pub Token : Type 0
Token = List ℕ

abbrev pub is_empty {ℓ} : {A : Type ℓ} → List A → Bool
is_empty [] = true
is_empty (_ ∷ _) = false

-- `zip(b).fold(acc, |acc, (x, y)| acc | (x ^ y))`: it stops at the shorter token.
fold_diff : ℕ → Token → Token → ℕ
fold_diff acc [] b = acc
fold_diff acc (x ∷ a) [] = acc
fold_diff acc (x ∷ a) (y ∷ b) = fold_diff (bit_or acc (bit_xor x y)) a b

unfoldable pub same_token : Token → Token → Bool
unfolding fold_diff
same_token a b = not (is_empty a) && length a == length b && fold_diff 0 a b == 0

fold_diff-acc : (acc : ℕ) (a b : Token) → fold_diff acc a b ≡ 0 → acc ≡ 0
unfolding fold_diff
fold_diff-acc acc [] b h = h
fold_diff-acc acc (x ∷ a) [] h = h
fold_diff-acc acc (x ∷ a) (y ∷ b) h =
    (bit_or-eq-zero acc (bit_xor x y) (fold_diff-acc (bit_or acc (bit_xor x y)) a b h)).0

fold_diff-eq : (acc : ℕ) (a b : Token) → length a ≡ length b → fold_diff acc a b ≡ 0 → a ≡ b
unfolding fold_diff
fold_diff-eq acc [] [] l h = refl
fold_diff-eq acc [] (y ∷ b) l h = absurd (omega arith)
fold_diff-eq acc (x ∷ a) [] l h = absurd (omega arith)
fold_diff-eq acc (x ∷ a) (y ∷ b) l h =
    let acc' = bit_or acc (bit_xor x y) in
    let clear = bit_or-eq-zero acc (bit_xor x y) (fold_diff-acc acc' a b h) in
    cc (bit_xor-eq-zero x y clear.1, fold_diff-eq acc' a b (omega arith) h)

fold_diff_self : (a : Token) → fold_diff 0 a a ≡ 0
unfolding fold_diff
fold_diff_self [] = refl
fold_diff_self (x ∷ a) = rw (bit_xor_self x) (fold_diff_self a)

-- The comparison in constant time accepts exactly a non-empty token equal to the one held.
pub same_token_iff : (a b : Token) → (same_token a b ≡ true) ↔ ((a ≢ []) × (a ≡ b))
unfolding same_token
same_token_iff [] b = (λ h. absurd (cc), λ h. absurd (h.0 refl))
same_token_iff (x ∷ a) b = (
  λ h. (λ e. cc, ground (arith, fold_diff-eq 0 (x ∷ a) b)),
  λ h. subst (λ c. same_token (x ∷ a) c ≡ true) h.1 (ground (arith, fold_diff_self (x ∷ a))),
)
