-- ===== src/Passwordless/OneLine.antt =====
-- The rule says one thing (faceauth-daemon/src/consent/passwordless.rs).
use omarchy_faceauth.Prelude.{ℕ, ◌≡◌, ◌≢◌, refl, true, false, [], ◌∷◌, ◌++◌, Text, codes, arith}
use omarchy_faceauth.Prelude.Chars.{is_whitespace}
use omarchy_faceauth.Prelude.Splits.{words, split_by}
use omarchy_faceauth.Passwordless.{is_name_char, all_name, rule_line}

name-NotWhitespace : (c : ℕ) → is_name_char c ≡ true → is_whitespace c ≡ false
name-NotWhitespace c h = ground arith

split_by-name :
    (user rest : Text)
    → all_name user ≡ true
    → split_by is_whitespace (user ++ (32 ∷ rest)) ≡ user ∷ split_by is_whitespace rest
unfolding split_by
split_by-name [] rest h = refl
split_by-name (c ∷ user) rest h = ground (arith, name-NotWhitespace c, split_by-name user rest)

words-name :
    (user rest : Text)
    → user ≢ []
    → all_name user ≡ true
    → words (user ++ (32 ∷ rest)) ≡ user ∷ words rest
unfolding words
words-name [] rest some_user h = absurd (some_user refl)
words-name (c ∷ user) rest some_user h = ground (arith, split_by-name (c ∷ user) rest h)

-- The rule that is written for a user name that is let in is read as the four words of a sudoers
-- rule, the name the first: nothing in the name adds a word or a line.
pub rule_line-words :
    (user : Text)
    → user ≢ []
    → all_name user ≡ true
    → words (rule_line user) ≡ user ∷ codes "ALL=(ALL)" ∷ codes "NOPASSWD:" ∷ codes "ALL" ∷ []
unfolding rule_line words split_by
rule_line-words user some_user h = words-name user (codes "ALL=(ALL) NOPASSWD: ALL\n") some_user h
