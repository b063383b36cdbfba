-- ===== src/Prelude/Splits.antt =====
-- The operations of `str` that take a text apart, and decimal numbers.
use omarchy_faceauth.Prelude.{
  ℕ, zero, suc, ◌+◌, ◌/◌, ◌%◌, ◌≡◌, refl, Bool, true, false, ◌&&◌, ◌||◌, not, Option, none, some,
  List, [], ◌∷◌, Text, text_eq, ltb, ◌==◌, if◌then◌else◌, retain, starts_with,
}
use omarchy_faceauth.Prelude.Chars.{is_whitespace, trim_start}

abbrev pub is_empty_text : Text → Bool
is_empty_text [] = true
is_empty_text (_ ∷ _) = false

-- A character put in front of the first piece.
abbrev pub push_head : ℕ → List Text → List Text
push_head c [] = (c ∷ []) ∷ []
push_head c (p ∷ ps) = (c ∷ p) ∷ ps

-- `str::split` by the characters that pass a test: one piece more than there are of these.
unfoldable pub split_by : (ℕ → Bool) → Text → List Text
split_by p [] = [] ∷ []
split_by p (c ∷ s) = let ps = split_by p s in if p c then [] ∷ ps else push_head c ps

unfoldable pub split : ℕ → Text → List Text
unfolding split_by
split sep s = split_by (λ c. c == sep) s

-- `str::split_whitespace`.
unfoldable pub words : Text → List Text
unfolding split_by
words s = retain (λ w. not (is_empty_text w)) (split_by is_whitespace s)

abbrev begins_lf : Text → Bool
begins_lf [] = false
begins_lf (c ∷ s) = c == 10

-- `str::lines`: a line feed ends a line, and takes a carriage return before it along.
unfoldable pub lines : Text → List Text
lines [] = []
lines (c ∷ s) =
    let ls = lines s in
    if c == 10 then [] ∷ ls else if c == 13 && begins_lf s then ls else push_head c ls

-- The text behind the first `sep`, and the two sides of it (`str::split_once`).
unfoldable pub after_first : ℕ → Text → Option Text
after_first sep [] = none
after_first sep (c ∷ s) = if c == sep then some s else after_first sep s

abbrev consed : ℕ → Option (Text × Text) → Option (Text × Text)
consed c none = none
consed c (some (a, b)) = some (c ∷ a, b)

unfoldable pub split_once : ℕ → Text → Option (Text × Text)
split_once sep [] = none
split_once sep (c ∷ s) = let r = split_once sep s in if c == sep then some ([], s) else consed c r

-- `rsplit(sep).next()`: the last piece.
unfoldable pub last_piece : List Text → Text
last_piece [] = []
last_piece (p ∷ []) = p
last_piece (p ∷ q ∷ ps) = last_piece (q ∷ ps)

abbrev consed_text : ℕ → Option Text → Option Text
consed_text c none = none
consed_text c (some s) = some (c ∷ s)

-- `str::strip_suffix`, the suffix first.
unfoldable pub strip_suffix : Text → Text → Option Text
strip_suffix suffix [] = if is_empty_text suffix then some [] else none
strip_suffix suffix (c ∷ s) =
    let r = strip_suffix suffix s in if text_eq (c ∷ s) suffix then some [] else consed_text c r

abbrev put_back : ℕ → Text → Text
put_back c [] = if is_whitespace c then [] else c ∷ []
put_back c (d ∷ s) = c ∷ d ∷ s

abbrev pub trim_end : Text → Text
trim_end [] = []
trim_end (c ∷ s) = put_back c (trim_end s)

-- `str::trim`.
unfoldable pub trim : Text → Text
trim s = trim_end (trim_start s)

-- `str::contains`, the text looked for first.
unfoldable pub contains : Text → Text → Bool
contains p [] = is_empty_text p
contains p (c ∷ s) = starts_with p (c ∷ s) || contains p s

-- The decimal digits of a number; its own size is fuel enough.
decimal_from : ℕ → ℕ → Text → Text
decimal_from zero n acc = acc
decimal_from (suc fuel) n acc =
    let more = decimal_from fuel (n / 10) ((b'0' + n % 10) ∷ acc) in
    if ltb n 10 then (b'0' + n) ∷ acc else more

unfoldable pub decimal : ℕ → Text
unfolding decimal_from
decimal n = decimal_from (suc n) n []

decimal_1042 : decimal 1042 ≡ b'1' ∷ b'0' ∷ b'4' ∷ b'2' ∷ []
unfolding decimal
decimal_1042 = refl
