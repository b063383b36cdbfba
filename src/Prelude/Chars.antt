-- ===== src/Prelude/Chars.antt =====
-- The properties of characters that the module asks of the standard library.
use omarchy_faceauth.Prelude.{
  ℕ, ◌+◌, ◌-◌, ◌*◌, Bool, false, ◌&&◌, ◌||◌, Option, none, some, [], ◌∷◌, Text, ltb, leb, ◌==◌,
  if◌then◌else◌,
}

-- `char::is_control`: general category Cc.
abbrev pub is_control : ℕ → Bool
is_control c = ltb c 32 || (leb 127 c && leb c 159)

-- `char::is_whitespace`: White_Space.
abbrev pub is_whitespace : ℕ → Bool
is_whitespace c =
    (leb 9 c && leb c 13)
    || c == 32
    || c == 133
    || c == 160
    || c == 5760
    || (leb 8192 c && leb c 8202)
    || c == 8232
    || c == 8233
    || c == 8239
    || c == 8287
    || c == 12288

abbrev pub char_len : ℕ → ℕ
char_len c = if ltb c 128 then 1 else if ltb c 2048 then 2 else if ltb c 65536 then 3 else 4

-- `str::len`: the bytes of the UTF-8.
abbrev pub utf8_len : Text → ℕ
utf8_len [] = 0
utf8_len (c ∷ s) = char_len c + utf8_len s

abbrev pub trim_start : Text → Text
trim_start [] = []
trim_start (c ∷ s) = if is_whitespace c then trim_start s else c ∷ s

abbrev pub any : (ℕ → Bool) → Text → Bool
any p [] = false
any p (c ∷ s) = p c || any p s

-- `char::is_ascii_digit` and `char::is_ascii_alphanumeric`.
abbrev pub is_digit : ℕ → Bool
is_digit c = leb b'0' c && leb c b'9'

abbrev pub is_alphanumeric : ℕ → Bool
is_alphanumeric c = is_digit c || (leb b'A' c && leb c b'Z') || (leb b'a' c && leb c b'z')

-- The value of a run of digits below a limit.
abbrev digits_value : ℕ → ℕ → Text → Option ℕ
digits_value limit n [] = some n
digits_value limit n (c ∷ s) =
    let m = n * 10 + (c - b'0') in
    let rest = digits_value limit m s in if is_digit c && ltb m limit then rest else none

abbrev unsigned : ℕ → Text → Option ℕ
unsigned limit [] = none
unsigned limit (c ∷ s) = digits_value limit 0 (c ∷ s)

-- `str::parse` of an unsigned number below `limit`: digits, with a plus sign allowed before them.
abbrev pub parse_below : ℕ → Text → Option ℕ
parse_below limit [] = none
parse_below limit (c ∷ s) = if c == b'+' then unsigned limit s else unsigned limit (c ∷ s)

abbrev pub parse_u64 : Text → Option ℕ
parse_u64 = parse_below 18446744073709551616

abbrev pub parse_u32 : Text → Option ℕ
parse_u32 = parse_below 4294967296

-- `str::parse::<i32>` of a text without a minus sign.
abbrev pub parse_i32 : Text → Option ℕ
parse_i32 = parse_below 2147483648
