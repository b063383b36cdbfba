-- ===== src/Requester.antt =====
-- Who asks for consent (faceauth-daemon/src/consent/requester.rs): what is read of /proc, the text
-- that a card may show, and the contexts of the polkit agent. `Proc` is /proc as the source reads
-- it: the link of the executable, and a file with its NULs replaced and its ends trimmed.
pub mod Clip
pub mod Proc
pub mod Named
pub mod Taken
pub mod Own
pub mod FromPid
use omarchy_faceauth.Prelude.{
  ℕ, zero, suc, ◌+◌, ◌-◌, Bool, true, false, ◌&&◌, ◌||◌, not, Option, none, some, List, [], ◌∷◌,
  ◌++◌, Text, codes, text_eq, strip_prefix, starts_with, take, ltb, leb, ◌==◌, length, is_some,
  map_or, if◌then◌else◌,
}
use omarchy_faceauth.Prelude.Chars.{is_control, parse_u32, parse_i32}
use omarchy_faceauth.Prelude.Splits.{is_empty_text, split, words, lines, last_piece, decimal}
use omarchy_faceauth.Prelude.Joins.{join}

abbrev pub command_clip : ℕ
command_clip = 16384

-- The ranges of general category Cf.
abbrev pub formats : List (ℕ × ℕ)
formats =
    (173, 173)
    ∷ (1536, 1541)
    ∷ (1564, 1564)
    ∷ (1757, 1757)
    ∷ (1807, 1807)
    ∷ (2192, 2193)
    ∷ (2274, 2274)
    ∷ (6158, 6158)
    ∷ (8203, 8207)
    ∷ (8234, 8238)
    ∷ (8288, 8292)
    ∷ (8294, 8303)
    ∷ (65279, 65279)
    ∷ (65529, 65531)
    ∷ (69821, 69821)
    ∷ (69837, 69837)
    ∷ (78896, 78911)
    ∷ (113824, 113827)
    ∷ (119155, 119162)
    ∷ (917505, 917505)
    ∷ (917536, 917631)
    ∷ []

abbrev pub in_ranges : ℕ → List (ℕ × ℕ) → Bool
in_ranges c [] = false
in_ranges c ((lo, hi) ∷ more) = (leb lo c && leb c hi) || in_ranges c more

unfoldable pub is_dropped_category : ℕ → Bool
is_dropped_category c = is_control c || c == 8232 || c == 8233 || in_ranges c formats

-- The characters kept, a tab as a space.
unfoldable pub kept_chars : Text → Text
kept_chars [] = []
kept_chars (c ∷ s) =
    let more = kept_chars s in
    if c == 9 then 32 ∷ more else if is_dropped_category c then more else c ∷ more

-- A text cut after `limit` characters, and whether it was.
unfoldable pub cut_at : ℕ → Text → Text × Bool
cut_at limit s =
    let kept = take (limit + 1) s in
    if ltb limit (length kept) then (take limit kept, true) else (kept, false)

-- The text for the window, and whether it was cut.
unfoldable pub clip_command : Text → Text × Bool
clip_command s = cut_at command_clip (kept_chars s)

unfoldable pub clip : Text → Text
clip s = (clip_command s).0
