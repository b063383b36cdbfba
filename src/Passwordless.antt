-- ===== src/Passwordless.antt =====
-- Passwordless sudo as an approval grants it: the sudoers.d rule and the timer that removes it
-- (faceauth-daemon/src/consent/passwordless.rs). What the file system and systemd answer is a
-- `Host`; `Path::join` puts a slash between a directory and a name.
pub mod Ends
pub mod OneLine
use omarchy_faceauth.Prelude.{
  ℕ, ◌*◌, Bool, true, false, ◌&&◌, ◌||◌, not, Option, none, some, List, [], ◌∷◌, ◌++◌, Text, codes,
  text_eq, ◌==◌, is_some, if◌then◌else◌,
}
use omarchy_faceauth.Prelude.Chars.{is_alphanumeric}
use omarchy_faceauth.Prelude.Splits.{is_empty_text, words, strip_suffix, decimal}

-- A character that may stand in a sudoers rule.
abbrev pub is_name_char : ℕ → Bool
is_name_char c = is_alphanumeric c || c == b'-' || c == b'_' || c == b'.'

abbrev pub all_name : Text → Bool
all_name [] = true
all_name (c ∷ s) = is_name_char c && all_name s

abbrev pub joined : Text → Text → Text
joined dir name = dir ++ (b'/' ∷ name)

unfoldable pub passwordless_file : Text → Text → Text
passwordless_file dir user = joined dir (codes "99-omarchy-nopasswd-" ++ user)

unfoldable pub passwordless_timer_unit : Text → Text
passwordless_timer_unit user = codes "omarchy-nopasswd-expire-" ++ user

-- The words of the timer's command.
unfoldable pub timer_args : Text → Text → ℕ → List Text
timer_args dir user minutes =
    codes "--on-active"
    ∷ (decimal minutes ++ codes "m")
    ∷ codes "--timer-property=AccuracySec=1s"
    ∷ (codes "--unit=" ++ passwordless_timer_unit user)
    ∷ codes "--collect"
    ∷ codes "/usr/bin/rm"
    ∷ codes "-f"
    ∷ codes "--"
    ∷ passwordless_file dir user
    ∷ []

unfoldable pub rule_line : Text → Text
rule_line user = user ++ codes " ALL=(ALL) NOPASSWD: ALL\n"

-- The rule in place, the temporary file beside it, and the command of the user's running timer.
pub record Spell : Type 0 where
  pub rule : Option Text
  pub tmp : Option Text
  pub timer : Option (List Text)

-- Which of the steps succeed.
pub record Host : Type 0 where
  pub starts : Bool
  pub removes : Bool
  pub opens : Bool
  pub writes : Bool
  pub chmods : Bool
  pub renames : Bool

pub data Enabled : Type 0 where
  placed bad_name unarmed unwritten : Enabled

-- An earlier timer of the name is stopped, and the new one started.
unfoldable pub run_passwordless_timer : Host → Spell → List Text → Spell × Bool
run_passwordless_timer h s args =
    (record s { timer = if h.starts then some args else none }, h.starts)

-- The rule is written beside its place, closed to others, and moved there.
place_rule : Host → Spell → Text → Spell × Enabled
place_rule h s user =
    if not h.opens
    then (s, unwritten)
    else if not h.writes
    then (record s { tmp = some [] }, unwritten)
    else if not (h.chmods && h.renames)
    then (record s { tmp = some (rule_line user) }, unwritten)
    else (record s { rule = some (rule_line user); tmp = none }, placed)

unfoldable pub enable_passwordless : Host → Spell → Text → Text → ℕ → Spell × Enabled
unfolding run_passwordless_timer place_rule
enable_passwordless h s dir user minutes =
    if is_empty_text user || not (all_name user)
    then (s, bad_name)
    else let (s', armed) = run_passwordless_timer h s (timer_args dir user minutes) in
      if not armed
      then (record s' { rule = if h.removes then none else s'.rule }, unarmed)
      else place_rule h s' user

abbrev names_command : Text → Bool
names_command w =
    text_eq w (codes "omarchy-sudo-passwordless")
    || is_some (strip_suffix (codes "/omarchy-sudo-passwordless") w)

abbrev any_names_command : List Text → Bool
any_names_command [] = false
any_names_command (w ∷ ws) = names_command w || any_names_command ws

-- Is the command Omarchy's own?
unfoldable pub is_passwordless_command : Text → Bool
is_passwordless_command command = any_names_command (words command)
