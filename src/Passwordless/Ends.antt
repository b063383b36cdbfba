-- ===== src/Passwordless/Ends.antt =====
-- No rule without a timer (faceauth-daemon/src/consent/passwordless.rs).
use omarchy_faceauth.Prelude.{ℕ, ◌≡◌, ◌⊎◌, none, some, Text}
use omarchy_faceauth.Passwordless.{Spell, timer_args}

-- A rule in place has a running timer that deletes its file.
abbrev pub Ends : Text → Text → Spell → Type 0
Ends dir user s = (s.rule ≡ none) ⊎ ((minutes : ℕ) × (s.timer ≡ some (timer_args dir user minutes)))
