-- ===== src/Store/Enrolled/Known.antt =====
-- The enrolled users are those with a set on disk (faceauth-daemon/src/store/files.rs).
use omarchy_faceauth.Prelude.{ℕ, Bool, false, Option, none, some, [], ◌∷◌, Text, text_eq}
use omarchy_faceauth.Store.Disk.{Files, Store}

-- Is a file's name of this user?
abbrev names : Option Text → Text → Bool
names none u = false
names (some v) u = text_eq v u

abbrev last_or : ℕ → Text → ℕ
last_or d [] = d
last_or d (c ∷ s) = last_or c s
