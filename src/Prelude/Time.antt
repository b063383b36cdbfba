-- ===== src/Prelude/Time.antt =====
-- `Instant` and `Duration` as counts of nanoseconds. `duration_since` and the saturating
-- subtractions of the source stop at zero, as `-` does.
use Prim.Native.Nat.{ℕ, ◌*◌}

abbrev pub Instant : Type 0
Instant = ℕ

abbrev pub Duration : Type 0
Duration = ℕ

abbrev pub secs : ℕ → Duration
secs n = n * 1_000_000_000

abbrev pub millis : ℕ → Duration
millis n = n * 1_000_000

-- `f32` values are carried as their bit patterns: nothing here computes with one.
abbrev pub F32 : Type 0
F32 = ℕ
