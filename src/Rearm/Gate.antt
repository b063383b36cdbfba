-- ===== src/Rearm/Gate.antt =====
-- The gate that decides, look by look, whether the nods may arm again
-- (faceauth-daemon/src/auth/rearm.rs, `RearmGate`).
use omarchy_faceauth.Prelude.{
  ℕ, ◌+◌, ◌%◌, Bool, true, false, ◌&&◌, not, Option, none, some, ltb, if◌then◌else◌,
}
use omarchy_faceauth.Presence.Config.{PresenceMode, is_secure}
use omarchy_faceauth.Presence.Watch.{passed, failed}

pub record RearmGate : Type 0 where
  pub need_away : Bool
  pub away_seen : Bool
  pub strikes : ℕ
  pub identity_fails : ℕ

pub data Looked : Type 0 where
  wait : (user_seen : Bool) → Looked
  identify arm : Looked

unfoldable pub new : Bool → PresenceMode → RearmGate
new need_away m = record {
  need_away = need_away;
  away_seen = false;
  strikes = if is_secure m then 1 else 2;
  identity_fails = 0;
}

-- The failures in a row after a look's verdict, a u32.
abbrev pub count_fails : ℕ → Option Bool → ℕ
count_fails n none = n
count_fails n (some true) = 0
count_fails n (some false) = (n + 1) % 4294967296

unfoldable pub look : RearmGate → Bool → Bool → Option Bool → RearmGate × Looked
look g face attentive identity =
    let fails = count_fails g.identity_fails identity in
    let user_seen = face && ltb fails g.strikes in
    let attentive_user = face && attentive && not (failed identity) in
    let g' = record g { identity_fails = fails } in
    if not attentive_user
    then (record g' { away_seen = true }, wait user_seen)
    else if g.need_away && not g.away_seen
    then (g', wait user_seen)
    else if passed identity
    then (g', arm)
    else (g', identify)
