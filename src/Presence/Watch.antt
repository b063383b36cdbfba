-- ===== src/Presence/Watch.antt =====
-- The watch's judgement, tick by tick (faceauth-daemon/src/presence/watch.rs). `G` stands for a
-- frame; the similarity of two frames is float arithmetic, so the test of it against SAME_SHAPE
-- is an argument, `same_shape`.
use omarchy_faceauth.Prelude.{
  ℕ, ◌+◌, ◌-◌, ◌%◌, max, Bool, true, false, ◌&&◌, ◌||◌, not, Option, none, some, Instant, Duration,
  F32, secs, ltb, leb, ◌==◌, if◌then◌else◌, is_some_and, map_or,
}
use omarchy_faceauth.Presence.Config.{
  PresenceConfig, PresenceMode, default_mode, secure, is_secure, away_for, obscured_lock_for,
}

pub data State : Type 0 where
  present away stranger unknown : State

abbrev pub is_present : State → Bool
is_present present = true
is_present _ = false

abbrev pub is_away : State → Bool
is_away away = true
is_away _ = false

abbrev pub is_unknown : State → Bool
is_unknown unknown = true
is_unknown _ = false

abbrev pub BBox : Type 0
BBox = F32 × F32 × F32 × F32

-- What one look saw (presence/observe.rs).
pub record Observation (G : Type 0) : Type 0 where
  pub face : Bool
  pub attentive : Bool
  pub frame : Option G
  pub bbox : Option BBox
  pub identity : Option Bool
  pub near_miss : Bool

pub record Watch (G : Type 0) : Type 0 where
  pub cfg : PresenceConfig
  pub state : State
  pub last_seen : Option Instant
  pub last_full : Option Instant
  pub partial_logged : Bool
  pub reference : Option (G × BBox)
  pub locked_by_presence : Bool
  pub identity_ok : Bool
  pub identity_fails : ℕ

pub record Step : Type 0 where
  pub state : State
  pub lock : Bool
  pub away_for : Option Duration

-- `identity == Some(true)` and `identity == Some(false)`.
abbrev pub passed : Option Bool → Bool
passed none = false
passed (some b) = b

abbrev pub failed : Option Bool → Bool
failed none = false
failed (some b) = not b

-- Does a hidden face at `now` hold off the away clock?
unfoldable pub partial_holds : Instant → Option Instant → Option Duration → Bool
partial_holds now last_full limit =
    map_or last_full false (λ t. map_or limit true (λ l. ltb (now - t) l))

-- How many failed checks running make the face a stranger's.
abbrev strikes : PresenceMode → ℕ
strikes m = if is_secure m then 1 else 2

module _ {G : Type 0} where
  unfoldable pub new : PresenceConfig → Watch G
  new c = record {
    cfg = c;
    state = unknown;
    last_seen = none;
    last_full = none;
    partial_logged = false;
    reference = none;
    locked_by_presence = false;
    identity_ok = true;
    identity_fails = 0;
  }

  unfoldable pub note_recent : Watch G → Instant → Watch G
  note_recent w at =
      if map_or w.last_seen true (λ l. ltb l at) then record w { last_seen = some at } else w

  unfoldable pub locked : Watch G → Watch G
  locked w = record w { locked_by_presence = true; state = away }

  unfoldable pub resumed : Watch G → Instant → Bool → Watch G
  resumed w now by_face = record w {
    locked_by_presence = false;
    last_seen = some now;
    identity_ok = true;
    identity_fails = 0;
    state = if by_face then present else unknown;
  }

  -- The first statement of `step`: the identity check's verdict, when one ran.
  unfoldable pub note_identity : Watch G → PresenceMode → Option Bool → Watch G
  note_identity w m none = w
  note_identity w m (some true) = record w { identity_fails = 0; identity_ok = true }
  note_identity w m (some false) =
      let fails = (w.identity_fails + 1) % 4294967296 in
      record w {
        identity_fails = fails;
        identity_ok = if leb (strikes m) fails then false else w.identity_ok;
      }

  -- `seen`: who holds the clock this look.
  unfoldable pub holds_clock : Watch G → Observation G → PresenceMode → Bool
  holds_clock w o default_mode = o.face && (w.identity_ok || o.attentive)
  holds_clock w o secure = o.face && passed o.identity

  unfoldable pub is_stranger : Observation G → Bool
  is_stranger o = o.face && o.attentive && failed o.identity && not o.near_miss

  -- The condition under which the shape in the chair is compared at all.
  unfoldable pub compares_shape : Watch G → Observation G → Instant → PresenceMode → Bool
  unfolding holds_clock is_stranger partial_holds obscured_lock_for
  compares_shape w o now m =
      not (holds_clock w o m)
      && not (is_stranger o)
      && partial_holds now w.last_full (obscured_lock_for w.cfg m)

  -- `sim >= SAME_SHAPE`, false when there is no reference or no frame.
  unfoldable pub shape_matches : (G × BBox → G → Bool) → Watch G → Observation G → Bool
  shape_matches same_shape w o =
      is_some_and w.reference (λ r. is_some_and o.frame (λ f. same_shape r f))

  -- The reference a look leaves: its own frame and box, if its identity passed.
  abbrev next_reference : Watch G → Option Bool → Option G → Option BBox → Option (G × BBox)
  next_reference w (some true) (some f) (some b) = some (f, b)
  next_reference w _ _ _ = w.reference

  -- The clock, the reference and the log flag after a look.
  unfoldable pub mark : Watch G → Observation G → Instant → Bool → Bool → Bool → Watch G
  mark w o now seen held compared = record w {
    last_seen = if seen || held then some now else w.last_seen;
    last_full = if seen then some now else w.last_full;
    partial_logged = if seen then false else w.partial_logged || compared;
    reference = if seen then next_reference w o.identity o.frame o.bbox else w.reference;
  }

  -- Has the away time of the mode in force run out since the last sighting?
  unfoldable pub clock_out : Watch G → Instant → PresenceMode → Bool
  unfolding away_for
  clock_out w now m =
      map_or w.last_seen false (λ t. map_or (away_for w.cfg m) false (λ l. leb l (now - t)))

  unfoldable pub next_state :
      Watch G → Observation G → Instant → PresenceMode → Bool → Bool → Bool → State
  unfolding clock_out
  next_state w o now m seen held missed =
      if missed
      then away
      else if seen
      then if w.identity_ok then present else stranger
      else if clock_out w now m
      then away
      else if held
      then w.state
      else if o.face && not w.identity_ok
      then stranger
      else w.state

  abbrev settle : Watch G → State → Watch G
  settle w next = record w {
    state = next;
    locked_by_presence = if is_present next then false else w.locked_by_presence;
  }

  -- One look's worth of the rules.
  unfoldable pub step :
      (G × BBox → G → Bool) → Watch G → Observation G → Instant → PresenceMode → Watch G × Step
  unfolding note_identity holds_clock compares_shape shape_matches mark next_state
  step same_shape w₀ o now m =
      let w₁ = note_identity w₀ m o.identity in
      let seen = holds_clock w₁ o m in
      let compared = compares_shape w₁ o now m in
      let held = compared && shape_matches same_shape w₁ o in
      let missed = is_secure m && o.face && failed o.identity && not held in
      let w₂ = mark w₁ o now seen held compared in
      let next = next_state w₂ o now m seen held missed in
      (
        settle w₂ next,
        record {
          state = next;
          lock = is_away next && not w₂.locked_by_presence;
          away_for = map_or w₂.last_seen none (λ t. some (now - t));
        },
      )

-- Does this tick check identity? `tick.is_multiple_of(0)` holds of 0 alone, but `every` is
-- raised to 1 first.
unfoldable pub identify_this_tick : PresenceMode → ℕ → ℕ → State → Bool
identify_this_tick m tick every s =
    is_secure m || tick % max every 1 == 0 || (not (is_present s) && tick % 2 == 0)

abbrev pub default_mode_tick : Duration
default_mode_tick = secs 10

-- The time between looks.
unfoldable pub tick_for : PresenceConfig → PresenceMode → Bool → Duration
tick_for c m on_battery =
    let base =
      if on_battery && ltb 0 c.battery_tick_seconds
      then c.battery_tick_seconds
      else c.tick_seconds in
    if is_secure m then base else max base default_mode_tick
