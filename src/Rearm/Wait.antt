-- ===== src/Rearm/Wait.antt =====
-- The hold and the attention wait as loops (faceauth-daemon/src/auth/rearm.rs). What the camera,
-- the clock and the consent state say in each round is an input; the loops end when they decide,
-- or with `none` when the inputs run out.
use omarchy_faceauth.Prelude.{
  ℕ, suc, ◌+◌, ◌-◌, ◌/◌, ◌%◌, Bool, true, false, ◌||◌, Option, none, some, List, [], ◌∷◌, Instant,
  Duration, secs, ltb, leb, ◌==◌, if◌then◌else◌, is_some, map_or,
}
use omarchy_faceauth.Presence.Watch.{Observation, passed}
use omarchy_faceauth.Rearm.Gate.{RearmGate, Looked, wait, identify, arm, look}

-- How a wait ends. `over`, `ready`, `answered` and `armed` are the source's `None`.
pub data End : Type 0 where
  over ready answered armed session_locked face_lost : End

-- `crate::consent::HEARTBEAT`: the card is sent again every minute.
abbrev pub heartbeat : Duration
heartbeat = secs 60

-- Every third look, and every look once the clock is half spent.
unfoldable pub identity_due : ℕ → Instant → Instant → Option Duration → Bool
identity_due looks now seen lost_after =
    looks % 3 == 0 || map_or lost_after false (λ l. ltb (l / 2) (now - seen))

-- The away clock after a look: the new `seen`, and whether the user has left.
unfoldable pub away_clock : Bool → Instant → Instant → Option Duration → Instant × Bool
away_clock true now seen lost_after = (now, false)
away_clock false now seen lost_after = (seen, map_or lost_after false (λ l. ltb l (now - seen)))

-- What the ten short sleeps of a round find: the card's "Ready to nod", or another answer.
pub data Polled : Type 0 where
  nothing says_ready has_answer : Polled

-- The inputs of a round of `attention_wait`: what the sleeps find, whether the session is locked,
-- the looks (the first told whether to check identity), each of which may err, and the times read
-- before and after them.
pub record Round (G : Type 0) : Type 0 where
  pub polled : Polled
  pub locked : Bool
  pub before : Instant
  pub first_look : Bool → Option (Observation G)
  pub second_look : Option (Observation G)
  pub after : Instant

pub record Waiting : Type 0 where
  pub gate : RearmGate
  pub looks : ℕ
  pub seen : Instant
  pub last_beat : Instant
  pub beats : ℕ

pub data Turn : Type 0 where
  stop : End → Waiting → Turn
  go : Waiting → Turn

-- "Asked and still unchecked": not an arm, and a look the clock counts.
abbrev settle : Looked → Looked
settle identify = wait false
settle d = d

abbrev is_identify : Looked → Bool
is_identify identify = true
is_identify _ = false

module _ {G : Type 0} where
  after_look : Waiting → Option Duration → Observation G → Instant → Turn
  unfolding away_clock
  after_look w lost_after o now =
      let (seen, left) = away_clock (passed o.identity) now w.seen lost_after in
      if left then stop face_lost w else go (record w { seen = seen })

  -- The decision of the round, after any identity look.
  decide : Waiting → Option Duration → Observation G → Instant → Looked → Turn
  unfolding after_look
  decide w lost_after o now arm = stop armed w
  decide w lost_after o now identify = go w
  decide w lost_after o now (wait user_seen) = after_look w lost_after o now

  -- The second look, on demand before an arm.
  identity_look : Waiting → Option Duration → Round G → Turn
  unfolding look decide
  identity_look w lost_after r = elim r.second_look [
    | none ↦ go w
    | some o ↦
        let (g, d) = look w.gate o.face o.attentive o.identity in
        decide (record w { gate = g }) lost_after o r.after (settle d)
  ]

  first_look : Waiting → Option Duration → Round G → Turn
  unfolding look decide identity_look identity_due
  first_look w lost_after r =
      elim (r.first_look (identity_due w.looks r.before w.seen lost_after)) [
        | none ↦ go w
        | some o ↦
            let (g, d) = look w.gate o.face o.attentive o.identity in
            let w' = record w { gate = g } in
            if is_identify d
            then identity_look w' lost_after r
            else decide w' lost_after o r.after d
      ]

  -- One round of `attention_wait`.
  unfoldable pub attend : Waiting → Option Duration → Round G → Turn
  unfolding first_look
  attend w lost_after r = elim r.polled [
    | says_ready ↦ stop ready w
    | has_answer ↦ stop answered w
    | nothing ↦
        if r.locked
        then stop session_locked w
        else let beat = leb heartbeat (r.before - w.last_beat) in
          first_look
            (record w {
              looks = w.looks + 1;
              last_beat = if beat then r.before else w.last_beat;
              beats = if beat then suc w.beats else w.beats;
            })
            lost_after r
  ]

  unfoldable pub attention_wait :
      Waiting → Option Duration → List (Round G) → Option (End × Waiting)
  attention_wait w lost_after [] = none
  attention_wait w lost_after (r ∷ rs) = elim (attend w lost_after r) [
    | stop e w' ↦ some (e, w')
    | go w' ↦ attention_wait w' lost_after rs
  ]

-- The inputs of a round of `hold_wait`: the time at its head, what the sleeps find (an answer, or
-- the end of the hold), the look, and the times around it.
pub data Slept : Type 0 where
  quiet answer_waits hold_ended : Slept

pub record HoldRound (G : Type 0) : Type 0 where
  pub start : Instant
  pub slept : Slept
  pub before : Instant
  pub look_taken : Bool → Option (Observation G)
  pub after : Instant

module _ {G : Type 0} where
  -- The look of a hold, for the away clock alone: `none` when the user has left.
  held_look : ℕ → Instant → Option Duration → HoldRound G → Option Instant
  unfolding away_clock identity_due
  held_look looks seen lost_after r =
      elim (r.look_taken (identity_due looks r.before seen lost_after)) [
        | none ↦ some seen
        | some o ↦
            let (seen', left) = away_clock (passed o.identity) r.after seen lost_after in
            if left then none else some seen'
      ]

  unfoldable pub hold_wait :
      Instant → ℕ → Instant → Option Duration → List (HoldRound G) → Option End
  unfolding held_look
  hold_wait until looks seen lost_after [] = none
  hold_wait until looks seen lost_after (r ∷ rs) = elim (ltb r.start until) [
    | false ↦ some over
    | true ↦ elim r.slept [
      | answer_waits ↦ some answered
      | hold_ended ↦ some over
      | quiet ↦ elim (is_some lost_after) [
        | false ↦ hold_wait until looks seen lost_after rs
        | true ↦ elim (held_look (looks + 1) seen lost_after r) [
          | none ↦ some face_lost
          | some seen' ↦ hold_wait until (looks + 1) seen' lost_after rs
        ]
      ]
    ]
  ]
