-- ===== src/Consent/Card.antt =====
-- What the card and the nod window write into the live record: answers, acknowledgements, tokens
-- and the passwordless rider (faceauth-daemon/src/consent/state.rs).
use omarchy_faceauth.Prelude.{
  ℕ, ◌*◌, Bool, true, false, ◌&&◌, ◌||◌, not, Option, none, some, [], Text, ltb, ◌==◌,
  if◌then◌else◌, is_some, is_some_and,
}
use omarchy_faceauth.Consent.Token.{Token, is_empty}
use omarchy_faceauth.Consent.State.{
  Answer, is_rearm, no_rider, Live, Queue, live_of, live_with, put,
}

-- Take a "Ready to nod", if that is what waits.
unfoldable pub take_rearm : Queue → Text → Queue × Bool
unfolding live_of
take_rearm q user = elim (live_of q user) [
  | none ↦ (q, false)
  | some l ↦
      if is_some_and l.answer is_rearm
      then (put q (record l { answer = none }), true)
      else (q, false)
]

-- The window answers; a re-arm never displaces an answer already waiting.
unfoldable pub answer : Queue → Text → Option Token → Answer → Queue × Bool
unfolding live_with
answer q user token a = elim (live_with q user token) [
  | none ↦ (q, false)
  | some l ↦
      if is_rearm a && is_some l.answer
      then (q, true)
      else (put q (record l { answer = some a }), true)
]

unfoldable pub token_matches : Queue → Text → Option Token → Bool
unfolding live_with
token_matches q user token = is_some (live_with q user token)

-- The window says it has drawn the request.
unfoldable pub ack : Queue → Text → Option Token → Queue × Bool
unfolding live_with
ack q user token = elim (live_with q user token) [
  | none ↦ (q, false)
  | some l ↦ (put q (record l { acked = true }), true)
]

-- A new card for the live request.
unfoldable pub set_token : Queue → Text → Token → Queue × Bool
unfolding live_of
set_token q user token = elim (live_of q user) [
  | none ↦ (q, false)
  | some l ↦ (put q (record l { token = token; acked = false; rider = no_rider }), true)
]

-- The card is gone.
unfoldable pub clear_token : Queue → Text → Token → Queue
unfolding live_with
clear_token q user token = elim (live_with q user (some token)) [
  | none ↦ q
  | some l ↦ put q (record l { token = []; acked = false; rider = no_rider })
]

-- The next show waits for a fresh acknowledgement.
unfoldable pub reset_ack : Queue → Text → Token → Queue
unfolding live_with
reset_ack q user token = elim (live_with q user (some token)) [
  | none ↦ q
  | some l ↦ put q (record l { acked = false })
]

-- One round of `wait_ack`: has the card been acknowledged?
unfoldable pub acknowledged : Queue → Text → Token → Bool
unfolding live_with
acknowledged q user token = is_some_and (live_with q user (some token)) (λ l. l.acked)

abbrev pub passwordless_max_minutes : ℕ
passwordless_max_minutes = 24 * 60

pub data Armed : Type 0 where
  armed minutes_out_of_range no_pending_request only_sudo look_first : Armed

abbrev arm : Queue → Live → ℕ → Option Bool → Queue × Armed
arm q l minutes none = (q, no_pending_request)
arm q l minutes (some false) = (q, only_sudo)
arm q l minutes (some true) =
    if l.rider.face_present
    then (
      put q (record l { rider = record l.rider { minutes = some minutes; shown = false } }),
      armed,
    )
    else (q, look_first)

-- The window asks that the approval also turn passwordless sudo on.
unfoldable pub arm_passwordless : Queue → Text → Token → ℕ → Queue × Armed
unfolding live_with
arm_passwordless q user token minutes =
    if minutes == 0 || ltb passwordless_max_minutes minutes
    then (q, minutes_out_of_range)
    else elim (live_with q user (some token)) [
      | none ↦ (q, no_pending_request)
      | some l ↦ arm q l minutes l.rider.lane
    ]

-- The rider of the request, if the card has shown it; it is forgotten either way.
unfoldable pub take_passwordless : Queue → Text → Token → Queue × Option ℕ
unfolding live_with
take_passwordless q user token = elim (live_with q user (some token)) [
  | none ↦ (q, none)
  | some l ↦ (
    put q (record l { rider = record l.rider { minutes = none; shown = false } }),
    if l.rider.shown then l.rider.minutes else none,
  )
]

-- What the card's payload says about the rider.
unfoldable pub rider_for_payload : Queue → Text → Token → Bool → Bool → Queue × (Option ℕ × Bool)
unfolding live_with
rider_for_payload q user token sudo mark_shown = elim (live_with q user (some token)) [
  | none ↦ (q, (none, false))
  | some l ↦
      let shown = if mark_shown then true else l.rider.shown in
      (
        put q (record l { rider = record l.rider { lane = some sudo; shown = shown } }),
        (if shown then l.rider.minutes else none, l.rider.face_present),
      )
]

-- The nod window says whether it follows the enrolled face; whether that changed the record.
unfoldable pub set_face_present : Queue → Text → Bool → Queue × Bool
unfolding live_of
set_face_present q user present = elim (live_of q user) [
  | none ↦ (q, false)
  | some l ↦ if is_empty l.token then (q, false) else (
    put q (record l { rider = record l.rider { face_present = present } }),
    if l.rider.face_present then not present else present,
  )
]

unfoldable pub rider_unshown : Queue → Text → Bool
unfolding live_of
rider_unshown q user =
    is_some_and (live_of q user) (λ l. is_some l.rider.minutes && not l.rider.shown)
