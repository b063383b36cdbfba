-- ===== src/Consent/State.antt =====
-- The consent queue: the request on screen and the requests behind it
-- (faceauth-daemon/src/consent/state.rs). Each function is what one call does while it holds the
-- mutex. `Fd` is a requester's socket; whether its peer has hung up is asked of the kernel, so
-- `peer_gone` is an argument.
use omarchy_faceauth.Prelude.{
  ℕ, ◌+◌, ◌%◌, Bool, true, false, ◌&&◌, ◌||◌, not, Option, none, some, List, [], ◌∷◌, ◌++◌, Text,
  text_eq, leb, ◌==◌, if◌then◌else◌, is_some, is_some_and, map_or, length, retain, first, rest,
}
use omarchy_faceauth.Consent.Token.{Token, same_token}

abbrev pub Fd : Type 0
Fd = ℕ

pub data Answer : Type 0 where
  password : Text → Answer
  gone dismiss rearm : Answer

abbrev pub is_rearm : Answer → Bool
is_rearm rearm = true
is_rearm _ = false

pub record Rider : Type 0 where
  pub lane : Option Bool
  pub face_present : Bool
  pub minutes : Option ℕ
  pub shown : Bool

-- `Rider::default`.
abbrev pub no_rider : Rider
no_rider = record { lane = none; face_present = false; minutes = none; shown = false }

pub record Live : Type 0 where
  pub uid : ℕ
  pub user : Text
  pub token : Token
  pub acked : Bool
  pub answer : Option Answer
  pub rider : Rider
  pub requester : Option Fd

pub record Queue : Type 0 where
  pub live : Option Live
  pub waiting : List (ℕ × ℕ)
  pub next_id : ℕ

abbrev pub consent_per_uid : ℕ
consent_per_uid = 32

pub data NoTurn : Type 0 where
  other_user : ℕ → NoTurn
  too_many gone : NoTurn

pub record Place : Type 0 where
  pub id : ℕ
  pub uid : ℕ

unfoldable pub new : Queue
new = record { live = none; waiting = []; next_id = 0 }

-- Dropping a `Place` gives it back; dropping a `Turn` forgets the live record.
unfoldable pub drop_place : Queue → Place → Queue
drop_place q p = record q { waiting = retain (λ w. not (w.0 == p.id)) q.waiting }

unfoldable pub drop_turn : Queue → Queue
drop_turn q = record q { live = none }

-- The live record, if it is `user`'s.
unfoldable pub live_of : Queue → Text → Option Live
live_of q user = elim q.live [ none ↦ none | some l ↦ if text_eq l.user user then some l else none ]

abbrev pub with_token : Option Live → Option Token → Option Live
with_token none tok = none
with_token (some l) none = none
with_token (some l) (some tok) = if same_token l.token tok then some l else none

-- The live record if it is `user`'s and `token` is its token.
unfoldable pub live_with : Queue → Text → Option Token → Option Live
unfolding live_of
live_with q user token = with_token (live_of q user) token

abbrev pub put : Queue → Live → Queue
put q l = record q { live = some l }

abbrev is_uid : ℕ → Option Live → Bool
is_uid uid live = is_some_and live (λ l. l.uid == uid)

-- The requests of `uid`, live or waiting.
unfoldable pub held : Queue → ℕ → ℕ
held q uid = length (retain (λ w. w.1 == uid) q.waiting) + (if is_uid uid q.live then 1 else 0)

pub data Joined : Type 0 where
  placed : Queue → Place → Joined
  no_place : NoTurn → Joined

-- The user, other than `uid`, whose request is live or at the head of the queue.
unfoldable pub blocking : Queue → ℕ → Option ℕ
blocking q uid =
    elim (if is_some q.live && not (is_uid uid q.live)
      then map_or q.live none (λ l. some l.uid)
      else none) [
        | some other ↦ some other
        | none ↦ map_or (first q.waiting) none (λ w. if w.1 == uid then none else some w.1)
      ]

unfoldable pub join : Queue → ℕ → Joined
unfolding held blocking
join q uid = elim (blocking q uid) [
  | some other ↦ no_place (other_user other)
  | none ↦
      if leb consent_per_uid (held q uid)
      then no_place too_many
      else placed
          (record q {
            waiting = q.waiting ++ (q.next_id, uid) ∷ [];
            next_id = (q.next_id + 1) % 18446744073709551616;
          })
          (record { id = q.next_id; uid = uid })
]

-- One round of the loop of `take_turn`: the window taken, the place lost, or a wait.
pub data Try : Type 0 where
  took : Queue → Try
  lost : NoTurn → Try
  waits : Try

abbrev fresh : Place → Text → Option Fd → Live
fresh p user requester = record {
  uid = p.uid;
  user = user;
  token = [];
  acked = false;
  answer = none;
  rider = no_rider;
  requester = requester;
}

module _ (peer_gone : Fd → Bool) where
  unfoldable pub try_turn : Queue → Place → Text → Option Fd → Try
  try_turn q p user requester =
      let head = is_some_and (first q.waiting) (λ w. w.0 == p.id) in
      if head && not (is_some q.live)
      then took (record q { waiting = rest q.waiting; live = some (fresh p user requester) })
      else if is_some q.live && not (is_uid p.uid q.live)
      then lost (other_user (map_or q.live 0 (λ l. l.uid)))
      else if is_some_and requester peer_gone
      then lost NoTurn.gone
      else waits

  unfoldable pub requester_gone : Queue → Text → Bool
  unfolding live_of
  requester_gone q user = is_some_and (live_of q user) (λ l. is_some_and l.requester peer_gone)

  -- Take the answer waiting, or `gone` when the requester has hung up.
  unfoldable pub poll : Queue → Text → Queue × Option Answer
  unfolding live_of
  poll q user = elim (live_of q user) [
    | none ↦ (q, none)
    | some l ↦ elim l.answer [
      | some a ↦ (put q (record l { answer = none }), some a)
      | none ↦ (q, if is_some_and l.requester peer_gone then some Answer.gone else none)
    ]
  ]

  unfoldable pub answered : Queue → Text → Bool
  unfolding live_of
  answered q user =
      is_some_and (live_of q user) (λ l. is_some l.answer || is_some_and l.requester peer_gone)
