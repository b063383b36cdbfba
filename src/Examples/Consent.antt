-- ===== src/Examples/Consent.antt =====
-- The consent record at concrete inputs (faceauth-daemon/src/consent/state.rs).
use omarchy_faceauth.Prelude.{
  ℕ, ◌≡◌, ◌≢◌, refl, ◌↔◌, none, some, List, Bool, [], ◌∷◌, codes, arith, true, false,
}
use omarchy_faceauth.Consent.Token.{Token, same_token, same_token_iff}
use omarchy_faceauth.Consent.State.{
  Live, Queue, Fd, Place, took, new, no_rider, join, try_turn, Answer,
}
use omarchy_faceauth.Consent.Card.{token_matches}
use omarchy_faceauth.Consent.Calls.{Call, answers, acks, arms, shows, apply, Keeps, apply-Keeps}
use omarchy_faceauth.Consent.Guarded.{wrong_token_inert}
use omarchy_faceauth.Consent.Fairness.{IsFair}
use omarchy_faceauth.Consent.Turns.{always-IsFair, turn_in_order, Reach, here, next, joins}

abbrev given : Token
given = 7 ∷ 9 ∷ []

same_token_iff_example : (same_token given given ≡ true) ↔ ((given ≢ []) × (given ≡ given))
same_token_iff_example = same_token_iff given given

-- No requester hangs up.
abbrev stays : Fd → Bool
stays fd = false

-- A sudo request of user 1000 on screen, with the enrolled face in the nod window.
abbrev on_screen : Live
on_screen = record {
  uid = 1000;
  user = codes "ann";
  token = 7 ∷ 9 ∷ [];
  acked = false;
  answer = none;
  rider = record no_rider { lane = some true; face_present = true };
  requester = none;
}

abbrev one_card : Queue
one_card = record { live = some on_screen; waiting = (4, 1000) ∷ []; next_id = 5 }

wrong_token_inert_example :
    apply stays one_card (answers (codes "ann") (some (8 ∷ [])) Answer.dismiss) ≡ one_card
wrong_token_inert_example =
    wrong_token_inert stays one_card (answers (codes "ann") (some (8 ∷ [])) Answer.dismiss)
      (codes "ann") (some (8 ∷ [])) refl refused
  where
    refused : token_matches one_card (codes "ann") (some (8 ∷ [])) ≡ false
    refused = unfold token_matches same_token in refl

abbrev card_calls : List Call
card_calls = acks (codes "ann") (some (7 ∷ 9 ∷ [])) ∷ []

abbrev rider_calls : List Call
rider_calls = arms (codes "ann") (7 ∷ 9 ∷ []) 15 ∷ shows (codes "ann") (7 ∷ 9 ∷ []) true true ∷ []

apply-Keeps_example : Keeps one_card (apply stays one_card (acks (codes "ann") none))
apply-Keeps_example = apply-Keeps stays one_card (acks (codes "ann") none)

-- The queue after one request of user 1000 has joined.
abbrev joined : Queue
joined = record { live = none; waiting = (0, 1000) ∷ []; next_id = 1 }

abbrev first_place : Place
first_place = record { id = 0; uid = 1000 }

joined-Reach : Reach stays new joined
unfolding new join
joined-Reach = next here (joins 1000 first_place (omega arith) refl)

always-IsFair_example : (u : ℕ) × IsFair u joined
always-IsFair_example = always-IsFair stays joined joined-Reach

joined-IsFair : IsFair 1000 joined
joined-IsFair = record {
  one_user = omega arith;
  live_user = tt;
  ordered = omega arith;
  bounded = omega arith;
}

abbrev after_turn : Queue
after_turn = record {
  live = some (record {
    uid = 1000;
    user = codes "ann";
    token = [];
    acked = false;
    answer = none;
    rider = no_rider;
    requester = none;
  });
  waiting = [];
  next_id = 1;
}

turn_in_order_example : joined.live ≡ none
turn_in_order_example =
    (turn_in_order stays 1000 joined after_turn first_place (codes "ann") none joined-IsFair
      took_turn).0
  where
    took_turn : try_turn stays joined first_place (codes "ann") none ≡ took after_turn
    took_turn = unfold try_turn in refl
