-- ===== src/Consent/Guarded.antt =====
-- What a token guards (faceauth-daemon/src/consent/state.rs).
use omarchy_faceauth.Prelude.{
  ◌≡◌, refl, ◌⊎◌, Bool, true, false, Option, none, some, List, [], ◌∷◌, Text, arith, is_some_and,
}
use omarchy_faceauth.Consent.Token.{Token, same_token}
use omarchy_faceauth.Consent.State.{Queue, Place, Fd, took, drop_turn, try_turn}
use omarchy_faceauth.Consent.Card.{
  answer, token_matches, ack, clear_token, reset_ack, arm_passwordless, take_passwordless,
  rider_for_payload,
}
use omarchy_faceauth.Consent.Calls.{Call, answers, acks, clears, resets, takes, arms, shows, apply}

-- The user and the token that a guarded call presents.
abbrev pub presents : Call → Option (Text × Option Token)
presents (answers user tok a) = some (user, tok)
presents (acks user tok) = some (user, tok)
presents (clears user tok) = some (user, some tok)
presents (resets user tok) = some (user, some tok)
presents (takes user tok) = some (user, some tok)
presents (arms user tok minutes) = some (user, some tok)
presents (shows user tok sudo mark_shown) = some (user, some tok)
presents _ = none

-- A guarded call whose token is not the live request's changes nothing at all.
pub wrong_token_inert :
    (gone : Fd → Bool) (q : Queue) (c : Call) (user : Text) (tok : Option Token)
    → presents c ≡ some (user, tok)
    → token_matches q user tok ≡ false
    → apply gone q c ≡ q
unfolding apply token_matches answer ack clear_token reset_ack take_passwordless arm_passwordless
    rider_for_payload
wrong_token_inert gone q (answers u t a) user tok p m = ground arith
wrong_token_inert gone q _ user tok p m = ground arith

blank_token : (t : Token) → same_token [] t ≡ false
unfolding same_token
blank_token t = refl

-- Before a card has been given its token, and after the card is gone, no token answers.
pub no_card_no_answer :
    (gone : Fd → Bool) (q q' : Queue) (p : Place) (name user : Text) (requester : Option Fd)
    (t : Token) (tok : Option Token)
    → (try_turn gone q p name requester ≡ took q' → token_matches q' user tok ≡ false)
      × (token_matches q name (some t) ≡ true
          → token_matches (clear_token q name t) user tok ≡ false)
      × (token_matches (drop_turn q) user tok ≡ false)
unfolding try_turn token_matches clear_token drop_turn
no_card_no_answer gone q q' p name user requester t none =
    (λ e. ground arith, λ e. ground arith, refl)
no_card_no_answer gone q q' p name user requester t (some k) =
    (λ e. ground (arith, blank_token k), λ e. ground (arith, blank_token k), refl)

unfoldable pub run : (Fd → Bool) → Queue → List Call → Queue
run gone q [] = q
run gone q (c ∷ cs) = run gone (apply gone q c) cs

abbrev pub is_acked : Queue → Bool
is_acked q = is_some_and q.live (λ l. l.acked)

-- The window's own acknowledgement, with the token of the card on screen.
abbrev pub IsAck : Queue → Call → Type 0
IsAck q (acks user tok) = token_matches q user tok ≡ true
IsAck q _ = ⊥

abbrev pub Acked : (Fd → Bool) → Queue → List Call → Type 0
Acked gone q [] = ⊥
Acked gone q (c ∷ cs) = IsAck q c ⊎ Acked gone (apply gone q c) cs
