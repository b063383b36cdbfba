-- ===== src/Verdict/Approved.antt =====
-- What it takes to approve a request, and which verdicts are the user's no
-- (faceauth-daemon/src/auth/consent_flow.rs).
use omarchy_faceauth.Prelude.{
  ℕ, ◌≡◌, refl, Bool, true, false, not, ◌&&◌, Option, none, some, Text, if◌then◌else◌,
}
use mathlib.Core.Path.{subst}
use omarchy_faceauth.Outcome.{Outcome, CallerInfo}
use omarchy_faceauth.Backoff
use omarchy_faceauth.Consent.Token.{Token}
use omarchy_faceauth.Consent.State.{Queue}
use omarchy_faceauth.Consent.Card.{take_passwordless}
use omarchy_faceauth.Passwordless.{is_passwordless_command}
use omarchy_faceauth.Verdict.{Gesture, Turn, finish, turn, verdict, is_match, consent_finish}
use omarchy_faceauth.Verdict.Turns.{IsApproval, is_no, Fine, turn-Fine}

-- A round that ends with a verdict approves only for a password that the system accepts, or for nods
-- in a turn that found the session unlocked, confirmed after them and whose frames match; the verdict is the
-- user's no exactly after a shake, a dismissal, or a confirm that failed; and passwordless sudo is
-- turned on only with an approval, for the minutes of a rider that was shown, and not by the
-- passwordless command's own request.
pub finish-Approved :
    (caller : CallerInfo) (command user : Text) (pam : Text → Bool) (ms : ℕ) (q : Queue)
    (token : Token) (t : Turn) (g : Option Gesture) (o : Outcome)
    → turn t caller ≡ some (finish g o)
    → (is_match (consent_finish caller command pam ms q user token g o).0 ≡ true
        → IsApproval pam t g)
      × (Backoff.is_explicit_no (consent_finish caller command pam ms q user token g o).0 ≡ is_no g)
      × ((n : ℕ)
          → (consent_finish caller command pam ms q user token g o).2 ≡ some n
          → (is_match (consent_finish caller command pam ms q user token g o).0 ≡ true)
            × ((take_passwordless q user token).1 ≡ some n)
            × (is_passwordless_command command ≡ false))
unfolding consent_finish
finish-Approved caller command user pam ms q token t g o e =
    let (approval, refusal) = subst (Fine caller pam ms t) e (turn-Fine caller pam ms t) in
    (
      approval,
      refusal,
      λ n k. rides (is_match (verdict caller pam ms g o)) (is_passwordless_command command) n k,
    )
  where
    rides :
        (b own : Bool) (n : ℕ)
        → (if b && not own then (take_passwordless q user token).1 else none) ≡ some n
        → (b ≡ true) × ((take_passwordless q user token).1 ≡ some n) × (own ≡ false)
    rides true true n k = cc
    rides true false n k = (refl, k, refl)
    rides false own n k = cc
