-- ===== src/Outcome/Refusals.antt =====
-- Refusals and their wire strings, and what redaction hides
-- (faceauth-daemon/src/auth/outcome.rs).
use omarchy_faceauth.Prelude.{
  ◌≡◌, refl, ◌↔◌, inl, inr, Option, none, some, Text, codes, F32, text_eq_iff, strip_prefix,
  append-strip_prefix, Option-cases, arith,
}
use omarchy_faceauth.Outcome.{
  Outcome, match, no_match, redacted, Refusal, shaken, confirm, wire, plain_reason, parse,
}

pub parse-wire : (r : Refusal) → parse (wire r) ≡ some r
unfolding parse wire
parse-wire shaken = refl
parse-wire (confirm why) = refl
parse-wire _ = refl

wire-plain_reason : (t : Text) (r : Refusal) → plain_reason t ≡ some r → wire r ≡ t
unfolding plain_reason wire
wire-plain_reason t r h = ground (
  arith,
  text_eq_iff t (codes "shaken"),
  text_eq_iff t (codes "dismissed"),
  text_eq_iff t (codes "wrong password"),
  text_eq_iff t (codes "no answer"),
  text_eq_iff t (codes "requester gone"),
  text_eq_iff t (codes "the consent window did not open"),
  text_eq_iff t (codes "no nod"),
  text_eq_iff t (codes "no active graphical session to ask in"),
  text_eq_iff t (codes "another user's request is on screen"),
  text_eq_iff t (codes "too many requests waiting"),
  text_eq_iff t (codes "refused a moment ago"),
)

wire-parse : (t : Text) (r : Refusal) → parse t ≡ some r → wire r ≡ t
unfolding parse wire
wire-parse t r h = elim (Option-cases (strip_prefix (codes "confirm: ") t)) [
  | inl other ↦ wire-plain_reason t r (rw other at h)
  | inr (why, e) ↦ ground (arith, append-strip_prefix (codes "confirm: ") t why e)
]

-- Reading a reason back is the inverse of writing it: a text parses to a refusal exactly when it
-- is that refusal's wire string, so no two refusals share one.
pub parse_iff : (t : Text) (r : Refusal) → (parse t ≡ some r) ↔ (wire r ≡ t)
parse_iff t r = (wire-parse t r, λ e. rw (← e) (parse-wire r))

-- The score that an outcome carries.
unfoldable pub score_of : Outcome → Option F32
score_of (match score frames ms) = score
score_of (no_match score frames ms) = score
score_of o = none

-- The same outcome with this score, where an outcome has a place for one.
unfoldable pub with_score : Option F32 → Outcome → Outcome
with_score s (match score frames ms) = match s frames ms
with_score s (no_match score frames ms) = no_match s frames ms
with_score s o = o

-- A redacted outcome carries no score, and nothing else of the outcome is lost: with its score put
-- back it is the outcome it was.
pub redacted_scoreless :
    (o : Outcome) → (score_of (redacted o) ≡ none) × (with_score (score_of o) (redacted o) ≡ o)
unfolding redacted score_of with_score
redacted_scoreless (match score frames ms) = (refl, refl)
redacted_scoreless (no_match score frames ms) = (refl, refl)
redacted_scoreless _ = (refl, refl)
