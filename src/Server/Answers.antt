-- ===== src/Server/Answers.antt =====
-- The answers of the consent window, and the contexts of the polkit agent
-- (faceauth-daemon/src/server/handle.rs). The check of the token and the write that follows it
-- take the mutex one after the other in the source, and are one step here; the write checks the
-- token again.
use omarchy_faceauth.Prelude.{
  ℕ, not, none, some, List, [], ◌∷◌, ◌++◌, codes, ltb, ◌==◌, if◌then◌else◌, length,
}
use omarchy_faceauth.Outcome.{Outcome, error, noted}
use omarchy_faceauth.Consent.State.{Queue}
use omarchy_faceauth.Consent.Card.{
  token_matches, ack, answer, arm_passwordless, Armed, armed, minutes_out_of_range,
  no_pending_request, only_sudo, look_first,
}
use omarchy_faceauth.Server.Request.{Request, PolkitContext, token_text, answer_of}

unfoldable pub armed_outcome : Armed → Outcome
armed_outcome armed = noted
armed_outcome minutes_out_of_range = error (codes "minutes out of range")
armed_outcome no_pending_request = error (codes "no pending request")
armed_outcome only_sudo = error (codes "only a sudo request can carry it")
armed_outcome look_first = error (codes "look at the camera first")

arm_lane : Queue → Request → ℕ → Queue × Outcome
arm_lane q r minutes =
    let (q', a) = arm_passwordless q r.user (token_text r.consent_token) minutes in
    (q', armed_outcome a)

word_lane : Queue → Request → Queue × Outcome
word_lane q r =
    let (q', heard) = answer q r.user r.consent_token (answer_of r) in
    (q', if heard then noted else error (codes "no pending request"))

unfoldable pub answer_lane : Queue → Request → Queue × Outcome
unfolding arm_lane word_lane
answer_lane q r =
    if not (token_matches q r.user r.consent_token)
    then (q, error (codes "no pending request"))
    else if r.consent_ack
    then ((ack q r.user r.consent_token).0, noted)
    else elim r.consent_passwordless [ some minutes ↦ arm_lane q r minutes | none ↦ word_lane q r ]

abbrev pub Contexts : Type 0
Contexts = List (ℕ × List PolkitContext)

-- The loop that pops from the front while more than eight stand in the queue.
unfoldable pub newest_eight : List PolkitContext → List PolkitContext
newest_eight [] = []
newest_eight (c ∷ cs) =
    let less = newest_eight cs in if ltb 8 (length (c ∷ cs)) then less else c ∷ cs

-- `entry(uid).or_default()`, with a context pushed behind the others.
unfoldable pub push_context : ℕ → PolkitContext → Contexts → Contexts
unfolding newest_eight
push_context uid c [] = (uid, newest_eight (c ∷ [])) ∷ []
push_context uid c ((u, cs) ∷ m) =
    let others = push_context uid c m in
    if u == uid then (u, newest_eight (cs ++ c ∷ [])) ∷ m else (u, cs) ∷ others
