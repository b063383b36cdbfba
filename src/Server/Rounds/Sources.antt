-- ===== src/Server/Rounds/Sources.antt =====
-- What a request ends with (faceauth-daemon/src/server/rounds.rs).
use omarchy_faceauth.Prelude.{
  ℕ, ◌≡◌, ◌⊎◌, inl, inr, refl, ◌∙◌, ap, Bool, true, false, not, Option, none, some, List, [], ◌∷◌,
  Text, codes, Instant, ltb, secs, if-cases, map_or-cases,
}
use mathlib.Core.Path.{subst}
use omarchy_faceauth.Outcome.{Outcome, error, no_face, deny_consent}
use omarchy_faceauth.Outcome
use omarchy_faceauth.Presence.Lock.{resumed}
use omarchy_faceauth.Consent.State.{Answer, Queue, Live, requester_gone, poll}
use omarchy_faceauth.Server.Rounds.{
  Seen, Phase, starting, asking, parked, finishing, done, Act, begins_session, Stepped, start, park,
  after_round, ask, look_back, on_answer, wait, end, step, run, begun, Gesture, Round, ended,
  face_lost, session_locked, ms_since,
}
use omarchy_faceauth.Server.Rounds.Waking.{is_matched}

-- A step that others ended: what the authenticator answered, when it was free.
abbrev pub Gave : Outcome → Seen → Type 0
Gave o s =
    (s.camera ≡ true)
    × ((s.begins true ≡ some o)
        ⊎ (s.begins false ≡ some o)
        ⊎ (s.round ≡ ended o)
        ⊎ ((g : Gesture) × (ms : ℕ) × (s.finishes g (no_face ms) ≡ o)))

-- What a request ends with by itself.
abbrev pub IsOwn : Outcome → Type 0
IsOwn o = (o ≡ error (codes "busy")) ⊎ ((ms : ℕ) × (o ≡ deny_consent Outcome.gone ms))

abbrev pub Among : Outcome → List Seen → Type 0
Among o [] = true ≡ false
Among o (s ∷ seen) = Gave o s ⊎ Among o seen

-- The answer that waits for the request on screen.
abbrev pub answered_by : Option Live → Option Answer
answered_by none = none
answered_by (some l) = l.answer

abbrev Sourced : Seen → Stepped → Type 0
Sourced s (acts, st, q, done o) = Gave o s ⊎ IsOwn o
Sourced s (acts, st, q, p) = Unit {0}

start-Sourced :
    (user : Text) (s : Seen) (begin_by : Instant) (already : Bool)
    → Sourced s (start user s begin_by already)
unfolding start
start-Sourced user s begin_by already =
    if-cases (Sourced s) s.camera _ _
      (λ camera.
        map_or-cases
          (λ (p : Phase). Sourced s (begins_session (not already) ∷ [], s.lock, s.consent, p))
          (s.begins (not already)) _ _ (λ _. tt) (λ o e. inl (begun_by already camera o e)))
      (λ _.
        if-cases (Sourced s) (requester_gone s.peer_gone s.consent user) _ _
          (λ _. inr (inr (0, refl)))
          (λ _. if-cases (Sourced s) (ltb begin_by s.now) _ _ (λ _. inr (inl refl)) (λ _. tt)))
  where
    begun_by :
        (already : Bool)
        → s.camera ≡ true
        → (o : Outcome) → s.begins (not already) ≡ some o
        → Gave o s
    begun_by true camera o e = (camera, inr (inl e))
    begun_by false camera o e = (camera, inl e)

ask-Sourced :
    (user : Text) (s : Seen) (started : Instant) (already : Bool)
    → Sourced s (ask user s started already)
unfolding ask after_round park
ask-Sourced user s started already =
    if-cases (Sourced s) (requester_gone s.peer_gone s.consent user) _ _
      (λ _. inr (inr (ms_since started s.now, refl)))
      (λ _.
        if-cases (Sourced s) already _ _ (λ _. tt)
          (λ _. if-cases (Sourced s) s.camera _ _ (λ camera. round camera s.round refl) (λ _. tt)))
  where
    round : s.camera ≡ true → (r : Round) → s.round ≡ r → Sourced s (after_round s started r)
    round camera (ended o) e = inl (camera, inr (inr (inl e)))
    round camera face_lost e = tt
    round camera session_locked e = tt

on_answer-Sourced :
    (s : Seen) (acts : List Act) (q : Queue) (started lock_time last_beat : Instant)
    (a : Option Answer)
    → Sourced s (on_answer s acts q started lock_time last_beat a)
unfolding on_answer look_back
on_answer-Sourced s acts q started lock_time last_beat none =
    map_or-cases (Sourced s) (resumed s.lock s.now (is_matched s lock_time) (secs 2) s.locked).1 _ _
      (λ _. tt) (λ how _. tt)
on_answer-Sourced s acts q started lock_time last_beat (some Answer.rearm) = tt
on_answer-Sourced s acts q started lock_time last_beat (some Answer.gone) =
    inr (inr (ms_since started s.now, refl))
on_answer-Sourced s acts q started lock_time last_beat (some (Answer.password pw)) = tt
on_answer-Sourced s acts q started lock_time last_beat (some Answer.dismiss) = tt

-- The step of a request that has not ended.
step-Sourced :
    (user : Text) (s : Seen) (p : Phase)
    → ((o : Outcome) × (p ≡ done o)) ⊎ Sourced s (step user s p)
unfolding step wait end
step-Sourced user s (starting begin_by already) = inr (start-Sourced user s begin_by already)
step-Sourced user s (asking started already) = inr (ask-Sourced user s started already)
step-Sourced user s (parked started lock_time last_beat) = inr (
    on_answer-Sourced s _ (poll s.peer_gone s.consent user).0 started lock_time _
      (poll s.peer_gone s.consent user).1)
step-Sourced user s (finishing g ms) = inr (
    if-cases (Sourced s) s.camera _ _ (λ camera. inl (camera, inr (inr (inr (g, ms, refl)))))
      (λ _. tt))
step-Sourced user s (done o) = inl (o, refl)

stepped-Gave :
    (s : Seen) (o : Outcome) (stepped : Stepped)
    → stepped.3 ≡ done o
    → Sourced s stepped
    → Gave o s ⊎ IsOwn o
stepped-Gave s o (acts, st, q, starting begin_by already) e k = cc
stepped-Gave s o (acts, st, q, asking started already) e k = cc
stepped-Gave s o (acts, st, q, parked started lock_time last_beat) e k = cc
stepped-Gave s o (acts, st, q, finishing g ms) e k = cc
stepped-Gave s o (acts, st, q, done o') e k = subst (λ r. Gave r s ⊎ IsOwn r) (outcome_of e) k
  where
    outcome_in : Phase → Outcome
    outcome_in (done r) = r
    outcome_in p = o

    outcome_of : done o' ≡ done o → o' ≡ o
    outcome_of k = ap outcome_in k

run_done : (user : Text) (o : Outcome) (seen : List Seen) → (run user (done o) seen).1 ≡ done o
unfolding run step
run_done user o [] = refl
run_done user o (s ∷ seen) = run_done user o seen

-- From any phase but the last: what the run ends with was its own, or was given at some step.
run_on-Among :
    (user : Text) (p : Phase) (seen : List Seen) (o : Outcome)
    → (run user p seen).1 ≡ done o
    → (p ≡ done o) ⊎ IsOwn o ⊎ Among o seen
unfolding run step
run_on-Among user p [] o e = inl e
run_on-Among user p (s ∷ seen) o e = elim (run_on-Among user (step user s p).3 seen o e) [
  | inl now ↦ elim (step-Sourced user s p) [
    | inl (o', ended_before) ↦ inl (kept o' ended_before now)
    | inr sourced ↦ elim (stepped-Gave s o (step user s p) now sourced) [
      | inl gave ↦ inr (inr (inl gave))
      | inr own ↦ inr (inl own)
    ]
  ]
  | inr (inl own) ↦ inr (inl own)
  | inr (inr later) ↦ inr (inr (inr later))
]
  where
    kept : (o' : Outcome) → p ≡ done o' → (step user s p).3 ≡ done o → p ≡ done o
    kept o' before now = before ∙ subst (λ r. (step user s r).3 ≡ done o) before now

-- A request ends with what the authenticator gave, when it was free, at the beginning, in a camera
-- round or at the end, or by itself with "busy" or with the requester gone: never by itself with a
-- match.
pub run-Among :
    (user : Text) (now : Instant) (already : Bool) (seen : List Seen) (o : Outcome)
    → (run user (begun now already) seen).1 ≡ done o
    → IsOwn o ⊎ Among o seen
unfolding begun
run-Among user now already seen o e = elim (run_on-Among user (begun now already) seen o e) [
  | inl at_once ↦ cc
  | inr k ↦ k
]
