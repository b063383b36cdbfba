-- ===== src/Server/Rounds/Parking.antt =====
-- What a request leaves alone while it is parked (faceauth-daemon/src/server/rounds.rs).
use omarchy_faceauth.Prelude.{
  ℕ, ◌-◌, ◌≡◌, refl, ◌∙◌, arith, Bool, true, false, not, ◌&&◌, Option, none, some, List, [], ◌∷◌,
  ◌++◌, Text, Instant, leb, ltb, secs, is_some_and, if◌then◌else◌, if-cases, map_or-cases,
}
use omarchy_faceauth.Presence.Lock.{resumed}
use omarchy_faceauth.Consent.State.{Answer, Queue, requester_gone, poll}
use omarchy_faceauth.Rearm.Wait.{heartbeat}
use omarchy_faceauth.Server.Rounds.{
  Seen, Phase, starting, asking, parked, finishing, done, Act, begins_session, looks, locks, adopts,
  tells_locked, beats, wakes, ends_session, Stepped, start, park, after_round, ask, look_back,
  on_answer, wait, end, step, run, begun, Gesture, Round, ended, face_lost, session_locked,
}

-- A watcher of the acts: is the request parked after them? `none` when it looked with the camera,
-- locked or took over a lock while it was parked.
unfoldable pub watch : Bool → List Act → Option Bool
watch b [] = some b
watch true (looks ∷ acts) = none
watch true (locks ∷ acts) = none
watch true (adopts ∷ acts) = none
watch true (wakes ∷ acts) = watch false acts
watch true (a ∷ acts) = watch true acts
watch false (locks ∷ acts) = watch true acts
watch false (adopts ∷ acts) = watch true acts
watch false (wakes ∷ acts) = none
watch false (a ∷ acts) = watch false acts

abbrev pub is_parked : Phase → Bool
is_parked (parked started lock_time last_beat) = true
is_parked p = false

-- Where the watcher and the request agree; the last two phases are never parked again.
abbrev pub Fits : Bool → Phase → Type 0
Fits c (finishing g ms) = Unit {0}
Fits c (done o) = Unit {0}
Fits c p = c ≡ is_parked p

-- Acts that the watcher accepts, and agrees with the phase after them.
abbrev pub Follows : Bool → List Act → Phase → Type 0
Follows b acts p = (c : Bool) × (watch b acts ≡ some c) × Fits c p

abbrev Agrees : Bool → Stepped → Type 0
Agrees b (acts, st, q, p) = Follows b acts p

start-Agrees :
    (user : Text) (s : Seen) (begin_by : Instant) (already : Bool)
    → Agrees false (start user s begin_by already)
unfolding start watch
start-Agrees user s begin_by already =
    if-cases (Agrees false) s.camera _ _
      (λ _.
        map_or-cases (Follows false (begins_session (not already) ∷ [])) (s.begins (not already)) _
          _ (λ _. (false, refl, refl)) (λ o _. (false, refl, tt)))
      (λ _.
        if-cases (Agrees false) (requester_gone s.peer_gone s.consent user) _ _
          (λ _. (false, refl, tt))
          (λ _.
            if-cases (Agrees false) (ltb begin_by s.now) _ _ (λ _. (false, refl, tt))
              (λ _. (false, refl, refl))))

ask-Agrees :
    (user : Text) (s : Seen) (started : Instant) (already : Bool)
    → Agrees false (ask user s started already)
unfolding ask after_round park watch
ask-Agrees user s started already =
    if-cases (Agrees false) (requester_gone s.peer_gone s.consent user) _ _ (λ _. (false, refl, tt))
      (λ _.
        if-cases (Agrees false) already _ _ (λ _. (true, refl, refl))
          (λ _.
            if-cases (Agrees false) s.camera _ _ (λ _. round s.round) (λ _. (false, refl, refl))))
  where
    round : (r : Round) → Agrees false (after_round s started r)
    round (ended o) = (false, refl, tt)
    round face_lost = (true, refl, refl)
    round session_locked = (true, refl, refl)

-- The window hears from a parked request now and then.
abbrev maybe_beats : Bool → List Act
maybe_beats beat = if beat then beats ∷ [] else []

look_back-Agrees :
    (s : Seen) (beat : Bool) (q : Queue) (started lock_time last_beat : Instant)
    → Agrees true (look_back s (maybe_beats beat) q started lock_time last_beat)
unfolding look_back watch
look_back-Agrees s true q started lock_time last_beat =
    map_or-cases (Agrees true)
      (resumed s.lock s.now (s.camera && is_some_and s.last_match (λ m. ltb lock_time m)) (secs 2)
        s.locked).1
      _ _ (λ _. (true, refl, refl)) (λ how _. (false, refl, refl))
look_back-Agrees s false q started lock_time last_beat =
    map_or-cases (Agrees true)
      (resumed s.lock s.now (s.camera && is_some_and s.last_match (λ m. ltb lock_time m)) (secs 2)
        s.locked).1
      _ _ (λ _. (true, refl, refl)) (λ how _. (false, refl, refl))

on_answer-Agrees :
    (s : Seen) (beat : Bool) (q : Queue) (started lock_time last_beat : Instant) (a : Option Answer)
    → Agrees true (on_answer s (maybe_beats beat) q started lock_time last_beat a)
unfolding on_answer watch
on_answer-Agrees s beat q started lock_time last_beat none =
    look_back-Agrees s beat q started lock_time last_beat
on_answer-Agrees s true q started lock_time last_beat (some Answer.rearm) = (true, refl, refl)
on_answer-Agrees s false q started lock_time last_beat (some Answer.rearm) = (true, refl, refl)
on_answer-Agrees s true q started lock_time last_beat (some Answer.gone) = (true, refl, tt)
on_answer-Agrees s false q started lock_time last_beat (some Answer.gone) = (true, refl, tt)
on_answer-Agrees s true q started lock_time last_beat (some (Answer.password pw)) = (true, refl, tt)
on_answer-Agrees s false q started lock_time last_beat (some (Answer.password pw)) =
    (true, refl, tt)
on_answer-Agrees s true q started lock_time last_beat (some Answer.dismiss) = (true, refl, tt)
on_answer-Agrees s false q started lock_time last_beat (some Answer.dismiss) = (true, refl, tt)

wait-Agrees :
    (user : Text) (s : Seen) (started lock_time last_beat : Instant)
    → Agrees true (wait user s started lock_time last_beat)
unfolding wait
wait-Agrees user s started lock_time last_beat =
    let beat = leb heartbeat (s.now - last_beat) in
    let polled = poll s.peer_gone s.consent user in
    on_answer-Agrees s beat polled.0 started lock_time (if beat then s.now else last_beat) polled.1

end-Agrees : (b : Bool) (s : Seen) (g : Gesture) (ms : ℕ) → Agrees b (end s g ms)
unfolding end watch
end-Agrees true s g ms =
    if-cases (Agrees true) s.camera _ _ (λ _. (true, refl, tt)) (λ _. (true, refl, tt))
end-Agrees false s g ms =
    if-cases (Agrees false) s.camera _ _ (λ _. (false, refl, tt)) (λ _. (false, refl, tt))

step-Agrees : (user : Text) (s : Seen) (b : Bool) (p : Phase) → Fits b p → Agrees b (step user s p)
unfolding step watch
step-Agrees user s b (starting begin_by already) fits =
    rw fits (start-Agrees user s begin_by already)
step-Agrees user s b (asking started already) fits = rw fits (ask-Agrees user s started already)
step-Agrees user s b (parked started lock_time last_beat) fits =
    rw fits (wait-Agrees user s started lock_time last_beat)
step-Agrees user s b (finishing g ms) fits = end-Agrees b s g ms
step-Agrees user s b (done o) fits = (b, refl, tt)

watch-append :
    (b c : Bool) (xs ys : List Act) → watch b xs ≡ some c → watch b (xs ++ ys) ≡ watch c ys
unfolding watch
watch-append b c [] ys h = ground (arith, h)
watch-append true c (looks ∷ xs) ys h = cc
watch-append true c (locks ∷ xs) ys h = cc
watch-append true c (adopts ∷ xs) ys h = cc
watch-append true c (wakes ∷ xs) ys h = watch-append false c xs ys h
watch-append true c (begins_session w ∷ xs) ys h = watch-append true c xs ys h
watch-append true c (tells_locked ∷ xs) ys h = watch-append true c xs ys h
watch-append true c (beats ∷ xs) ys h = watch-append true c xs ys h
watch-append true c (ends_session ∷ xs) ys h = watch-append true c xs ys h
watch-append false c (locks ∷ xs) ys h = watch-append true c xs ys h
watch-append false c (adopts ∷ xs) ys h = watch-append true c xs ys h
watch-append false c (wakes ∷ xs) ys h = cc
watch-append false c (looks ∷ xs) ys h = watch-append false c xs ys h
watch-append false c (begins_session w ∷ xs) ys h = watch-append false c xs ys h
watch-append false c (tells_locked ∷ xs) ys h = watch-append false c xs ys h
watch-append false c (beats ∷ xs) ys h = watch-append false c xs ys h
watch-append false c (ends_session ∷ xs) ys h = watch-append false c xs ys h

run_on-Follows :
    (user : Text) (b : Bool) (p : Phase) (seen : List Seen)
    → Fits b p
    → Follows b (run user p seen).0 (run user p seen).1
unfolding run watch
run_on-Follows user b p [] fits = (b, refl, fits)
run_on-Follows user b p (s ∷ seen) fits =
    let (c, one, fits') = step-Agrees user s b p fits in
    let (d, more, fits'') = run_on-Follows user c (step user s p).3 seen fits' in
    (d, watch-append b c (step user s p).0 (run user (step user s p).3 seen).0 one ∙ more, fits'')

-- Whatever a request meets, and whatever others do to the shared records between its steps, from
-- the moment it locks the session or takes over a lock until it finds the user back it does not look
-- with the camera, lock or take over a lock again; it finds the user back only while parked.
pub run-Follows :
    (user : Text) (now : Instant) (already : Bool) (seen : List Seen)
    → Follows false (run user (begun now already) seen).0 (run user (begun now already) seen).1
unfolding begun
run-Follows user now already seen = run_on-Follows user false (begun now already) seen refl
