-- ===== src/Server/Rounds/Waking.antt =====
-- When a parked request goes on (faceauth-daemon/src/server/rounds.rs).
use omarchy_faceauth.Prelude.{
  ◌-◌, ◌≡◌, ◌↔◌, ◌⊎◌, inl, inr, refl, Bool, true, false, not, ◌&&◌, Option, none, some, List, Text,
  Instant, leb, ltb, secs, is_some, is_some_and, map_or, if-cases, map_or-cases, arith,
}
use omarchy_faceauth.Presence.Lock.{
  LockState, How, resumed, Begun, finish, resumed_begin, resumed_end,
}
use omarchy_faceauth.Consent.State.{Queue, poll}
use omarchy_faceauth.Server.Rounds.{
  Seen, asking, parked, Act, Stepped, look_back, on_answer, wait, step,
}

-- A face matched after the lock.
abbrev pub is_matched : Seen → Instant → Bool
is_matched s lock_time = s.camera && is_some_and s.last_match (λ m. ltb lock_time m)

-- The user is back: the lock is gone from the record, or a face matched after it, or the compositor,
-- asked at most every two seconds, says that the session is unlocked.
abbrev pub IsBack : Seen → Instant → Type 0
IsBack s lock_time =
    (s.lock.locked_at ≡ none)
    ⊎ (is_matched s lock_time ≡ true)
    ⊎ ((map_or s.lock.last_check true (λ c. leb (secs 2) (s.now - c)) ≡ true) × (s.locked ≡ false))

is_some-none : (o : Option Instant) → not (is_some o) ≡ true → o ≡ none
is_some-none none e = refl
is_some-none (some t) e = cc

resumed-IsBack :
    (s : Seen) (lock_time : Instant)
    → (is_some (resumed s.lock s.now (is_matched s lock_time) (secs 2) s.locked).1 ≡ true)
      ↔ IsBack s lock_time
unfolding resumed resumed_begin resumed_end
resumed-IsBack s lock_time =
    let P : LockState × Begun → Type 0 =
      λ r. (is_some (finish r s.locked).1 ≡ true) ↔ IsBack s lock_time in
    if-cases P (not (is_some s.lock.locked_at)) _ _
      (λ gone. (λ _. inl (is_some-none s.lock.locked_at gone), λ _. refl))
      (λ there.
        if-cases P (is_matched s lock_time) _ _ (λ m. (λ _. inr (inl m), λ _. refl))
          (λ m.
            if-cases P (map_or s.lock.last_check true (λ c. leb (secs 2) (s.now - c))) _ _
              (λ due.
                if-cases (λ (r : LockState × Option How). (is_some r.1 ≡ true) ↔ IsBack s lock_time)
                  s.locked _ _ (λ locked. (λ e. cc, λ back. ground arith))
                  (λ unlocked. (λ _. inr (inr (due, unlocked)), λ _. refl)))
              (λ due. (λ e. cc, λ back. ground arith))))

-- Where a wait with no answer leads.
abbrev Wakes : Seen → Instant → Instant → Stepped → Type 0
Wakes s started lock_time o =
    ((o.3 ≡ asking started false) ↔ IsBack s lock_time)
    × (((t : Instant) × (o.3 ≡ parked started lock_time t)) ⊎ IsBack s lock_time)

look_back-Wakes :
    (s : Seen) (acts : List Act) (q : Queue) (started lock_time last_beat : Instant)
    → Wakes s started lock_time (look_back s acts q started lock_time last_beat)
unfolding look_back
look_back-Wakes s acts q started lock_time last_beat =
    let (back, back') = resumed-IsBack s lock_time in
    map_or-cases (Wakes s started lock_time)
      (resumed s.lock s.now (is_matched s lock_time) (secs 2) s.locked).1 _ _
      (λ none_yet. ((λ e. cc, λ home. none-is_some none_yet (back' home)), inl (last_beat, refl)))
      (λ how found. ((λ _. back (rw found refl), λ _. refl), inr (back (rw found refl))))
  where
    none-is_some : {A B : Type 0} {o : Option A} → o ≡ none → is_some o ≡ true → B
    none-is_some e h = cc

-- With no answer waiting, a parked request goes on exactly when the user is back, and stays parked
-- until then.
pub wakes_iff :
    (user : Text) (s : Seen) (started lock_time last_beat : Instant)
    → (poll s.peer_gone s.consent user).1 ≡ none
    → (((step user s (parked started lock_time last_beat)).3 ≡ asking started false)
        ↔ IsBack s lock_time)
      × (((t : Instant) × ((step user s (parked started lock_time last_beat)).3
              ≡ parked started lock_time t))
          ⊎ IsBack s lock_time)
unfolding step wait on_answer
wakes_iff user s started lock_time last_beat quiet =
    rw quiet (look_back-Wakes s _ (poll s.peer_gone s.consent user).0 started lock_time _)
