-- ===== src/Enrol/Session.antt =====
-- The one enrolment session: its claim, its watcher and its words
-- (faceauth-daemon/src/enrol/session.rs). A call is what one thread does between two others; the
-- sleep before a release is left out.
use omarchy_faceauth.Prelude.{
  ℕ, ◌≡◌, ◌≤◌, refl, Bool, true, false, ◌&&◌, Option, none, some, List, [], ◌∷◌, ◌++◌, Text,
  text_eq, ◌==◌, length, retain, length-retain-le, is_some, is_some_and, if◌then◌else◌, if-cases,
  arith,
}
use mathlib.Core.Path.{subst}

-- The three statics; a watcher is its stream.
pub record State : Type 0 where
  pub active : Option (Text × ℕ)
  pub watchers : List ℕ
  pub control : List Text

pub record Session : Type 0 where
  pub user : Text
  pub ended : Bool

unfoldable pub active_for : State → Text → ℕ → Bool
active_for s user uid = is_some_and s.active (λ a. text_eq a.0 user && a.1 == uid)

unfoldable pub is_active : State → Bool
is_active s = is_some s.active

-- A stream that cannot be set not to block is not added.
unfoldable pub add_watcher : State → ℕ → Bool → State
add_watcher s stream nonblocking = if nonblocking then record s { watchers = stream ∷ [] } else s

unfoldable pub add_control : State → Text → State
add_control s word = record s { control = s.control ++ word ∷ [] }

unfoldable pub take_control : State → State × Option Text
take_control s = elim s.control [
  | [] ↦ (s, none)
  | word ∷ words ↦ (record s { control = words }, some word)
]

-- A watcher whose stream does not take the whole line goes.
unfoldable pub broadcast : State → (ℕ → Bool) → State
broadcast s takes_line = record s { watchers = retain takes_line s.watchers }

unfoldable pub release : State → State
release s = record { active = none; watchers = []; control = [] }

unfoldable pub claim : State → Text → ℕ → State × Session
claim s user uid =
    (record s { active = some (user, uid); control = [] }, record { user = user; ended = false })

unfoldable pub end : State → Session → (ℕ → Bool) → State × Session
unfolding release broadcast
end s session takes_line =
    if session.ended
    then (s, session)
    else (release (broadcast s takes_line), record session { ended = true })

-- The claim is consumed; its drop finds it ended.
unfoldable pub abandon : State → Session → State × Session
unfolding release
abandon s session = (release s, record session { ended = true })

-- What happens while a session is held, and the ways it is given up.
pub data Call : Type 0 where
  watches : ℕ → Bool → Call
  says : Text → Call
  takes : Call
  broadcasts : (ℕ → Bool) → Call
  ends : (ℕ → Bool) → Call

unfoldable pub call : Call → State × Session → State × Session
unfolding add_watcher add_control take_control broadcast end
call (watches stream nonblocking) (s, session) = (add_watcher s stream nonblocking, session)
call (says word) (s, session) = (add_control s word, session)
call takes (s, session) = ((take_control s).0, session)
call (broadcasts takes_line) (s, session) = (broadcast s takes_line, session)
call (ends takes_line) (s, session) = end s session takes_line

unfoldable pub calls : List Call → State × Session → State × Session
unfolding call
calls [] s = s
calls (c ∷ cs) s = calls cs (call c s)

-- The claim stands exactly until the session has ended, and one window at most watches.
abbrev pub IsHeld : Text → ℕ → State × Session → Type 0
IsHeld user uid (s, session) =
    (s.active ≡ (if session.ended then none else some (user, uid))) × (length s.watchers ≤ 1)

end-IsHeld :
    (user : Text) (uid : ℕ) (s : State) (session : Session) (takes_line : ℕ → Bool)
    → IsHeld user uid (s, session)
    → IsHeld user uid (end s session takes_line) × ((end s session takes_line).0.active ≡ none)
unfolding end release
end-IsHeld user uid s session takes_line (claimed, one) = which session.ended refl
  where
    which :
        (b : Bool)
        → session.ended ≡ b
        → (let after : State × Session =
              if b
              then (s, session)
              else (release (broadcast s takes_line), record session { ended = true }) in
            IsHeld user uid after × (after.0.active ≡ none))
    which true e =
        ((claimed, one), subst (λ b. s.active ≡ (if b then none else some (user, uid))) e claimed)
    which false e = ((refl, omega arith), refl)

call-IsHeld :
    (user : Text) (uid : ℕ) (c : Call) (s : State × Session)
    → IsHeld user uid s
    → IsHeld user uid (call c s)
unfolding call add_watcher add_control take_control broadcast
call-IsHeld user uid (watches stream nonblocking) (s, session) (claimed, one) =
    if-cases (λ (r : State). IsHeld user uid (r, session)) nonblocking _ _
      (λ _. (claimed, omega arith)) (λ _. (claimed, one))
call-IsHeld user uid (says word) (s, session) held = held
call-IsHeld user uid takes (s, session) (claimed, one) = word s.control
  where
    word :
        (words : List Text)
        → IsHeld user uid ((take_control (record s { control = words })).0, session)
    word [] = (claimed, one)
    word (w ∷ words) = (claimed, one)
call-IsHeld user uid (broadcasts takes_line) (s, session) (claimed, one) =
    (claimed, omega (arith, one, length-retain-le takes_line s.watchers))
call-IsHeld user uid (ends takes_line) (s, session) held =
    (end-IsHeld user uid s session takes_line held).0

calls_on-IsHeld :
    (user : Text) (uid : ℕ) (cs : List Call) (s : State × Session)
    → IsHeld user uid s
    → IsHeld user uid (calls cs s)
unfolding calls
calls_on-IsHeld user uid [] s held = held
calls_on-IsHeld user uid (c ∷ cs) s held =
    calls_on-IsHeld user uid cs (call c s) (call-IsHeld user uid c s held)

-- Whatever is called while a session is held, from the claim on the claim names its user until the
-- session has ended and nobody after that, and one window at most watches; and however it is given
-- up, dropped or abandoned, ended before or not, no session is active after it.
pub calls-IsHeld :
    (user : Text) (uid : ℕ) (s : State) (cs : List Call)
    → length s.watchers ≤ 1
    → IsHeld user uid (calls cs (claim s user uid))
      × ((takes_line : ℕ → Bool)
          → is_active
              (end (calls cs (claim s user uid)).0 (calls cs (claim s user uid)).1 takes_line).0
            ≡ false)
      × (is_active (abandon (calls cs (claim s user uid)).0 (calls cs (claim s user uid)).1).0
          ≡ false)
unfolding claim is_active abandon release
calls-IsHeld user uid s cs one =
    let held = calls_on-IsHeld user uid cs (claim s user uid) (refl, one) in
    (
      held,
      λ takes_line.
          rw
            (end-IsHeld user uid (calls cs (claim s user uid)).0 (calls cs (claim s user uid)).1
              takes_line held).1
            refl,
      refl,
    )
