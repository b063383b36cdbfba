-- ===== src/Consent/Riding.antt =====
-- The passwordless rider: what an approval may carry (faceauth-daemon/src/consent/state.rs).
use omarchy_faceauth.Prelude.{
  ℕ, ◌≤◌, ◌≡◌, ◌↔◌, ◌⊎◌, Bool, true, false, Option, none, some, List, [], ◌∷◌, Text, arith,
}
use omarchy_faceauth.Consent.Token.{Token}
use omarchy_faceauth.Consent.State.{Live, Queue, Fd, live_with}
use omarchy_faceauth.Consent.Card.{armed, token_matches, arm_passwordless}
use omarchy_faceauth.Consent.Calls.{Call, arms, shows, apply}

-- A rider is armed exactly by the token of the live request, on the sudo lane, with the enrolled
-- face in the nod window, for one minute to twenty-four hours.
pub armed_iff :
    (q : Queue) (user : Text) (tok : Token) (minutes : ℕ)
    → ((arm_passwordless q user tok minutes).1 ≡ armed) ↔ (
        (l : Live) × (live_with q user (some tok) ≡ some l)
        × (l.rider.lane ≡ some true)
        × (l.rider.face_present ≡ true)
        × (1 ≤ minutes)
        × (minutes ≤ 1440))
unfolding arm_passwordless
armed_iff q user tok minutes = (λ h. ground arith, λ h. ground arith)

abbrev pub minutes_of : Queue → Option ℕ
minutes_of q = elim q.live [ none ↦ none | some l ↦ l.rider.minutes ]

abbrev shown_of : Queue → Bool
shown_of q = elim q.live [ none ↦ false | some l ↦ l.rider.shown ]

-- A call that arms a rider of `m` minutes.
abbrev pub IsArm : Queue → ℕ → Call → Type 0
IsArm q m (arms user tok minutes) =
    ((arm_passwordless q user tok minutes).1 ≡ armed) × (minutes ≡ m) × (1 ≤ m) × (m ≤ 1440)
IsArm q m _ = ⊥

-- A payload that waits for the window's acknowledgement and names the rider.
abbrev pub IsShow : Queue → Call → Type 0
IsShow q (shows user tok sudo mark_shown) =
    (token_matches q user (some tok) ≡ true) × (mark_shown ≡ true)
IsShow q _ = ⊥

abbrev pub Shown : (Fd → Bool) → Queue → List Call → Type 0
Shown gone q [] = ⊥
Shown gone q (c ∷ cs) = IsShow q c ⊎ Shown gone (apply gone q c) cs

-- A rider of `m` minutes was armed, and the card was shown it after that.
abbrev pub Granted : (Fd → Bool) → ℕ → Queue → List Call → Type 0
Granted gone m q [] = ⊥
Granted gone m q (c ∷ cs) =
    (IsArm q m c × Shown gone (apply gone q c) cs) ⊎ Granted gone m (apply gone q c) cs

abbrev IsReady : ℕ → Queue → Type 0
IsReady m q = (minutes_of q ≡ some m) × (shown_of q ≡ true)
