-- ===== src/Verdict/Turns.antt =====
-- What a turn of a consent round may end with
-- (faceauth-daemon/src/auth/consent_flow.rs).
use omarchy_faceauth.Prelude.{
  ℕ, ◌≡◌, ◌⊎◌, inl, inr, refl, sym, ◌∙◌, Bool, true, false, not, ◌&&◌, Option, none, some, List, [],
  ◌∷◌, Text, codes, text_eq, is_some, if◌then◌else◌, if-cases, Bool-cases,
}
use mathlib.Core.Path.{subst}
use omarchy_faceauth.Outcome.{
  Outcome, match, error, consent_denied, deny_consent, refuse, CallerInfo, Refusal, wrong_password,
  no_answer, no_nod, wire, parse,
}
use omarchy_faceauth.Outcome
use omarchy_faceauth.Backoff
use omarchy_faceauth.Backoff.Escalation.{refuse-is_explicit_no}
use omarchy_faceauth.Consent.State.{Answer}
use omarchy_faceauth.Server.Rounds.{Round}
use omarchy_faceauth.Verdict.{
  Gesture, nodded, shaken, password, dismissed, gone, timeout, face_lost, confirm_unclear,
  confirm_failed, no_window, rider_armed, session_locked, moved, Confirm, live, no_signal, refused,
  Met, Scan, met, no_face, no_match, denied, answered, failed, waited, confirmed, hook, is_ok,
  scanned, Turn, Ending, round, finish, waits, missed, judge, turn, elapsed_of, verdict, is_match,
}

-- Nods that count: the window answered, the face was confirmed after them, and their frames matched.
abbrev pub IsConfirmed : Met → Type 0
IsConfirmed m = (m.shown ≡ true) × (m.gesture ≡ nodded) × (m.confirm ≡ live) × (m.nod_frames ≡ none)

-- A password that the system accepts, or nods that count at a session that is not locked.
abbrev pub IsApproval : (Text → Bool) → Turn → Option Gesture → Type 0
IsApproval pam t g =
    ((pw : Text) × (g ≡ some (password pw)) × (pam pw ≡ true))
    ⊎ ((m : Met) × (t.scan ≡ met m) × IsConfirmed m × (t.locked ≡ false))

-- The gestures that are the user's no, or a face that was not theirs.
abbrev pub is_no : Option Gesture → Bool
is_no (some shaken) = true
is_no (some dismissed) = true
is_no (some (confirm_failed why)) = true
is_no g = false

refuse-is_match :
    (caller : CallerInfo) (r : Refusal) (ms : ℕ) → is_match (refuse caller r ms) ≡ false
unfolding refuse deny_consent
refuse-is_match caller r ms =
    if-cases (λ o. is_match o ≡ false) (text_eq caller.via (codes "polkit"))
      (Outcome.refused (wire r) ms) (deny_consent r ms) (λ _. refl) (λ _. refl)

confirmed-nodded :
    (c : Confirm) (wrong : Option Text) (g : Gesture)
    → confirmed c wrong g ≡ nodded
    → (g ≡ nodded) × (c ≡ live) × (wrong ≡ none)
confirmed-nodded live none nodded e = (refl, refl, refl)
confirmed-nodded live (some why) nodded e = cc
confirmed-nodded no_signal wrong nodded e = cc
confirmed-nodded (refused why) wrong nodded e = cc
confirmed-nodded c wrong shaken e = cc
confirmed-nodded c wrong (password pw) e = cc
confirmed-nodded c wrong dismissed e = cc
confirmed-nodded c wrong gone e = cc
confirmed-nodded c wrong timeout e = cc
confirmed-nodded c wrong face_lost e = cc
confirmed-nodded c wrong confirm_unclear e = cc
confirmed-nodded c wrong (confirm_failed why) e = cc
confirmed-nodded c wrong no_window e = cc
confirmed-nodded c wrong rider_armed e = cc
confirmed-nodded c wrong session_locked e = cc
confirmed-nodded c wrong moved e = cc

waited-nodded : (riders : List Bool) (g : Gesture) → waited riders g ≡ nodded → g ≡ nodded
unfolding waited
waited-nodded [] g e = e
waited-nodded (true ∷ riders) g e = waited-nodded riders g e
waited-nodded (false ∷ riders) g e = cc

hook-IsConfirmed : (m : Met) → hook m ≡ nodded → IsConfirmed m
unfolding hook
hook-IsConfirmed m e = which m.shown refl e
  where
    which :
        (b : Bool)
        → m.shown ≡ b
        → (if b then confirmed m.confirm m.nod_frames (waited m.riders m.gesture) else no_window)
          ≡ nodded
        → IsConfirmed m
    which true shown e =
        let (g, c, w) = confirmed-nodded m.confirm m.nod_frames (waited m.riders m.gesture) e in
        (shown, waited-nodded m.riders m.gesture g, c, w)
    which false shown e = cc

-- A turn's ending, by the verdict that it leads to.
abbrev pub Fine : CallerInfo → (Text → Bool) → ℕ → Turn → Option Ending → Type 0
Fine caller pam ms t none = Unit {0}
Fine caller pam ms t (some (round r)) = Unit {0}
Fine caller pam ms t (some (finish g o)) =
    (is_match (verdict caller pam ms g o) ≡ true → IsApproval pam t g)
    × (Backoff.is_explicit_no (verdict caller pam ms g o) ≡ is_no g)

absurd : {A : Type 0} {b : Bool} → b ≡ false → b ≡ true → A
absurd e k = cc

module _ (caller : CallerInfo) (pam : Text → Bool) (ms : ℕ) (t : Turn)
    (unlocked : t.locked ≡ false) where
  waits-Fine : (r : Option Round) → Fine caller pam ms t (waits r)
  waits-Fine none = tt
  waits-Fine (some r) = tt

  missed-Fine : Fine caller pam ms t (missed t)
  missed-Fine =
      if-cases (Fine caller pam ms t) (is_some t.charged) _ _ (λ _. tt)
        (λ _. waits-Fine t.attention)

  -- The user's no ends as one.
  no-Fine :
      (g : Gesture) (r : Refusal) (n : ℕ) (o : Outcome)
      → Outcome.is_explicit_no r ≡ true
      → is_no (some g) ≡ true
      → verdict caller pam ms (some g) o ≡ refuse caller r n
      → Fine caller pam ms t (some (finish (some g) o))
  no-Fine g r n o explicit refusal e = (
    λ m. absurd (refuse-is_match caller r n) (subst (λ v. is_match v ≡ true) e m),
    subst (λ v. Backoff.is_explicit_no v ≡ is_no (some g)) (sym e)
        ((refuse-is_explicit_no caller r n).0 ∙ (explicit ∙ sym refusal)),
  )

  -- A refusal that is no answer of the user's.
  denied-Fine :
      (g : Gesture) (r : Refusal) (n : ℕ) (o : Outcome)
      → Outcome.is_explicit_no r ≡ false
      → is_no (some g) ≡ false
      → verdict caller pam ms (some g) o ≡ deny_consent r n
      → Fine caller pam ms t (some (finish (some g) o))
  unfolding deny_consent
  denied-Fine g r n o explicit refusal e = (
    λ m. absurd refl (subst (λ v. is_match v ≡ true) e m),
    subst (λ v. Backoff.is_explicit_no v ≡ is_no (some g)) (sym e)
        ((refuse-is_explicit_no caller r n).1 ∙ (explicit ∙ sym refusal)),
  )

  password-Fine :
      (pw : Text) (o : Outcome) → Fine caller pam ms t (some (finish (some (password pw)) o))
  unfolding verdict Backoff.is_explicit_no
  password-Fine pw o = elim (Bool-cases (pam pw)) [
    | inl good ↦ (λ _. inl (pw, refl, good), rw good refl)
    | inr bad ↦ denied-Fine (password pw) wrong_password (elapsed_of o) o refl refl (rw bad refl)
  ]

  met-Fine :
      (m : Met) (g : Gesture)
      → t.scan ≡ met m
      → hook m ≡ g
      → (o : Outcome)
      → o ≡ (if is_ok g then match m.score m.frames t.ms else deny_consent no_nod t.ms)
      → Fine caller pam ms t (judge t caller (some g) o)
  unfolding verdict Outcome.is_explicit_no Backoff.is_explicit_no
  met-Fine m nodded scan e o eo = rw eo (λ _. inr (m, scan, hook-IsConfirmed m e, unlocked), refl)
  met-Fine m shaken scan e o eo = no-Fine shaken Outcome.shaken (elapsed_of o) o refl refl refl
  met-Fine m (password pw) scan e o eo = password-Fine pw o
  met-Fine m dismissed scan e o eo =
      no-Fine dismissed Outcome.dismissed (elapsed_of o) o refl refl refl
  met-Fine m gone scan e o eo = tt
  met-Fine m timeout scan e o eo = waits-Fine t.attention
  met-Fine m face_lost scan e o eo = tt
  met-Fine m confirm_unclear scan e o eo = waits-Fine t.attention
  met-Fine m (confirm_failed why) scan e o eo =
      no-Fine (confirm_failed why) (Outcome.confirm why) t.ms
        (refuse caller (Outcome.confirm why) t.ms) refl refl refl
  met-Fine m no_window scan e o eo = tt
  met-Fine m rider_armed scan e o eo = denied-Fine rider_armed no_nod t.ms o refl refl eo
  met-Fine m session_locked scan e o eo = tt
  met-Fine m moved scan e o eo = tt

  judge-Fine :
      (s : Scan)
      → t.scan ≡ s
      → Fine caller pam ms t (judge t caller (scanned s t.ms).0 (scanned s t.ms).1)
  unfolding scanned verdict Outcome.is_explicit_no Backoff.is_explicit_no
  judge-Fine (met m) e = met-Fine m (hook m) e refl (scanned (met m) t.ms).1 refl
  judge-Fine no_face e =
      if-cases (Fine caller pam ms t) t.watched _ _ (λ _. tt) (λ _. waits-Fine t.attention)
  judge-Fine (no_match score frames) e = missed-Fine
  judge-Fine (denied why) e = missed-Fine
  judge-Fine (answered (Answer.password pw)) e = password-Fine pw (Outcome.no_face t.ms)
  judge-Fine (answered Answer.dismiss) e =
      no-Fine dismissed Outcome.dismissed t.ms (Outcome.no_face t.ms) refl refl refl
  judge-Fine (answered Answer.gone) e = tt
  judge-Fine (answered Answer.rearm) e = tt
  judge-Fine (failed why) e = (λ k. cc, refl)

pub turn-Fine :
    (caller : CallerInfo) (pam : Text → Bool) (ms : ℕ) (t : Turn)
    → Fine caller pam ms t (turn t caller)
unfolding turn
turn-Fine caller pam ms t =
    if-cases (Fine caller pam ms t) (t.watched && not t.answered && t.away) _ _ (λ _. tt)
      (λ _.
        if-cases (Fine caller pam ms t) (is_some t.hold && not t.answered) _ _ (λ _. held t.held)
          (λ _.
            if-cases (Fine caller pam ms t) t.locked _ _ (λ _. tt)
              (λ unlocked. judge-Fine caller pam ms t unlocked t.scan refl)))
  where
    held : (r : Option Round) → Fine caller pam ms t (waits r)
    held none = tt
    held (some r) = tt
