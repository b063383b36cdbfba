-- ===== src/Store/Files/Runs.antt =====
-- Any run of calls for one user, on a machine that cannot seal (faceauth-daemon/src/store/files.rs).
use omarchy_faceauth.Prelude.{◌≡◌, refl, sym, ◌∙◌, true, false, List, [], ◌∷◌, Text, is_some, All}
use omarchy_faceauth.Store.Templates.{UserTemplates}
use omarchy_faceauth.Store.Sealing.{is_tpm}
use omarchy_faceauth.Store.Disk.{Store, Host, get}
use omarchy_faceauth.Store.Files.{
  plain_name, sealed_name, save, load, set_aside_unreadable, open_for_enrolment, delete,
}
use omarchy_faceauth.Store.Files.Sticky.{
  Same, Stuck, Stuck-Same, save-Barred, load-Same, set_aside-Same, open_for_enrolment-Same,
}

-- What is asked of the store for a user, and what a run of it leaves.
pub data Call : Type 0 where
  saves : UserTemplates → Call
  loads opens sets_aside deletes : Call

unfoldable pub call : Text → Host → Call → Store → Store
call u h (saves t) s = (save h s t).0
call u h loads s = (load h s u).0
call u h opens s = (open_for_enrolment h s u).0
call u h sets_aside s = (set_aside_unreadable h s u).0
call u h deletes s = (delete h s u).0

unfoldable pub run : List (Text × Host × Call) → Store → Store
unfolding call
run [] s = s
run ((u, h, c) ∷ cs) s = run cs (call u h c s)

-- A call for this user that is no delete.
abbrev pub IsKeeping : Text → Text × Host × Call → Type 0
IsKeeping u (v, h, saves t) = t.user ≡ u
IsKeeping u (v, h, deletes) = true ≡ false
IsKeeping u (v, h, c) = v ≡ u

call-Same :
    (u v : Text) (h : Host) (c : Call) (s : Store)
    → is_tpm h.probes ≡ false
    → IsKeeping u (v, h, c)
    → Stuck u s
    → Same u s (call v h c s)
unfolding call
call-Same u v h (saves t) s hp e stuck = rw (sym e) ((save-Barred h s t hp (rw e stuck)).0)
call-Same u v h loads s hp e stuck = rw e (load-Same h s u stuck.1)
call-Same u v h opens s hp e stuck = rw e (open_for_enrolment-Same h s u stuck)
call-Same u v h sets_aside s hp e stuck = rw e (set_aside-Same h s u stuck)
call-Same u v h deletes s hp e stuck = cc

-- On a machine that cannot seal, however a user's set is saved, loaded, opened for an enrolment and
-- set aside, the user's sealed file stays as it is and no plaintext appears beside it.
pub sealed_stays :
    (u : Text) (calls : List (Text × Host × Call)) (s : Store)
    → is_tpm s.sealing ≡ false
    → is_some (get s.disk.files (sealed_name u)) ≡ true
    → All (λ (e : Text × Host × Call). (is_tpm e.1.probes ≡ false) × IsKeeping u e) calls
    → (get (run calls s).disk.files (sealed_name u) ≡ get s.disk.files (sealed_name u))
      × (get (run calls s).disk.files (plain_name u) ≡ get s.disk.files (plain_name u))
unfolding run
sealed_stays u [] s hs hf hc = (refl, refl)
sealed_stays u ((v, h, c) ∷ cs) s hs hf ((hp, e), hc) =
    let same = call-Same u v h c s hp e (hs, hf) in
    let stuck = Stuck-Same u s (call v h c s) (hs, hf) same in
    let (a, b) = sealed_stays u cs (call v h c s) stuck.0 stuck.1 hc in (a ∙ same.0, b ∙ same.1)
