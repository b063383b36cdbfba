-- ===== src/Server/Handle/Fine.antt =====
-- What every lane of a request keeps (faceauth-daemon/src/server/handle.rs).
use omarchy_faceauth.Prelude.{
  ℕ, ◌≡◌, ◌≢◌, ◌⊎◌, true, Option, none, some, List, [], ◌∷◌, ◌++◌, Text, All,
}
use omarchy_faceauth.Prelude.Splits.{trim}
use omarchy_faceauth.Consent.Card.{token_matches}
use omarchy_faceauth.Server.ProcView.{AgentPeer}
use omarchy_faceauth.Server.Locality.{local, locality_with}
use omarchy_faceauth.Server.Request.{Request, Peer, exited}
use omarchy_faceauth.Server.World.{
  World, Daemon, Act, pings, probes, looks, deletes, enrolls, walks, grants, refreshes, notifies,
  releases_slot, Authenticator,
}
use omarchy_faceauth.Server.Lanes.{Lane, busy, with_camera}
use omarchy_faceauth.Server.Handle.{Done}

-- A peer that may ask about `user`: another process than the daemon, that of root or of the user,
-- and local to the machine; and the user is not root.
pub record Gated (w : World) (peer : Peer) (user : Text) : Type 0 where
  pub not_self : peer.pid ≢ w.own_pid
  pub not_root : w.procs.user_uid user ≢ some 0
  pub own : (peer.uid ≡ 0) ⊎ (w.procs.user_uid user ≡ some peer.uid)
  pub agent : Option AgentPeer
  pub here : locality_with w.procs peer.pid (exited peer.pidfd) user ≡ local agent

-- What a peer may have the daemon do.
abbrev pub IsAllowed : World → Peer → Act → Type 0
IsAllowed w peer (pings user) = Gated w peer user
IsAllowed w peer (probes user) = Gated w peer user
IsAllowed w peer (looks user) = Gated w peer user × (peer.uid ≢ 0)
IsAllowed w peer (deletes user) = Gated w peer user × (peer.uid ≡ 0)
IsAllowed w peer (enrolls user label s n pose) = Gated w peer user × (peer.uid ≡ 0)
IsAllowed w peer (walks user start) = Gated w peer user × (peer.uid ≡ 0)
IsAllowed w peer (grants users) = peer.uid ≡ 0
IsAllowed w peer refreshes = peer.uid ≡ 0
IsAllowed w peer (notifies user left) = Gated w peer user
IsAllowed w peer releases_slot = ((user : Text) × Gated w peer user)

-- The request that a line carries.
abbrev pub Sent : World → Option (Option Text) → Request → Type 0
Sent w line r = (text : Text) × (line ≡ some (some text)) × (w.parses (trim text) ≡ some r)

-- The shared state changes only for a peer that may ask about the user it names, and the request
-- on screen only for one that sends its token.
pub record Fine (w : World) (d : Daemon) (peer : Peer) (line : Option (Option Text)) (done : Done)
    : Type 0 where
  pub acts : All (IsAllowed w peer) done.acts
  pub state : (done.state ≡ d) ⊎ ((r : Request) × Sent w line r × Gated w peer r.user)
  pub window :
      (done.state.consent.live ≡ d.consent.live)
      ⊎ ((r : Request) × Sent w line r × (token_matches d.consent r.user r.consent_token ≡ true))

pub All-append :
    {A : Type 0} (P : A → Type 0) (xs ys : List A) → All P xs → All P ys → All P (xs ++ ys)
All-append P [] ys h k = k
All-append P (x ∷ xs) ys (h, hs) k = (h, All-append P xs ys hs k)

pub with_camera-All :
    (P : Act → Type 0) (w : World) (wait : ℕ) (f : Authenticator → Lane)
    → ((a : Authenticator) → All P (f a).0)
    → All P (with_camera w wait f).0
with_camera-All P w wait f h = taken (w.takes wait)
  where
    taken :
        (o : Option Authenticator)
        → All P (elim o as (λ _. Lane) [ none ↦ ([], busy) | some a ↦ f a ]).0
    taken none = tt
    taken (some a) = h a
