-- ===== src/Lib.antt =====
-- faceauth: face authentication for a Linux desktop, by the daemon `faceauthd` (faceauth-daemon),
-- a PAM module (pam_faceauth) and a command line. This library models the parts that decide: who
-- may unlock or elevate, when a session locks, and what one request can do to another.
--
-- The parts, and the files that model them:
--   Presence   faceauth-daemon/src/presence: the walk-away watch, its configuration and the
--              session lock. `Watch.step` is `Watch::step`, one look's worth of rules; `Lock` is
--              `SessionLock`, its `resumed` split at the place where the source lets go of the
--              mutex, so that askers interleave.
--   Outcome    faceauth-daemon/src/auth/outcome.rs: verdicts, refusals and their wire strings.
--   Backoff    faceauth-daemon/src/server/backoff.rs: the standing refusal after a user's no.
--   Cooldown   faceauth-daemon/src/auth/cooldown.rs: the holds that failed attempts earn.
--   Consent    faceauth-daemon/src/consent/state.rs: the consent queue and the request on screen.
--              `Consent.State` is the queue, `Consent.Card` what the card writes into the live
--              record, `Consent.Calls` every such call as one step of an interleaving.
--   Requester  faceauth-daemon/src/consent/requester.rs: who asks, as a card may show it, and the
--              contexts that polkit's agent sends.
--   Passwordless  faceauth-daemon/src/consent/passwordless.rs: the sudoers.d rule of a spell and
--              the timer that ends it.
--   Rearm      faceauth-daemon/src/auth/rearm.rs: the waits between the rounds of a request.
--   Server     faceauth-daemon/src/server: `Server.Locality` is locality.rs, `locality_of` and
--              `locality_with` over a `ProcView` of /proc and logind; `Server.Handle` is handle.rs,
--              one connection from its line to its reply, with its lanes in `Server.Lanes` and
--              `Server.Answers`, what it reads of the world in `Server.World`, its gates in
--              `Server.Admit`, its reader in `Server.Read` and the presence query in
--              `Server.Switch`. `Server.Rounds` is rounds.rs, `consent_rounds` as a step function
--              over its phases, and `Server.Slots` the places for connections of serve.rs.
--   Store      faceauth-daemon/src/store: a user's template set (`Store.Templates`), its pruning and
--              matching (`Store.Pruning`), sealing (`Store.Sealing`) and the files (`Store.Disk`,
--              `Store.Files`). A directory is a list of named files; what the accounts, JSON,
--              systemd-creds and each step of the file system answer is a `Host`,
--              and which entries a listing of the directory gives. `Store.Enrolled` is who
--              has a file there, the list of faceauth-daemon/src/server/acl.rs.
--   Verdict    faceauth-daemon/src/auth/consent_flow.rs: what a turn of `consent_round` makes of a
--              scan, and `consent_finish`.
--   Enrol      faceauth-daemon/src/enrol: the walk-through's steps (`Enrol.Steps`), what its rounds
--              leave in the calibration (`Enrol.Recorded`) and its session (`Enrol.Session`).
--   Pam        pam_faceauth/src/lib.rs: the PAM module, from its arguments to the verdict. `Pam.Json` is
--              a reader of JSON to judge its requests by.
--   Camera     faceauth-camera/src/unpack.rs: the unpackers of a frame's bytes into 10-bit samples. A
--              buffer is a list of numbers, and `none` is a panic.
--   Prelude    numbers, lists, texts and times that the parts share.
--   Examples   the theorems at concrete inputs.
--
-- A method that changes its object returns the new one. A mutex is taken once in each function of
-- `Consent`, `Presence.Lock` and `Backoff`, so that an interleaving of threads is a sequence of
-- calls; `Server.Handle` runs the calls of one connection without others between them. `Instant` and `Duration`
-- are counts of nanoseconds; adding to them does not overflow here. A u32 counter that wraps in
-- the source wraps in the model. Loops over what the camera and the clock give are recursions on
-- the list of what each round reads, with `none` where the list ends before the loop does; the
-- pruning of a set is a recursion on fuel, one round for each template, and each round takes one.
-- Each step of `Server.Rounds` is given the shared records as it finds them, so that other threads
-- act between its steps; the times that a step reads are one.
--
-- Not modelled: the camera devices and the Bayer reduction, the neural models and all float arithmetic (what they answer is an
-- argument), so the scan of an attempt, the gesture detectors and the walk-through's dot; the
-- cards, notices and prompts, the window's own program, and the log.
pub mod Prelude
pub mod Presence
pub mod Outcome
pub mod Backoff
pub mod Cooldown
pub mod Consent
pub mod Rearm
pub mod Pam
pub mod Server
mod Examples
pub mod Passwordless
pub mod Requester
pub mod Store
pub mod Verdict
pub mod Enrol
pub mod Camera
