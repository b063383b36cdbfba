-- ===== src/Server/Read.antt =====
-- Reading the request line, bounded in size and in time (faceauth-daemon/src/server/read.rs).
pub mod Line
use omarchy_faceauth.Prelude.{
  ℕ, ◌≤◌, ◌<◌, ◌≡◌, ◌≢◌, refl, Bool, true, false, Option, none, some, List, [], ◌∷◌, ◌++◌, Duration,
  secs, length, length-append, All, leb, ◌==◌, if◌then◌else◌, arith, Bool-cases, ◌⊎◌, inl, inr,
}

abbrev pub max_request : ℕ
max_request = 4096

abbrev pub request_deadline : Duration
request_deadline = secs 5

-- What one `read` of a byte gives.
pub data Got : Type 0 where
  byte : ℕ → Got
  end timed_out interrupted failed : Got

-- A line, its bytes in order; no line; or an error of the socket.
pub data Read : Type 0 where
  line : List ℕ → Read
  nothing broken : Read

-- The rounds of the loop: the time since the start as the round begins, and what its read gives.
unfoldable pub read_on : List (Duration × Got) → List ℕ → Option Read
read_on [] buf = none
read_on ((elapsed, byte b) ∷ more) buf =
    let longer = buf ++ b ∷ [] in
    let rest = read_on more longer in
    if leb request_deadline elapsed
    then some nothing
    else if b == 10
    then some (line longer)
    else if leb max_request (length longer)
    then some nothing
    else rest
read_on ((elapsed, interrupted) ∷ more) buf =
    let rest = read_on more buf in if leb request_deadline elapsed then some nothing else rest
read_on ((elapsed, failed) ∷ more) buf =
    if leb request_deadline elapsed then some nothing else some broken
read_on ((elapsed, end) ∷ more) buf = some nothing
read_on ((elapsed, timed_out) ∷ more) buf = some nothing

unfoldable pub read_request : List (Duration × Got) → Option Read
unfolding read_on
read_request rounds = read_on rounds []

-- The bytes that arrive, in order.
abbrev pub arrived : List (Duration × Got) → List ℕ
arrived [] = []
arrived ((t, byte b) ∷ more) = b ∷ arrived more
arrived ((t, _) ∷ more) = arrived more
