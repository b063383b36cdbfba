-- ===== src/Server/Read/Line.antt =====
-- What the reader lets through (faceauth-daemon/src/server/read.rs).
use omarchy_faceauth.Prelude.{ℕ, ◌<◌, ◌≡◌, ◌≢◌, List, [], ◌∷◌, ◌++◌, Duration, All}
use omarchy_faceauth.Server.Read.{request_deadline, Got, arrived}

-- A line as the protocol has it: one line feed, at its end.
pub record IsLine (l : List ℕ) : Type 0 where
  pub start : List ℕ
  pub ends : start ++ 10 ∷ [] ≡ l
  pub one : All (λ b. b ≢ 10) start

abbrev pub Bytes : List ℕ → Type 0
Bytes l = All (λ b. b ≢ 10) l

-- The rounds that a line took, all begun in time, and its bytes, all of what arrived in them.
pub record TookRounds (rounds : List (Duration × Got)) (buf l : List ℕ) : Type 0 where
  pub done : List (Duration × Got)
  pub left : List (Duration × Got)
  pub all : done ++ left ≡ rounds
  pub bytes : buf ++ arrived done ≡ l
  pub early : All (λ (r : Duration × Got). r.0 < request_deadline) done
