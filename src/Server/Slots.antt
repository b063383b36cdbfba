-- ===== src/Server/Slots.antt =====
-- The places for connections (faceauth-daemon/src/server/serve.rs). `slots` are those that exist, by
-- the connection they belong to, each with its `held`.
use omarchy_faceauth.Prelude.{
  ℕ, ◌+◌, ◌-◌, ◌≤◌, ◌≡◌, refl, Bool, true, false, List, [], ◌∷◌, leb, ◌==◌, if◌then◌else◌, if-cases,
  arith,
}

abbrev pub max_connections : ℕ
max_connections = 8

pub record Slots : Type 0 where
  pub active : ℕ
  pub slots : List (ℕ × Bool)

-- What happens at the listener and in the threads of the connections: a connection comes, a handler
-- gives its place back early, and a slot is dropped, with its thread or with the closure of a thread
-- that did not start.
pub data Event : Type 0 where
  accepted released dropped : ℕ → Event

-- `swap`: the slots after it, and how many of these were held.
unfoldable pub swap : ℕ → List (ℕ × Bool) → List (ℕ × Bool) × ℕ
swap id [] = ([], 0)
swap id ((n, held) ∷ slots) =
    let (rest, given) = swap id slots in
    if n == id
    then ((n, false) ∷ rest, (if held then given + 1 else given))
    else ((n, held) ∷ rest, given)

unfoldable pub release : ℕ → Slots → Slots
unfolding swap
release id s =
    let (slots, given) = swap id s.slots in record { active = s.active - given; slots = slots }

unfoldable pub forget : ℕ → List (ℕ × Bool) → List (ℕ × Bool)
forget id [] = []
forget id ((n, held) ∷ slots) =
    let rest = forget id slots in if n == id then rest else (n, held) ∷ rest

unfoldable pub event : Event → Slots → Slots
unfolding release forget
event (accepted id) s =
    if leb max_connections s.active
    then record s { active = s.active + 1 - 1 }
    else record { active = s.active + 1; slots = (id, true) ∷ s.slots }
event (released id) s = release id s
event (dropped id) s = let s' = release id s in record s' { slots = forget id s'.slots }

unfoldable pub events : List Event → Slots → Slots
unfolding event
events [] s = s
events (e ∷ es) s = events es (event e s)

unfoldable pub held : List (ℕ × Bool) → ℕ
held [] = 0
held ((n, true) ∷ slots) = held slots + 1
held ((n, false) ∷ slots) = held slots

swap-held :
    (id : ℕ) (slots : List (ℕ × Bool)) → held (swap id slots).0 + (swap id slots).1 ≡ held slots
unfolding swap held
swap-held id [] = omega arith
swap-held id ((n, true) ∷ slots) = ground (arith, swap-held id slots)
swap-held id ((n, false) ∷ slots) = ground (arith, swap-held id slots)

forget-held :
    (id : ℕ) (slots : List (ℕ × Bool)) → held (forget id (swap id slots).0) ≡ held (swap id slots).0
unfolding swap held forget
forget-held id [] = refl
forget-held id ((n, h) ∷ slots) = ground (arith, forget-held id slots)

-- The count is that of the slots held, and within the limit.
abbrev pub IsCounted : Slots → Type 0
IsCounted s = (s.active ≡ held s.slots) × (s.active ≤ max_connections)

event-IsCounted : (e : Event) (s : Slots) → IsCounted s → IsCounted (event e s)
unfolding event release held
event-IsCounted (accepted id) s (same, bound) =
    if-cases IsCounted (leb max_connections s.active) _ _
      (λ full. (omega (arith, same), omega (arith, bound)))
      (λ free. (omega (arith, same), ground arith))
event-IsCounted (released id) s (same, bound) =
    let k = swap-held id s.slots in (omega (arith, same, k), omega (arith, bound))
event-IsCounted (dropped id) s (same, bound) =
    let k = swap-held id s.slots in
    let l = forget-held id s.slots in (omega (arith, same, k, l), omega (arith, bound))

-- However connections come, give their places back early, end or fail to start, from an idle
-- listener the count is always the number of the places that are held, and at most the limit: no
-- place is given back twice or never.
pub events-IsCounted : (es : List Event) → IsCounted (events es (record { active = 0; slots = [] }))
unfolding events held
events-IsCounted es = counted es (record { active = 0; slots = [] }) (refl, omega arith)
  where
    counted : (es : List Event) (s : Slots) → IsCounted s → IsCounted (events es s)
    counted [] s k = k
    counted (e ∷ es) s k = counted es (event e s) (event-IsCounted e s k)
