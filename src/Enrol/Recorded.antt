-- ===== src/Enrol/Recorded.antt =====
-- What a session's rounds leave in the gesture calibration (faceauth-daemon/src/enrol/steps.rs,
-- `begin_kind`, and walk.rs, the end of a recorded round).
use omarchy_faceauth.Prelude.{
  ◌≡◌, refl, Bool, true, false, not, ◌||◌, Option, none, some, List, [], ◌∷◌, ◌++◌, Text, codes,
  text_eq, F32, if◌then◌else◌, arith, ap, ◌∙◌,
}
use omarchy_faceauth.Store.Templates.{GestureCal}

-- The kinds that are named "nod", "shake" and "everyday".
pub data Kind : Type 0 where
  nod shake everyday : Kind

abbrev pub kind_of : Text → Kind
kind_of stored_as =
    if text_eq stored_as (codes "nod")
    then nod
    else if text_eq stored_as (codes "shake")
    then shake
    else everyday

abbrev pub is_kind : Kind → Kind → Bool
is_kind nod nod = true
is_kind shake shake = true
is_kind everyday everyday = true
is_kind a b = false

abbrev pub has_kind : Kind → List Kind → Bool
has_kind k [] = false
has_kind k (j ∷ ks) = is_kind j k || has_kind k ks

abbrev pub cleared : Kind → GestureCal → GestureCal
cleared nod g = record g { nod_deg = []; nod_reads_to_deg = [] }
cleared shake g = record g { shake_deg = []; shake_reads_to_deg = [] }
cleared everyday g = record g { everyday_deg = [] }

unfoldable pub begin_kind : GestureCal → List Kind → Kind → GestureCal × List Kind
begin_kind g kinds k = if has_kind k kinds then (g, kinds) else (cleared k g, kinds ++ k ∷ [])

-- A round that was recorded: its swings, whether each is at the detector's least, and where the
-- replay stops reading.
pub record Recorded : Type 0 where
  pub stored_as : Text
  pub dyaw : F32
  pub dpitch : F32
  pub nods : Bool
  pub shakes : Bool
  pub reads_to : Option F32

abbrev pub read_off : Option F32 → List F32
read_off none = []
read_off (some f) = f ∷ []

abbrev pub swing : Bool → F32 → List F32
swing big v = if big then v ∷ [] else []

-- `push` at the end of a list.
abbrev pub pushed : Kind → Recorded → GestureCal → GestureCal
pushed nod r g = record g {
  nod_deg = g.nod_deg ++ swing r.nods r.dpitch;
  nod_reads_to_deg = g.nod_reads_to_deg ++ read_off r.reads_to;
}
pushed shake r g = record g {
  shake_deg = g.shake_deg ++ swing r.shakes r.dyaw;
  shake_reads_to_deg = g.shake_reads_to_deg ++ read_off r.reads_to;
}
pushed everyday r g = record g {
  everyday_deg =
      g.everyday_deg ++ record { kind = r.stored_as; dyaw = r.dyaw; dpitch = r.dpitch } ∷ [];
}

unfoldable pub record_round : GestureCal × List Kind → Recorded → GestureCal × List Kind
unfolding begin_kind
record_round (g, kinds) r =
    let k = kind_of r.stored_as in
    let (g', kinds') = begin_kind g kinds k in (pushed k r g', kinds')

unfoldable pub record_rounds : GestureCal × List Kind → List Recorded → GestureCal × List Kind
unfolding record_round
record_rounds s [] = s
record_rounds s (r ∷ rs) = record_rounds (record_round s r) rs

-- What this session read off its rounds of a kind, and whether it has one.
unfoldable pub reads_of : Kind → List Recorded → List F32
reads_of k [] = []
reads_of k (r ∷ rs) =
    if is_kind (kind_of r.stored_as) k then read_off r.reads_to ++ reads_of k rs else reads_of k rs

unfoldable pub any_of : Kind → List Recorded → Bool
any_of k [] = false
any_of k (r ∷ rs) = is_kind (kind_of r.stored_as) k || any_of k rs

abbrev pub reads_in : Kind → GestureCal → List F32
reads_in nod g = g.nod_reads_to_deg
reads_in shake g = g.shake_reads_to_deg
reads_in everyday g = []

append_nil : (xs : List F32) → xs ++ [] ≡ xs
append_nil [] = refl
append_nil (x ∷ xs) = ap (λ ys. x ∷ ys) (append_nil xs)

append_assoc : (xs ys zs : List F32) → (xs ++ ys) ++ zs ≡ xs ++ (ys ++ zs)
append_assoc [] ys zs = refl
append_assoc (x ∷ xs) ys zs = ap (λ rs. x ∷ rs) (append_assoc xs ys zs)

has_kind-append :
    (k j : Kind) (ks : List Kind) → has_kind k (ks ++ j ∷ []) ≡ (has_kind k ks || is_kind j k)
has_kind-append k j [] = ground arith
has_kind-append k j (i ∷ ks) = ground (arith, has_kind-append k j ks)

-- One round of kind `j`, for the samples of a gesture `k`.
abbrev Kept : Kind → Kind → Recorded → GestureCal → List Kind → GestureCal × List Kind → Type 0
Kept k j r g kinds (g', kinds') =
    (reads_in k (pushed j r g') ≡ (
      if is_kind j k
      then (if has_kind k kinds then reads_in k g else []) ++ read_off r.reads_to
      else reads_in k g))
    × (has_kind k kinds' ≡ (has_kind k kinds || is_kind j k))

nod_begin :
    (j : Kind) (r : Recorded) (g : GestureCal) (kinds : List Kind)
    → Kept nod j r g kinds (begin_kind g kinds j)
unfolding begin_kind
nod_begin nod r g kinds = ground (arith, has_kind-append nod nod kinds)
nod_begin shake r g kinds = ground (arith, has_kind-append nod shake kinds)
nod_begin everyday r g kinds = ground (arith, has_kind-append nod everyday kinds)

shake_begin :
    (j : Kind) (r : Recorded) (g : GestureCal) (kinds : List Kind)
    → Kept shake j r g kinds (begin_kind g kinds j)
unfolding begin_kind
shake_begin nod r g kinds = ground (arith, has_kind-append shake nod kinds)
shake_begin shake r g kinds = ground (arith, has_kind-append shake shake kinds)
shake_begin everyday r g kinds = ground (arith, has_kind-append shake everyday kinds)

-- What is left of the earlier samples.
abbrev earlier : Kind → GestureCal → List Kind → List Recorded → List F32
earlier k g kinds rs = if has_kind k kinds || not (any_of k rs) then reads_in k g else []

joined :
    (h j any h' : Bool) (old off later now : List F32)
    → h' ≡ (h || j)
    → now ≡ (if j then (if h then old else []) ++ off else old)
    → (if h' || not any then now else []) ++ later
      ≡ (if h || not (j || any) then old else []) ++ (if j then off ++ later else later)
joined true true any h' old off later now eh en = rw (eh, en) (append_assoc old off later)
joined false true any h' old off later now eh en = rw (eh, en) refl
joined true false any h' old off later now eh en = rw (eh, en) refl
joined false false any h' old off later now eh en = rw (eh, en) refl

rounds-reads :
    (k : Kind) (g : GestureCal) (kinds : List Kind) (rs : List Recorded)
    → ((j : Kind) (r : Recorded) (g : GestureCal) (kinds : List Kind)
        → Kept k j r g kinds (begin_kind g kinds j))
    → reads_in k (record_rounds (g, kinds) rs).0 ≡ earlier k g kinds rs ++ reads_of k rs
unfolding record_rounds record_round any_of reads_of
rounds-reads k g kinds [] step = ground (arith, append_nil (reads_in k g))
rounds-reads k g kinds (r ∷ rs) step =
    let j = kind_of r.stored_as in
    let one = step j r g kinds in
    let s = record_round (g, kinds) r in
    let more = rounds-reads k s.0 s.1 rs step in
    more
    ∙ joined (has_kind k kinds) (is_kind j k) (any_of k rs) (has_kind k s.1) (reads_in k g)
        (read_off r.reads_to) (reads_of k rs) (reads_in k s.0) one.1 one.0

-- A session that records a gesture replaces what earlier sessions read off it, and only that: after
-- all its rounds the calibration holds for the nod, and likewise for the shake, just what this
-- session's rounds of it read off, in order, and what was there before if the session had none.
pub session-reads :
    (g : GestureCal) (rs : List Recorded)
    → ((record_rounds (g, []) rs).0.nod_reads_to_deg
        ≡ (if any_of nod rs then [] else g.nod_reads_to_deg) ++ reads_of nod rs)
      × ((record_rounds (g, []) rs).0.shake_reads_to_deg
          ≡ (if any_of shake rs then [] else g.shake_reads_to_deg) ++ reads_of shake rs)
session-reads g rs = (
  rounds-reads nod g [] rs nod_begin ∙ turned (any_of nod rs) g.nod_reads_to_deg (reads_of nod rs),
  rounds-reads shake g [] rs shake_begin
      ∙ turned (any_of shake rs) g.shake_reads_to_deg (reads_of shake rs),
)
  where
    turned :
        (any : Bool) (old new : List F32)
        → (if not any then old else []) ++ new ≡ (if any then [] else old) ++ new
    turned true old new = refl
    turned false old new = refl
