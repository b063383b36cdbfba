-- ===== src/Store/Templates.antt =====
-- What a user's template file holds (faceauth-daemon/src/store/templates.rs). A float is its bit
-- pattern.
use omarchy_faceauth.Prelude.{
  ℕ, ◌+◌, ◌/◌, ◌%◌, Bool, false, ◌&&◌, ◌||◌, not, Option, none, some, List, [], ◌∷◌, ◌++◌, Text,
  codes, text_eq, F32, ◌==◌, length, retain, is_some_and, if◌then◌else◌,
}
use omarchy_faceauth.Prelude.Splits.{decimal}
use omarchy_faceauth.Consent.Token.{is_empty}

abbrev pub format_version : ℕ
format_version = 1

abbrev pub max_templates : ℕ
max_templates = 40

pub record Template : Type 0 where
  pub embedding : List F32
  pub quality : F32
  pub face_width : F32
  pub created : ℕ
  pub label : Text
  pub device : Text
  pub yaw : Option F32
  pub nose_pitch : Option F32

pub record EverydayDeg : Type 0 where
  pub kind : Text
  pub dyaw : F32
  pub dpitch : F32

pub record GestureCal : Type 0 where
  pub nod_deg : List F32
  pub shake_deg : List F32
  pub everyday_deg : List EverydayDeg
  pub nod_reads_to_deg : List F32
  pub shake_reads_to_deg : List F32

pub record UserTemplates : Type 0 where
  pub version : ℕ
  pub user : Text
  pub uid : ℕ
  pub model : Text
  pub templates : List Template
  pub gesture : GestureCal

abbrev pub no_gesture : GestureCal
no_gesture = record {
  nod_deg = [];
  shake_deg = [];
  everyday_deg = [];
  nod_reads_to_deg = [];
  shake_reads_to_deg = [];
}

-- `UserTemplates::new`.
unfoldable pub new : Text → ℕ → Text → UserTemplates
new user uid model = record {
  version = format_version;
  user = user;
  uid = uid;
  model = model;
  templates = [];
  gesture = no_gesture;
}

-- `Template::usable_on`, and how many of a set may match on a camera.
abbrev pub is_usable_on : Text → Template → Bool
is_usable_on device t = text_eq t.device device

unfoldable pub usable_on : UserTemplates → Text → ℕ
usable_on u device = length (retain (is_usable_on device) u.templates)

unfoldable pub is_calibrated : GestureCal → Bool
is_calibrated g = not (is_empty g.nod_reads_to_deg) && not (is_empty g.shake_reads_to_deg)

-- `f32::is_finite`: the exponent is not all ones.
abbrev pub is_finite : F32 → Bool
is_finite bits = not (bits / 8388608 % 256 == 255)

abbrev pub any_float : (F32 → Bool) → List F32 → Bool
any_float p [] = false
any_float p (x ∷ xs) = p x || any_float p xs

abbrev pub is_odd_float : F32 → Bool
is_odd_float v = not (is_finite v)

-- What of a template is no number, named.
odd_part : ℕ → Template → Option Text
odd_part i t =
    let name = codes "template " ++ decimal i in
    if any_float is_odd_float t.embedding
    then some (name ++ codes " embedding")
    else if is_odd_float t.quality || is_odd_float t.face_width
    then some (name ++ codes " quality or face_width")
    else if is_some_and t.yaw is_odd_float || is_some_and t.nose_pitch is_odd_float
    then some (name ++ codes " pose")
    else none

odd_template : ℕ → List Template → Option Text
unfolding odd_part
odd_template i [] = none
odd_template i (t ∷ ts) = elim (odd_part i t) [
  | some what ↦ some what
  | none ↦ odd_template (i + 1) ts
]

abbrev odd_everyday : List EverydayDeg → Bool
odd_everyday [] = false
odd_everyday (e ∷ es) = is_odd_float e.dyaw || is_odd_float e.dpitch || odd_everyday es

odd_gesture : GestureCal → Bool
odd_gesture g =
    any_float is_odd_float g.nod_deg
    || any_float is_odd_float g.shake_deg
    || any_float is_odd_float g.nod_reads_to_deg
    || any_float is_odd_float g.shake_reads_to_deg
    || odd_everyday g.everyday_deg

-- The first number of a set that JSON cannot write, named.
unfoldable pub non_finite_field : UserTemplates → Option Text
unfolding odd_template odd_gesture
non_finite_field u = elim (odd_template 0 u.templates) [
  | some what ↦ some what
  | none ↦ if odd_gesture u.gesture then some (codes "gesture calibration") else none
]
