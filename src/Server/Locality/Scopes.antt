-- ===== src/Server/Locality/Scopes.antt =====
-- Which cgroups name a session, and which sessions are asked in
-- (faceauth-daemon/src/server/locality.rs).
use omarchy_faceauth.Prelude.{
  ◌≡◌, ◌≢◌, ◌∙◌, sym, refl, ap, Bool, true, false, ◌&&◌, Option, none, some, List, [], ◌∷◌, ◌++◌,
  Text, codes, text_eq, text_eq_iff, strip_prefix, append-strip_prefix, arith, if◌then◌else◌,
}
use omarchy_faceauth.Prelude.Chars.{is_digit, is_alphanumeric}
use omarchy_faceauth.Prelude.Splits.{is_empty_text, split, lines, trim, strip_suffix}
use omarchy_faceauth.Prelude.Joins.{join, join-split, strip_suffix-append}
use omarchy_faceauth.Server.ProcView.{
  ◌>>=?◌, all, digits_only, id_of, slice_uid, scope_id, id_of_parts, unified_path,
  session_id_from_cgroup,
}

>>=?-some :
    {A B : Type 0} (o : Option A) (f : A → Option B) (b : B)
    → (o >>=? f) ≡ some b
    → (a : A) × (o ≡ some a) × (f a ≡ some b)
>>=?-some none f b h = cc
>>=?-some (some a) f b h = (a, refl, h)

-- A text between a prefix and a suffix.
between : (p q s r : Text) → (strip_prefix p s >>=? strip_suffix q) ≡ some r → p ++ (r ++ q) ≡ s
between p q s r h =
    let (t, e, k) = >>=?-some (strip_prefix p s) (strip_suffix q) r h in
    ap (λ (x : Text). p ++ x) (strip_suffix-append q t r k) ∙ append-strip_prefix p s t e

-- The one place of a session scope: directly below a user's slice.
abbrev pub scope_path : Text → Text → Text
scope_path uid id = join b'/' (
    []
    ∷ codes "user.slice"
    ∷ (codes "user-" ++ (uid ++ codes ".slice"))
    ∷ (codes "session-" ++ (id ++ codes ".scope"))
    ∷ [])

digits_only_parts : (uid : Text) → digits_only uid ≡ true → (uid ≢ []) × (all is_digit uid ≡ true)
digits_only_parts [] h = cc
digits_only_parts (c ∷ uid) h = (λ e. cc, ground arith)

id_of_lem :
    (id' id : Text) → id_of id' ≡ some id → (id' ≡ id) × (id ≢ []) × (all is_alphanumeric id ≡ true)
id_of_lem [] id h = cc
id_of_lem (c ∷ id') id h = (ground arith, λ e. ground arith, ground arith)

kept :
    {A : Type 0} (b : Bool) (o : Option A) (a : A)
    → (if b then o else none) ≡ some a
    → (b ≡ true) × (o ≡ some a)
kept true o a h = (refl, h)
kept false o a h = cc

root_parts :
    (root user : Text)
    → (is_empty_text root && text_eq user (codes "user.slice")) ≡ true
    → (root ≡ []) × (user ≡ codes "user.slice")
root_parts [] user h = (refl, ground (arith, text_eq_iff user (codes "user.slice")))
root_parts (c ∷ root) user h = cc

id_of_parts_lem :
    (parts : List Text) (id : Text)
    → id_of_parts parts ≡ some id
    → (uid : Text) × (join b'/' parts ≡ scope_path uid id)
      × (uid ≢ [])
      × (all is_digit uid ≡ true)
      × (id ≢ [])
      × (all is_alphanumeric id ≡ true)
unfolding id_of_parts
id_of_parts_lem [] id h = cc
id_of_parts_lem (a ∷ []) id h = cc
id_of_parts_lem (a ∷ b ∷ []) id h = cc
id_of_parts_lem (a ∷ b ∷ c ∷ []) id h = cc
id_of_parts_lem (root ∷ user ∷ slice ∷ scope ∷ []) id h =
    let (slices, h₀) = kept (is_empty_text root && text_eq user (codes "user.slice")) _ id h in
    let (no_root, is_user) = root_parts root user slices in
    let (uid, e₁, h₁) =
      >>=?-some (slice_uid slice) (λ u. if digits_only u then scope_id scope >>=? id_of else none)
        id h₀ in
    let (digits, h₂) = kept (digits_only uid) (scope_id scope >>=? id_of) id h₁ in
    let (some_uid, plain_uid) = digits_only_parts uid digits in
    let (id', e₂, h₃) = >>=?-some (scope_id scope) id_of id h₂ in
    let (same, some_id, plain_id) = id_of_lem id' id h₃ in
    (
      uid,
      cc (
        between (codes "user-") (codes ".slice") slice uid e₁,
        between (codes "session-") (codes ".scope") scope id' e₂,
      ),
      some_uid,
      plain_uid,
      some_id,
      plain_id,
    )
id_of_parts_lem (a ∷ b ∷ c ∷ d ∷ e ∷ l) id h = cc

-- A listing names a session only if the path of its unified line is that session's scope directly
-- below a user's slice, with a uid in digits and an id of letters and digits, neither of them
-- empty.
pub session_id_lem :
    (cgroup id : Text)
    → session_id_from_cgroup cgroup ≡ some id
    → (path uid : Text) × (unified_path (lines cgroup) ≡ some path)
      × (trim path ≡ scope_path uid id)
      × (uid ≢ [])
      × (all is_digit uid ≡ true)
      × (id ≢ [])
      × (all is_alphanumeric id ≡ true)
unfolding session_id_from_cgroup
session_id_lem cgroup id h =
    let (path, e, k) =
      >>=?-some (unified_path (lines cgroup)) (λ p. id_of_parts (split b'/' (trim p))) id h in
    let (uid, joined, some_uid, plain_uid, some_id, plain_id) =
      id_of_parts_lem (split b'/' (trim path)) id k in
    (
      path,
      uid,
      e,
      sym (join-split b'/' (trim path)) ∙ joined,
      some_uid,
      plain_uid,
      some_id,
      plain_id,
    )
