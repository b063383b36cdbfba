-- ===== src/Store/Files/Names.antt =====
-- The names of a user's files keep apart (faceauth-daemon/src/store/files.rs).
use omarchy_faceauth.Prelude.{
  ℕ, ◌≡◌, refl, ap, true, false, Option, none, some, [], ◌∷◌, ◌++◌, Text, codes, text_eq,
  starts_with, strip_prefix, arith,
}
use omarchy_faceauth.Store.Files.{plain_name, sealed_name, tmp_prefix, is_stale}

pub text_eq-append : (u a b : Text) → text_eq (u ++ a) (u ++ b) ≡ text_eq a b
text_eq-append [] a b = refl
text_eq-append (c ∷ u) a b = ground (arith, text_eq-append u a b)

strip_prefix-append_both : (u a b : Text) → strip_prefix (u ++ a) (u ++ b) ≡ strip_prefix a b
strip_prefix-append_both [] a b = refl
strip_prefix-append_both (c ∷ u) a b = ground (arith, strip_prefix-append_both u a b)

pub starts_with-append : (u a b : Text) → starts_with (u ++ a) (u ++ b) ≡ starts_with a b
starts_with-append u a b =
    ap (λ (o : Option Text). elim o [ none ↦ false | some _ ↦ true ])
      (strip_prefix-append_both u a b)

pub is_stale-sealed_name : (u : Text) (k : Option ℕ) → is_stale u k (sealed_name u) ≡ false
is_stale-sealed_name u k =
    let e : starts_with (tmp_prefix u) (sealed_name u) ≡ false =
      starts_with-append u (codes ".tmp-") (codes ".cred") in
    ground (arith, e)

pub is_stale-plain_name : (u : Text) (k : Option ℕ) → is_stale u k (plain_name u) ≡ false
is_stale-plain_name u k =
    let e : starts_with (tmp_prefix u) (plain_name u) ≡ false =
      starts_with-append u (codes ".tmp-") (codes ".json") in
    ground (arith, e)

pub text_eq-names : (u : Text) → text_eq (sealed_name u) (plain_name u) ≡ false
text_eq-names u = text_eq-append u (codes ".cred") (codes ".json")

pub text_eq-names_back : (u : Text) → text_eq (plain_name u) (sealed_name u) ≡ false
text_eq-names_back u = text_eq-append u (codes ".json") (codes ".cred")
