-- ===== src/Store/Files/Reload.antt =====
-- A load reads back what a save wrote (faceauth-daemon/src/store/files.rs).
use omarchy_faceauth.Prelude.{◌≡◌, refl, inl, inr, true, some, [], Text, text_eq_refl, ◌==◌, arith}
use mathlib.Core.Path.{subst}
use omarchy_faceauth.Store.Templates.{UserTemplates, format_version}
use omarchy_faceauth.Store.Sealing.{bytes, cred_name}
use omarchy_faceauth.Store.Disk.{Store, ok, Host, fingerprint, cached}
use omarchy_faceauth.Store.Files.{
  plain_name, sealed_name, save, parse, load_sealed, load_plain, load, if_matches, uid_matches,
}
use omarchy_faceauth.Store.Files.Saved.{written, Fits, Wrote, save-Wrote}

-- What a reading process answers about a saved set.
pub record IsReader (h : Host) (t : UserTemplates) (k : Host) : Type 0 where
  pub stats : (n : Text) → k.stats n ≡ true
  pub reads : (n : Text) → k.reads n ≡ true
  pub json : k.of_json (h.to_json t) ≡ some t
  pub unseals :
      (b : Text)
      → h.seals (cred_name t.user) (h.to_json t) ≡ bytes b
      → k.unseals (cred_name t.user) b ≡ bytes (h.to_json t)
  pub uid : k.uid_of t.user ≡ some t.uid

module _ (h k : Host) (t : UserTemplates) (reader : IsReader h t k)
    (current : t.version ≡ format_version) where
  uid_matches_lem : uid_matches k t ≡ true
  unfolding uid_matches
  uid_matches_lem = rw reader.uid ground arith

  if_matches-eq : if_matches k t ≡ some t
  if_matches-eq = rw uid_matches_lem refl

  parse-to_json : parse k (h.to_json t) t.user ≡ ok (some t)
  unfolding parse
  parse-to_json =
      let now : (t.version == format_version) ≡ true = ground (arith, current) in
      rw (reader.json, now, text_eq_refl t.user, uid_matches_lem) refl

  load_sealed-Fits :
      (s : Store) (b : Text)
      → h.seals (cred_name t.user) (h.to_json t) ≡ bytes b
      → Fits s t.user (fingerprint (sealed_name t.user) (written h b)) t
      → (load_sealed k s t.user (written h b)).1 ≡ ok (some t)
  unfolding load_sealed
  load_sealed-Fits s b sealed (inr cached_already) =
      rw (reader.stats (sealed_name t.user), cached_already, if_matches-eq) refl
  load_sealed-Fits s b sealed (inl not_cached) =
      rw
        (
          reader.stats (sealed_name t.user),
          not_cached,
          reader.reads (sealed_name t.user),
          reader.unseals b sealed,
          parse-to_json,
        )
        refl

  load_plain-written :
      (s : Store) → (load_plain k s t.user (written h (h.to_json t))).1 ≡ ok (some t)
  unfolding load_plain
  load_plain-written s = rw (reader.reads (plain_name t.user), parse-to_json) refl

  load-Wrote : (s : Store) (p : Text) → Wrote h t (s, ok p) → (load k s t.user).1 ≡ ok (some t)
  unfolding load
  load-Wrote s p (known, inl (b, sealed, file, clear, fits)) =
      rw (known, file) (load_sealed-Fits s b sealed fits)
  load-Wrote s p (known, inr (absent, file)) = rw (known, absent, file) (load_plain-written s)

-- The daemon started again: nothing is cached, and sealing is what the probe says.
unfoldable pub restart : Host → Store → Store
restart h s = record { disk = s.disk; sealing = h.probes; cache = [] }

restart-Wrote :
    (h k : Host) (t : UserTemplates) (s : Store) (p : Text)
    → Wrote h t (s, ok p)
    → Wrote h t (restart k s, ok p)
unfolding restart cached
restart-Wrote h k t s p (known, inl (b, sealed, file, clear, fits)) =
    (known, inl (b, sealed, file, clear, inl refl))
restart-Wrote h k t s p (known, inr c) = (known, inr c)

-- A set that was saved is read back as it was, by the daemon that saved it and by one started
-- again, sealed or in the clear, where JSON and the credential tool give back what they were given,
-- the files can be read, the set has the current version and the account still has its uid.
pub load-save :
    (h k : Host) (s s' : Store) (t : UserTemplates) (p : Text)
    → IsReader h t k
    → t.version ≡ format_version
    → save h s t ≡ (s', ok p)
    → ((load k s' t.user).1 ≡ ok (some t)) × ((load k (restart k s') t.user).1 ≡ ok (some t))
load-save h k s s' t p reader current e =
    let wrote : Wrote h t (s', ok p) = subst (Wrote h t) e (save-Wrote h s t) in
    (
      load-Wrote h k t reader current s' p wrote,
      load-Wrote h k t reader current (restart k s') p (restart-Wrote h k t s' p wrote),
    )
