-- ===== src/Store/Sealing.antt =====
-- Sealing to the TPM, and what a failed unseal says (faceauth-daemon/src/store/seal.rs).
use omarchy_faceauth.Prelude.{
  ℕ, ◌+◌, Bool, true, false, ◌&&◌, ◌||◌, Option, none, some, List, [], ◌∷◌, ◌++◌, Text, codes,
  text_eq, leb, ◌==◌, map, if◌then◌else◌,
}
use omarchy_faceauth.Prelude.Splits.{contains}

pub data Sealing : Type 0 where
  tpm : Sealing
  plain : Text → Sealing

abbrev pub is_tpm : Sealing → Bool
is_tpm tpm = true
is_tpm (plain why) = false

pub data UnsealFailure : Type 0 where
  definitive transient : UnsealFailure

-- What `systemd-creds` answers: the bytes, or its failure as classified.
pub data Creds : Type 0 where
  bytes : Text → Creds
  fails : UnsealFailure → Creds

-- The machine's answers to a probe: the TPM device, the two tools, and the round trip of a seal.
pub record Machine : Type 0 where
  pub has_tpm : Bool
  pub has_creds : Bool
  pub has_timeout : Bool
  pub round_trip : Creds

probe_word : Text
probe_word = codes "probe"

sealing_of : Creds → Sealing
unfolding probe_word
sealing_of (bytes back) =
    if text_eq back probe_word
    then tpm
    else plain (codes "TPM probe round trip returned different bytes")
sealing_of (fails k) = plain (codes "TPM probe failed")

unfoldable pub detect : Machine → Sealing
unfolding sealing_of
detect m =
    if m.has_tpm
    then (if m.has_creds
        then (if m.has_timeout
            then sealing_of m.round_trip
            else plain (codes "/usr/bin/timeout not installed"))
        else plain (codes "/usr/bin/systemd-creds not installed"))
    else plain (codes "no TPM device (/dev/tpmrm0)")

-- `to_ascii_lowercase`.
abbrev lower : ℕ → ℕ
lower c = if leb b'A' c && leb c b'Z' then c + 32 else c

abbrev passing : List Text
passing =
    codes "timed out"
    ∷ codes "connect"
    ∷ codes "temporarily unavailable"
    ∷ codes "no such file"
    ∷ codes "no such device"
    ∷ codes "not available"
    ∷ codes "resource busy"
    ∷ codes "operation not permitted"
    ∷ codes "input/output error"
    ∷ codes "out of memory"
    ∷ codes "permission denied"
    ∷ codes "not supported"
    ∷ []

abbrev any_within : List Text → Text → Bool
any_within [] s = false
any_within (m ∷ ms) s = contains m s || any_within ms s

by_words : Text → UnsealFailure
by_words stderr = if any_within passing (map lower stderr) then transient else definitive

-- The exit code of `timeout`, none where a signal ended it, and what the tool wrote.
unfoldable pub classify_creds_failure : Option ℕ → Text → UnsealFailure
unfolding by_words
classify_creds_failure none stderr = transient
classify_creds_failure (some code) stderr =
    if (leb 124 code && leb code 127) || code == 137 then transient else by_words stderr

unfoldable pub cred_name : Text → Text
cred_name user = codes "faceauth-" ++ user
