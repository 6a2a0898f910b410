-- ===== src/Extensions/Allowlist.antt =====
-- crates/pb-extensions/src/allowlist.rs: the manifest and the gate of an install. Identifiers, keys,
-- signatures and hashes are lists of bytes; JSON (serde_json), SHA-256 and the verifier of signatures
-- are parameters.
use dev_browse.Prelude.{
  ℕ, Bool, true, false, not, ◌&&◌, List, [], ◌∷◌, Option, none, some, Outcome, ok, err, panic, ◌==◌,
  if◌then◌else◌,
}
use dev_browse.Prelude.Fallible.{◌>>=◌}
use dev_browse.Prelude.Text.{same_text, any_same}
use dev_browse.Extensions.Version.{Version, VersionConstraint, satisfies}

abbrev pub allowlist_format_version : ℕ
allowlist_format_version = 1

pub record AllowlistEntry : Type 0 where
  pub extension_id : List ℕ
  pub version_constraint : VersionConstraint
  pub sha256_of_xpi : List ℕ
  pub signing_pubkey : List ℕ

pub record AllowlistManifest : Type 0 where
  pub format_version : ℕ
  pub manifest_version : ℕ
  pub entries : List AllowlistEntry

unfoldable pub find_entry : List ℕ → List AllowlistEntry → Option AllowlistEntry
find_entry id [] = none
find_entry id (e ∷ es) = if same_text e.extension_id id then some e else find_entry id es

unfoldable pub entry_for : AllowlistManifest → List ℕ → Option AllowlistEntry
entry_for m id = find_entry id m.entries

pub data AllowlistParseError : Type 0 where
  invalid_json unsupported_format_version duplicate_extension_id : AllowlistParseError

-- The loop with the set `seen`.
unfoldable pub no_duplicates : List (List ℕ) → List AllowlistEntry → Bool
no_duplicates seen [] = true
no_duplicates seen (e ∷ es) =
    let rest = no_duplicates (e.extension_id ∷ seen) es in
    if any_same e.extension_id seen then false else rest

abbrev pub check_manifest : Option AllowlistManifest → Outcome AllowlistParseError AllowlistManifest
check_manifest none = err invalid_json
check_manifest (some m) =
    if not (m.format_version == allowlist_format_version)
    then err unsupported_format_version
    else if no_duplicates [] m.entries
    then ok m
    else err duplicate_extension_id

unfoldable pub parse_allowlist_manifest :
    (List ℕ → Option AllowlistManifest) → List ℕ → Outcome AllowlistParseError AllowlistManifest
parse_allowlist_manifest from_json manifest_bytes = check_manifest (from_json manifest_bytes)

pub data SignatureVerifyError : Type 0 where
  module_not_ready mismatch : SignatureVerifyError

-- `verify_ed25519`: key, message and signature.
abbrev pub SignatureVerifier : Type 0
SignatureVerifier = List ℕ → List ℕ → List ℕ → Outcome SignatureVerifyError (Unit {0})

unfoldable pub reject_all : SignatureVerifier
reject_all pubkey msg sig = err module_not_ready

unfoldable pub is_trusted : List (List ℕ × List ℕ × List ℕ) → List ℕ → List ℕ → List ℕ → Bool
is_trusted [] pubkey msg sig = false
is_trusted ((p, m, s) ∷ trusted) pubkey msg sig =
    if same_text p pubkey && same_text m msg && same_text s sig
    then true
    else is_trusted trusted pubkey msg sig

-- `InMemoryTrustedVerifier`.
unfoldable pub in_memory_trusted : List (List ℕ × List ℕ × List ℕ) → SignatureVerifier
in_memory_trusted trusted pubkey msg sig =
    if is_trusted trusted pubkey msg sig then ok tt else err mismatch

pub record InstallCandidate : Type 0 where
  pub extension_id : List ℕ
  pub version : Version
  pub xpi_bytes : List ℕ
  pub xpi_signature : List ℕ

pub data InstallVerifyError : Type 0 where
  not_on_allowlist version_constraint_unsatisfied xpi_hash_mismatch : InstallVerifyError
  signature_mismatch : InstallVerifyError

abbrev pub entry_or_reject : Option AllowlistEntry → Outcome InstallVerifyError AllowlistEntry
entry_or_reject none = err not_on_allowlist
entry_or_reject (some e) = ok e

-- `map_err` on what the verifier says.
abbrev pub signature_or_reject :
    Outcome SignatureVerifyError (Unit {0}) → Outcome InstallVerifyError (Unit {0})
signature_or_reject (ok _) = ok tt
signature_or_reject (err _) = err signature_mismatch
signature_or_reject panic = panic

unfoldable pub verify_install :
    (List ℕ → List ℕ)
    → SignatureVerifier
    → InstallCandidate
    → AllowlistManifest
    → Outcome InstallVerifyError AllowlistEntry
verify_install sha256 verifier candidate manifest = do
  entry ← entry_or_reject (entry_for manifest candidate.extension_id)
  if not (satisfies entry.version_constraint candidate.version)
      then err version_constraint_unsatisfied
      else if not (same_text (sha256 candidate.xpi_bytes) entry.sha256_of_xpi)
      then err xpi_hash_mismatch
      else (signature_or_reject
            (verifier entry.signing_pubkey candidate.xpi_bytes candidate.xpi_signature)
          >>= (λ _. ok entry))
