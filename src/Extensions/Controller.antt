-- ===== src/Extensions/Controller.antt =====
-- crates/pb-extensions/src/controller.rs: the controller. What a method does under one lock is one step.
-- `install` takes two: it clones the manifest under the read lock, checks the candidate against it with
-- no lock, and writes under the write lock.
pub mod Gates
pub mod Threads
pub mod Enabled
pub mod Lived
pub mod Calm
use dev_browse.Prelude.{
  ℕ, Bool, true, false, not, List, [], ◌∷◌, ◌++◌, Option, none, some, Outcome, ok, err, panic, leb,
  if◌then◌else◌,
}
use dev_browse.Prelude.Map.{lookup, insert, erase}
use dev_browse.Prelude.Text.{text_discrete}
use dev_browse.Extensions.Version.{Version, satisfies}
use dev_browse.Extensions.Allowlist.{
  AllowlistEntry, AllowlistManifest, AllowlistParseError, SignatureVerifyError, SignatureVerifier,
  InstallCandidate, InstallVerifyError, not_on_allowlist, version_constraint_unsatisfied,
  xpi_hash_mismatch, signature_mismatch, entry_for, parse_allowlist_manifest, verify_install,
}

pub data InstalledState : Type 0 where
  enabled disabled : InstalledState

pub record InstalledExtension : Type 0 where
  pub extension_id : List ℕ
  pub version : Version
  pub state : InstalledState

pub record State : Type 0 where
  pub manifest : AllowlistManifest
  pub installed : List (List ℕ × InstalledExtension)

unfoldable pub new : AllowlistManifest → State
new seed_manifest = record { manifest = seed_manifest; installed = [] }

pub data WarningIntent : Type 0 where
  install_rejected_off_allowlist install_rejected_version_constraint : List ℕ → WarningIntent
  install_rejected_xpi_hash_mismatch : List ℕ → WarningIntent
  install_rejected_signature_mismatch : List ℕ → WarningIntent
  allowlist_manifest_update_rejected : WarningIntent
  auto_disabled_by_recall auto_disabled_by_update_constraint : List ℕ → WarningIntent

unfoldable pub for_install_error : List ℕ → InstallVerifyError → WarningIntent
for_install_error id not_on_allowlist = install_rejected_off_allowlist id
for_install_error id version_constraint_unsatisfied = install_rejected_version_constraint id
for_install_error id xpi_hash_mismatch = install_rejected_xpi_hash_mismatch id
for_install_error id signature_mismatch = install_rejected_signature_mismatch id

pub data InstallOutcome : Type 0 where
  installed_ok : InstallOutcome
  install_rejected : WarningIntent → InstallOutcome

pub data SwapOutcome : Type 0 where
  swapped : List WarningIntent → SwapOutcome
  swap_rejected : WarningIntent → SwapOutcome

unfoldable pub install_commit : InstallCandidate → State → State
install_commit candidate s = record s {
  installed =
      insert text_discrete candidate.extension_id
        (record {
          extension_id = candidate.extension_id;
          version = candidate.version;
          state = enabled;
        })
        s.installed;
}

-- A verifier that panics leaves the state as it is; the outcome is then `none`.
abbrev pub install_result :
    InstallCandidate
    → Outcome InstallVerifyError AllowlistEntry
    → State
    → State × Option InstallOutcome
install_result candidate (ok entry) s = (install_commit candidate s, some installed_ok)
install_result candidate (err e) s =
    (s, some (install_rejected (for_install_error candidate.extension_id e)))
install_result candidate panic s = (s, none)

-- The loop over the installed extensions: what becomes of one, and the intents of all.
abbrev pub reconcile_with : Option AllowlistEntry → InstalledExtension → InstalledExtension
reconcile_with (some entry) x =
    if satisfies entry.version_constraint x.version then x else record x { state = disabled }
reconcile_with none x = record x { state = disabled }

unfoldable pub reconcile_one : AllowlistManifest → InstalledExtension → InstalledExtension
reconcile_one m x = reconcile_with (entry_for m x.extension_id) x

abbrev pub intents_with : Option AllowlistEntry → InstalledExtension → List WarningIntent
intents_with (some entry) x =
    if satisfies entry.version_constraint x.version
    then []
    else auto_disabled_by_update_constraint x.extension_id ∷ []
intents_with none x = auto_disabled_by_recall x.extension_id ∷ []

unfoldable pub intents_of : AllowlistManifest → InstalledExtension → List WarningIntent
intents_of m x = intents_with (entry_for m x.extension_id) x

unfoldable pub reconcile :
    AllowlistManifest → List (List ℕ × InstalledExtension) → List (List ℕ × InstalledExtension)
reconcile m [] = []
reconcile m ((id, x) ∷ xs) = (id, reconcile_one m x) ∷ reconcile m xs

unfoldable pub all_intents :
    AllowlistManifest → List (List ℕ × InstalledExtension) → List WarningIntent
all_intents m [] = []
all_intents m ((id, x) ∷ xs) = intents_of m x ++ all_intents m xs

-- The part of the swap under the write lock.
unfoldable pub swap_commit : AllowlistManifest → State → State × SwapOutcome
swap_commit m s =
    if leb m.manifest_version s.manifest.manifest_version
    then (s, swap_rejected allowlist_manifest_update_rejected)
    else (
      record { manifest = m; installed = reconcile m s.installed },
      swapped (all_intents m s.installed),
    )

unfoldable pub remove : List ℕ → State → State × Bool
remove id s = (
  record s { installed = erase text_discrete id s.installed },
  elim (lookup text_discrete id s.installed) [ none ↦ false | some _ ↦ true ],
)

module _ (sha256 : List ℕ → List ℕ) (from_json : List ℕ → Option AllowlistManifest)
    (verifier : SignatureVerifier) where
  -- `install`, with the manifest that `active_manifest` gave under the read lock and the state under the
  -- write lock; other calls may come between the two.
  unfoldable pub install :
      InstallCandidate → AllowlistManifest → State → State × Option InstallOutcome
  install candidate active s =
      install_result candidate (verify_install sha256 verifier candidate active) s

  abbrev pub swap_verified :
      AllowlistManifest
      → Outcome SignatureVerifyError (Unit {0})
      → State
      → State × Option SwapOutcome
  swap_verified m (ok _) s = ((swap_commit m s).0, some (swap_commit m s).1)
  swap_verified m (err e) s = (s, some (swap_rejected allowlist_manifest_update_rejected))
  swap_verified m panic s = (s, none)

  abbrev pub swap_parsed :
      Outcome AllowlistParseError AllowlistManifest
      → Outcome SignatureVerifyError (Unit {0})
      → State
      → State × Option SwapOutcome
  swap_parsed (ok m) signature s = swap_verified m signature s
  swap_parsed (err e) signature s = (s, some (swap_rejected allowlist_manifest_update_rejected))
  swap_parsed panic signature s = (s, none)

  unfoldable pub try_swap_allowlist_manifest :
      List ℕ → List ℕ → List ℕ → State → State × Option SwapOutcome
  try_swap_allowlist_manifest new_manifest_bytes detached_sig root_pubkey s =
      swap_parsed (parse_allowlist_manifest from_json new_manifest_bytes)
        (verifier root_pubkey new_manifest_bytes detached_sig) s
