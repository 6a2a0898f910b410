-- ===== src/Tests/Extensions.antt =====
-- The theorems on crates/pb-extensions at concrete manifests and candidates.
use dev_browse.Prelude.{
  ℕ, ◌≤◌, ◌<◌, ◌≡◌, refl, arith, Bool, true, Option, none, some, List, [], ◌∷◌, ok, All,
}
use dev_browse.Prelude.Map.{lookup, AllValues}
use dev_browse.Prelude.Text.{bytes, text_discrete}
use dev_browse.Extensions.Version.{Version, at_least, parse, print, parse_unsigned}
use dev_browse.Extensions.Version.RoundTrip.{parse-print}
use dev_browse.Extensions.Allowlist.{
  AllowlistEntry, AllowlistManifest, SignatureVerifier, InstallCandidate, in_memory_trusted,
  no_duplicates,
}
use dev_browse.Extensions.Controller.{
  State, new, installed_ok, swapped, install, install_commit, try_swap_allowlist_manifest, disabled,
  auto_disabled_by_recall,
}
use mathlib.Core.List.{Memᴰ}
use dev_browse.Extensions.Controller.Threads.{
  Event, install_reads, install_writes, swaps, removes, shared, run, step,
}
use dev_browse.Extensions.Controller.Enabled.{Backed, StateOk}
use dev_browse.Extensions.Controller.Lived.{live_manifests, run-Backed}
use dev_browse.Extensions.Controller.Calm.{run-StateOk}
use dev_browse.Extensions.Controller.Gates.{
  Verified, UniqueIds, fresh, install-Verified, try_swap-Signed,
}

abbrev version : Version
version = record { major = 1; minor = 20; patch = 300 }

printed : print version ≡ bytes "1.20.300"
unfolding print dev_browse.Extensions.Version.digits
printed = refl

-- `u32::from_str` takes a sign.
signed_number : parse_unsigned (bytes "+7") ≡ ok 7
unfolding parse_unsigned dev_browse.Extensions.Version.parse_digits
signed_number = refl

parse-print_example : parse (print version) ≡ ok version
parse-print_example = parse-print version (omega arith) (omega arith) (omega arith)

abbrev blessed : AllowlistEntry
blessed = record {
  extension_id = bytes "e";
  version_constraint = at_least (record { major = 1; minor = 0; patch = 0 });
  sha256_of_xpi = 9 ∷ [];
  signing_pubkey = 4 ∷ [];
}

abbrev manifest : ℕ → List AllowlistEntry → AllowlistManifest
manifest n entries = record { format_version = 1; manifest_version = n; entries = entries }

abbrev hash_of : List ℕ → List ℕ
hash_of s = 9 ∷ []

-- The bytes `[2]` stand for a manifest of version 2 without entries.
abbrev json : List ℕ → Option AllowlistManifest
json s = some (manifest 2 [])

abbrev trusted : SignatureVerifier
trusted = in_memory_trusted ((4 ∷ [], 1 ∷ [], 8 ∷ []) ∷ (3 ∷ [], 2 ∷ [], 8 ∷ []) ∷ [])

abbrev candidate : InstallCandidate
candidate = record {
  extension_id = bytes "e";
  version = version;
  xpi_bytes = 1 ∷ [];
  xpi_signature = 8 ∷ [];
}

abbrev start : State
start = new (manifest 1 (blessed ∷ []))

installed :
    install hash_of json trusted candidate start.manifest start
    ≡ (install_commit candidate start, some installed_ok)
unfolding install dev_browse.Extensions.Allowlist.verify_install
    dev_browse.Extensions.Allowlist.entry_for dev_browse.Extensions.Allowlist.find_entry new
    dev_browse.Prelude.Text.same_text dev_browse.Extensions.Version.satisfies
    dev_browse.Extensions.Version.at_or_above in_memory_trusted
    dev_browse.Extensions.Allowlist.is_trusted
installed = refl

install-Verified_example :
    ((entry : AllowlistEntry) × Verified hash_of trusted candidate start.manifest entry)
    × (lookup text_discrete (bytes "e") (install_commit candidate start).installed
        ≡ some (fresh candidate))
install-Verified_example =
    install-Verified hash_of json trusted candidate start.manifest start
      (install_commit candidate start) installed

abbrev recalled : State
recalled =
    (try_swap_allowlist_manifest hash_of json trusted (2 ∷ []) (8 ∷ []) (3 ∷ [])
      (install_commit candidate start)).0

swapped_out :
    try_swap_allowlist_manifest hash_of json trusted
      (2 ∷ [])
      (8 ∷ [])
      (3 ∷ [])
      (install_commit candidate start)
    ≡ (recalled, some (swapped (auto_disabled_by_recall (bytes "e") ∷ [])))
unfolding try_swap_allowlist_manifest dev_browse.Extensions.Allowlist.parse_allowlist_manifest
    no_duplicates in_memory_trusted dev_browse.Extensions.Allowlist.is_trusted
    dev_browse.Prelude.Text.same_text dev_browse.Extensions.Controller.swap_commit install_commit
    new dev_browse.Extensions.Controller.all_intents dev_browse.Prelude.Map.insert
    dev_browse.Extensions.Controller.intents_of dev_browse.Extensions.Allowlist.entry_for
    dev_browse.Extensions.Allowlist.find_entry
swapped_out = refl

try_swap-Signed_example :
    (json (2 ∷ []) ≡ some recalled.manifest)
    × (trusted (3 ∷ []) (2 ∷ []) (8 ∷ []) ≡ ok tt)
    × ((install_commit candidate start).manifest.manifest_version
        < recalled.manifest.manifest_version)
    × UniqueIds recalled.manifest.entries
try_swap-Signed_example =
    try_swap-Signed hash_of json trusted (2 ∷ []) (8 ∷ []) (3 ∷ []) (install_commit candidate start)
      recalled (auto_disabled_by_recall (bytes "e") ∷ []) swapped_out

-- Between the two steps of the install the manifest that lists the extension is replaced.
abbrev raced : List Event
raced = install_reads 1 candidate ∷ swaps (2 ∷ []) (8 ∷ []) (3 ∷ []) ∷ install_writes 1 ∷ []

run-Backed_example :
    let c = run hash_of json trusted raced (shared (manifest 1 (blessed ∷ []))) in
    let lived = live_manifests hash_of json trusted raced (shared (manifest 1 (blessed ∷ []))) in
    AllValues text_discrete (Backed (λ m. Memᴰ m lived)) c.state.installed
    × All (λ m. m.manifest_version ≤ c.state.manifest.manifest_version) lived
run-Backed_example = run-Backed hash_of json trusted (manifest 1 (blessed ∷ [])) raced

-- The extension stays enabled, although the live manifest has no entry.
race :
    let c = run hash_of json trusted raced (shared (manifest 1 (blessed ∷ []))) in
    (c.state.installed ≡ (bytes "e", fresh candidate) ∷ []) × (c.state.manifest ≡ manifest 2 [])
unfolding run step lookup shared dev_browse.Prelude.Map.insert dev_browse.Prelude.ℕ_discrete install
    dev_browse.Extensions.Allowlist.verify_install dev_browse.Extensions.Allowlist.entry_for
    dev_browse.Extensions.Allowlist.find_entry new dev_browse.Prelude.Text.same_text
    dev_browse.Extensions.Version.satisfies dev_browse.Extensions.Version.at_or_above
    in_memory_trusted dev_browse.Extensions.Allowlist.is_trusted install_commit
    try_swap_allowlist_manifest no_duplicates
    dev_browse.Extensions.Allowlist.parse_allowlist_manifest
    dev_browse.Extensions.Controller.reconcile dev_browse.Extensions.Controller.swap_commit
race = (refl, refl)

abbrev orderly : List Event
orderly =
    install_reads 1 candidate
    ∷ install_reads 2 candidate
    ∷ install_writes 2
    ∷ install_writes 1
    ∷ swaps (2 ∷ []) (8 ∷ []) (3 ∷ [])
    ∷ removes (bytes "x")
    ∷ []

run-StateOk_example :
    StateOk (run hash_of json trusted orderly (shared (manifest 1 (blessed ∷ [])))).state
unfolding shared step lookup dev_browse.Prelude.Map.insert dev_browse.Prelude.ℕ_discrete
    dev_browse.Prelude.Map.erase
run-StateOk_example =
    run-StateOk hash_of json trusted (manifest 1 (blessed ∷ [])) orderly (refl, tt)
