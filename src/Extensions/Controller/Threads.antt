-- ===== src/Extensions/Controller/Threads.antt =====
-- crates/pb-extensions/src/controller.rs: calls of several threads on one controller, as the sequence of
-- the steps that they do under its locks.
use dev_browse.Prelude.{ℕ, ℕ_discrete, List, [], ◌∷◌, Option, none, some}
use dev_browse.Prelude.Map.{lookup, insert, erase}
use dev_browse.Extensions.Allowlist.{AllowlistManifest, SignatureVerifier, InstallCandidate}
use dev_browse.Extensions.Controller.{State, new, install, try_swap_allowlist_manifest, remove}

-- `installing` has, by thread, the installs that are between their two locks, each with its candidate
-- and the manifest that it read.
pub record Shared : Type 0 where
  pub state : State
  pub installing : List (ℕ × (InstallCandidate × AllowlistManifest))

unfoldable pub shared : AllowlistManifest → Shared
shared seed = record { state = new seed; installing = [] }

-- The thread and candidate of an install's first step, the thread of its second, the manifest bytes,
-- signature and root key of a swap, and the identifier of a removal.
pub data Event : Type 0 where
  install_reads : ℕ → InstallCandidate → Event
  install_writes : ℕ → Event
  swaps : List ℕ → List ℕ → List ℕ → Event
  removes : List ℕ → Event

-- `let manifest = self.active_manifest();` of a thread that is in no other install.
abbrev pub read_manifest :
    ℕ → InstallCandidate → Option (InstallCandidate × AllowlistManifest) → Shared → Shared
read_manifest t candidate none c = record c {
  installing = insert ℕ_discrete t (candidate, c.state.manifest) c.installing;
}
read_manifest t candidate (some _) c = c

module _ (sha256 : List ℕ → List ℕ) (from_json : List ℕ → Option AllowlistManifest)
    (verifier : SignatureVerifier) where
  -- The rest of `install`.
  abbrev pub write_extension : ℕ → Option (InstallCandidate × AllowlistManifest) → Shared → Shared
  write_extension t none c = c
  write_extension t (some (candidate, active)) c = record {
    state = (install sha256 from_json verifier candidate active c.state).0;
    installing = erase ℕ_discrete t c.installing;
  }

  unfoldable pub step : Event → Shared → Shared
  step (install_reads t candidate) c =
      read_manifest t candidate (lookup ℕ_discrete t c.installing) c
  step (install_writes t) c = write_extension t (lookup ℕ_discrete t c.installing) c
  step (swaps manifest_bytes sig root) c = record c {
    state =
        (try_swap_allowlist_manifest sha256 from_json verifier manifest_bytes sig root c.state).0;
  }
  step (removes id) c = record c { state = (remove id c.state).0 }

  unfoldable pub run : List Event → Shared → Shared
  run [] c = c
  run (event ∷ events) c = run events (step event c)
