-- ===== src/Extensions/Controller/Lived.antt =====
-- Histories of steps of several threads, in any interleaving: which manifests back what is enabled.
use dev_browse.Prelude.{
  ℕ, ◌≤◌, refl, ap, List, [], ◌∷◌, Option, Outcome, ok, err, panic, arith, All,
}
use mathlib.Core.List.{Memᴰ}
use dev_browse.Prelude.Map.{AllValues}
use dev_browse.Prelude.Text.{text_discrete}
use dev_browse.Extensions.Allowlist.{
  AllowlistManifest, AllowlistParseError, SignatureVerifyError, SignatureVerifier,
}
use dev_browse.Extensions.Controller.{
  State, new, swap_commit, swap_parsed, try_swap_allowlist_manifest, remove,
}
use dev_browse.Extensions.Controller.Threads.{
  Shared, Event, install_reads, install_writes, swaps, removes, shared, step, run,
}
use dev_browse.Extensions.Controller.Enabled.{
  Backed, Held, step-Held, write_extension-manifest, read_manifest-manifest,
}

All-Mem_from :
    (P : AllowlistManifest → Type 0) (ms : List AllowlistManifest)
    → ((m : AllowlistManifest) → Memᴰ m ms → P m)
    → All P ms
All-Mem_from P [] k = tt
All-Mem_from P (m ∷ ms) k = (k m (Memᴰ.head refl), All-Mem_from P ms (λ n i. k n (Memᴰ.tail i)))

All-Mem : (ms : List AllowlistManifest) → All (λ m. Memᴰ m ms) ms
All-Mem ms = All-Mem_from (λ m. Memᴰ m ms) ms (λ m i. i)

module _ (sha256 : List ℕ → List ℕ) (from_json : List ℕ → Option AllowlistManifest)
    (verifier : SignatureVerifier) where
  -- The manifests that are live in the course of a run, from first to last.
  unfoldable pub live_manifests : List Event → Shared → List AllowlistManifest
  live_manifests [] c = c.state.manifest ∷ []
  live_manifests (event ∷ events) c =
      c.state.manifest ∷ live_manifests events (step sha256 from_json verifier event c)

  first_live :
      (P : AllowlistManifest → Type 0) (events : List Event) (c : Shared)
      → All P (live_manifests events c)
      → P c.state.manifest
  unfolding live_manifests
  first_live P [] c h = h.0
  first_live P (event ∷ events) c h = h.0

  run-Held :
      (P : AllowlistManifest → Type 0) (events : List Event) (c : Shared)
      → All P (live_manifests events c)
      → Held P c
      → Held P (run sha256 from_json verifier events c)
  unfolding live_manifests run
  run-Held P [] c l h = h
  run-Held P (event ∷ events) c l h =
      let next = step sha256 from_json verifier event c in
      run-Held P events next l.1
        (step-Held sha256 from_json verifier P event c l.0 (first_live P events next l.1) h)

  swap_commit-version :
      (m : AllowlistManifest) (s : State)
      → s.manifest.manifest_version ≤ (swap_commit m s).0.manifest.manifest_version
  unfolding swap_commit
  swap_commit-version m s = ground arith

  swap_parsed-version :
      (p : Outcome AllowlistParseError AllowlistManifest)
      (v : Outcome SignatureVerifyError (Unit {0})) (s : State)
      → s.manifest.manifest_version
        ≤ (swap_parsed sha256 from_json verifier p v s).0.manifest.manifest_version
  swap_parsed-version (ok m) (ok _) s = swap_commit-version m s
  swap_parsed-version (ok m) (err e) s = omega arith
  swap_parsed-version (ok m) panic s = omega arith
  swap_parsed-version (err e) v s = omega arith
  swap_parsed-version panic v s = omega arith

  step-version :
      (event : Event) (c : Shared)
      → c.state.manifest.manifest_version
        ≤ (step sha256 from_json verifier event c).state.manifest.manifest_version
  unfolding step try_swap_allowlist_manifest remove
  step-version (install_reads t candidate) c = omega (
    arith,
    ap (λ m. m.manifest_version) (read_manifest-manifest sha256 from_json verifier t candidate _ c),
  )
  step-version (install_writes t) c = omega (
    arith,
    ap (λ m. m.manifest_version) (write_extension-manifest sha256 from_json verifier t _ c),
  )
  step-version (swaps manifest_bytes sig root) c = swap_parsed-version _ _ c.state
  step-version (removes id) c = omega arith

  run-version :
      (events : List Event) (c : Shared)
      → c.state.manifest.manifest_version
        ≤ (run sha256 from_json verifier events c).state.manifest.manifest_version
  unfolding run
  run-version [] c = omega arith
  run-version (event ∷ events) c =
      omega
        (arith, step-version event c, run-version events (step sha256 from_json verifier event c))

  live_manifests-version :
      (events : List Event) (c : Shared)
      → All
          (λ m.
            m.manifest_version
            ≤ (run sha256 from_json verifier events c).state.manifest.manifest_version)
          (live_manifests events c)
  unfolding live_manifests run
  live_manifests-version [] c = (omega arith, tt)
  live_manifests-version (event ∷ events) c =
      let next = step sha256 from_json verifier event c in
      (
        omega (arith, step-version event c, run-version events next),
        live_manifests-version events next,
      )

  -- However the steps of installs, manifest updates and removals of any threads are interleaved on a new
  -- controller, every extension that is enabled is listed, for the version that is installed, by a
  -- manifest that was live in the course of the run, and no manifest that was live is newer than the one
  -- at the end.
  pub run-Backed :
      (seed : AllowlistManifest) (events : List Event)
      → let c = run sha256 from_json verifier events (shared seed) in
        let lived = live_manifests events (shared seed) in
        AllValues text_discrete (Backed (λ m. Memᴰ m lived)) c.state.installed
        × All (λ m. m.manifest_version ≤ c.state.manifest.manifest_version) lived
  unfolding shared new
  run-Backed seed events =
      let lived = live_manifests events (shared seed) in
      (
        (run-Held (λ m. Memᴰ m lived) events (shared seed) (All-Mem lived)
            (record { backed = tt; reading = tt })).backed,
        live_manifests-version events (shared seed),
      )
