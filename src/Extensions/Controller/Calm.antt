-- ===== src/Extensions/Controller/Calm.antt =====
-- Histories in which no manifest update comes between the steps of an install.
use dev_browse.Prelude.{
  ℕ, ℕ_discrete, ◌≡◌, refl, sym, subst, List, [], ◌∷◌, Option, Outcome, ok, err, panic, leb,
  Bool-cases, inl, inr,
}
use dev_browse.Prelude.Map.{AllValues}
use dev_browse.Extensions.Allowlist.{
  AllowlistManifest, AllowlistParseError, SignatureVerifyError, SignatureVerifier,
}
use dev_browse.Extensions.Controller.{
  State, new, swap_commit, swap_parsed, try_swap_allowlist_manifest, remove,
}
use dev_browse.Extensions.Controller.Threads.{
  Shared, Event, install_reads, install_writes, swaps, removes, shared, step, run,
}
use dev_browse.Extensions.Controller.Enabled.{
  StateOk, Held, reconcile-Backed, step-Held, write_extension-manifest, read_manifest-manifest,
}

module _ (sha256 : List ℕ → List ℕ) (from_json : List ℕ → Option AllowlistManifest)
    (verifier : SignatureVerifier) where
  -- No manifest update falls between the two steps of an install.
  abbrev pub Calm : List Event → Shared → Type 0
  Calm [] c = Unit
  Calm (swaps manifest_bytes sig root ∷ events) c =
      (c.installing ≡ [])
      × Calm events (step sha256 from_json verifier (swaps manifest_bytes sig root) c)
  Calm (event ∷ events) c = Calm events (step sha256 from_json verifier event c)

  swap_commit-StateOk :
      (m : AllowlistManifest) (s : State) → StateOk s → StateOk (swap_commit m s).0
  unfolding swap_commit
  swap_commit-StateOk m s h =
      elim (Bool-cases (leb m.manifest_version s.manifest.manifest_version)) [
        | inl e ↦ rw e h
        | inr e ↦ rw e (reconcile-Backed (λ n. n ≡ m) m s.installed refl)
      ]

  swap_parsed-StateOk :
      (p : Outcome AllowlistParseError AllowlistManifest)
      (v : Outcome SignatureVerifyError (Unit {0})) (s : State)
      → StateOk s
      → StateOk (swap_parsed sha256 from_json verifier p v s).0
  swap_parsed-StateOk (ok m) (ok _) s h = swap_commit-StateOk m s h
  swap_parsed-StateOk (ok m) (err e) s h = h
  swap_parsed-StateOk (ok m) panic s h = h
  swap_parsed-StateOk (err e) v s h = h
  swap_parsed-StateOk panic v s h = h

  -- What holds while no update comes between the steps of an install.
  abbrev Current : Shared → Type 0
  Current c = Held (λ m. m ≡ c.state.manifest) c

  -- A step that leaves the manifest.
  still :
      (event : Event) (c : Shared)
      → (step sha256 from_json verifier event c).state.manifest ≡ c.state.manifest
      → Current c
      → Current (step sha256 from_json verifier event c)
  still event c e h =
      subst (λ n. Held (λ m. m ≡ n) (step sha256 from_json verifier event c)) (sym e)
        (step-Held sha256 from_json verifier (λ m. m ≡ c.state.manifest) event c refl e h)

  step-Calm :
      (event : Event) (events : List Event) (c : Shared)
      → Calm (event ∷ events) c
      → Current c
      → Calm events (step sha256 from_json verifier event c)
        × Current (step sha256 from_json verifier event c)
  unfolding step try_swap_allowlist_manifest remove
  step-Calm (install_reads t candidate) events c k h = (
    k,
    still (install_reads t candidate) c
        (read_manifest-manifest sha256 from_json verifier t candidate _ c) h,
  )
  step-Calm (install_writes t) events c k h =
      (k, still (install_writes t) c (write_extension-manifest sha256 from_json verifier t _ c) h)
  step-Calm (swaps manifest_bytes sig root) events c k h = (
    k.1,
    record {
      backed = swap_parsed-StateOk _ _ c.state h.backed;
      reading = subst (AllValues ℕ_discrete (λ r. r.1 ≡ _)) (sym k.0) tt;
    },
  )
  step-Calm (removes id) events c k h = (k, still (removes id) c refl h)

  run-Calm :
      (events : List Event) (c : Shared)
      → Calm events c
      → Current c
      → Current (run sha256 from_json verifier events c)
  unfolding run
  run-Calm [] c k h = h
  run-Calm (event ∷ events) c k h =
      let (k', h') = step-Calm event events c k h in
      run-Calm events (step sha256 from_json verifier event c) k' h'

  -- After any installs, manifest updates and removals on a new controller, of any threads and with the
  -- two steps of installs interleaved in any way, as long as no manifest update comes between the two
  -- steps of an install: every extension that is enabled is listed by the live manifest, for the version
  -- that is installed.
  pub run-StateOk :
      (seed : AllowlistManifest) (events : List Event)
      → Calm events (shared seed)
      → StateOk (run sha256 from_json verifier events (shared seed)).state
  unfolding shared new
  run-StateOk seed events k =
      (run-Calm events (shared seed) k (record { backed = tt; reading = tt })).backed
