-- ===== src/Extensions/Controller/Enabled.antt =====
-- What the controller promises of the extensions that are enabled, on each step of a thread.
use dev_browse.Prelude.{
  ℕ, ℕ_discrete, ◌≡◌, refl, Bool, true, false, List, [], ◌∷◌, Option, none, some, Outcome, ok, err,
  panic, if◌then◌else◌, leb, Bool-cases, inl, inr,
}
use dev_browse.Prelude.Map.{lookup, AllValues, insert-AllValues, erase-AllValues, lookup-AllValues}
use dev_browse.Prelude.Text.{text_discrete}
use dev_browse.Extensions.Version.{satisfies}
use dev_browse.Extensions.Allowlist.{
  AllowlistEntry, AllowlistManifest, AllowlistParseError, SignatureVerifyError, SignatureVerifier,
  InstallCandidate, InstallVerifyError, entry_for, verify_install,
}
use dev_browse.Extensions.Controller.{
  enabled, disabled, InstalledExtension, State, install_commit, install_result, install,
  reconcile_with, reconcile_one, reconcile, swap_commit, swap_parsed, try_swap_allowlist_manifest,
  remove,
}
use dev_browse.Extensions.Controller.Threads.{
  Shared, Event, install_reads, install_writes, swaps, removes, read_manifest, write_extension,
  step,
}
use dev_browse.Extensions.Controller.Gates.{verify_install-Verified}

-- The live manifest lists the extension, for its version.
pub record Allowed (m : AllowlistManifest) (x : InstalledExtension) : Type 0 where
  pub entry : AllowlistEntry
  pub listed : entry_for m x.extension_id ≡ some entry
  pub fits : satisfies entry.version_constraint x.version ≡ true

-- An extension that is enabled is listed, for its version, by a manifest with the property.
abbrev pub Backed : (AllowlistManifest → Type 0) → InstalledExtension → Type 0
Backed P x = x.state ≡ enabled → (m : AllowlistManifest) × P m × Allowed m x

-- Every extension that is enabled is listed, for its version, by the live manifest.
abbrev pub StateOk : State → Type 0
StateOk s = AllValues text_discrete (Backed (λ m. m ≡ s.manifest)) s.installed

reconcile_with-Allowed :
    (m : AllowlistManifest) (x : InstalledExtension) (o : Option AllowlistEntry)
    → entry_for m x.extension_id ≡ o
    → (reconcile_with o x).state ≡ enabled
    → Allowed m (reconcile_with o x)
reconcile_with-Allowed m x none at = λ e. cc
reconcile_with-Allowed m x (some entry) at =
    fitted (satisfies entry.version_constraint x.version) refl
  where
    fitted :
        (b : Bool)
        → satisfies entry.version_constraint x.version ≡ b
        → (if b then x else record x { state = disabled }).state ≡ enabled
        → Allowed m (if b then x else record x { state = disabled })
    fitted true fits e = record { entry = entry; listed = at; fits = fits }
    fitted false fits e = cc

reconcile_one-Allowed :
    (m : AllowlistManifest) (x : InstalledExtension)
    → (reconcile_one m x).state ≡ enabled
    → Allowed m (reconcile_one m x)
unfolding reconcile_one
reconcile_one-Allowed m x = reconcile_with-Allowed m x (entry_for m x.extension_id) refl

pub reconcile-Backed :
    (P : AllowlistManifest → Type 0) (m : AllowlistManifest)
    (xs : List (List ℕ × InstalledExtension))
    → P m
    → AllValues text_discrete (Backed P) (reconcile m xs)
unfolding reconcile
reconcile-Backed P m [] p = tt
reconcile-Backed P m ((id, x) ∷ xs) p =
    ((λ e. (m, p, reconcile_one-Allowed m x e)), reconcile-Backed P m xs p)

-- What stands in the registry is backed by manifests with the property, and so are the installs in
-- progress.
pub record Held (P : AllowlistManifest → Type 0) (c : Shared) : Type 0 where
  pub backed : AllValues text_discrete (Backed P) c.state.installed
  pub reading : AllValues ℕ_discrete (λ r. P r.1) c.installing

module _ (sha256 : List ℕ → List ℕ) (from_json : List ℕ → Option AllowlistManifest)
    (verifier : SignatureVerifier) where
  install_result-Backed :
      (P : AllowlistManifest → Type 0) (candidate : InstallCandidate) (active : AllowlistManifest)
      (s : State) (o : Outcome InstallVerifyError AllowlistEntry)
      → P active
      → AllValues text_discrete (Backed P) s.installed
      → verify_install sha256 verifier candidate active ≡ o
      → AllValues text_discrete (Backed P) (install_result candidate o s).0.installed
        × ((install_result candidate o s).0.manifest ≡ s.manifest)
  unfolding install_commit
  install_result-Backed P candidate active s (ok entry) p h e =
      let v = verify_install-Verified sha256 verifier candidate active entry e in
      (
        insert-AllValues text_discrete (Backed P) candidate.extension_id _ s.installed
            (λ _. (active, p, record { entry = entry; listed = v.listed; fits = v.fits })) h,
        refl,
      )
  install_result-Backed P candidate active s (err x) p h e = (h, refl)
  install_result-Backed P candidate active s panic p h e = (h, refl)

  write_extension-Held :
      (P : AllowlistManifest → Type 0) (t : ℕ) (c : Shared)
      (o : Option (InstallCandidate × AllowlistManifest))
      → lookup ℕ_discrete t c.installing ≡ o
      → Held P c
      → Held P (write_extension sha256 from_json verifier t o c)
        × ((write_extension sha256 from_json verifier t o c).state.manifest ≡ c.state.manifest)
  unfolding install
  write_extension-Held P t c none e h = (h, refl)
  write_extension-Held P t c (some (candidate, active)) e h =
      let p =
        lookup-AllValues ℕ_discrete (λ r. P r.1) t (candidate, active) c.installing h.reading e in
      let (backed, same) = install_result-Backed P candidate active c.state _ p h.backed refl in
      (
        record {
          backed = backed;
          reading = erase-AllValues ℕ_discrete (λ r. P r.1) t c.installing h.reading;
        },
        same,
      )

  read_manifest-Held :
      (P : AllowlistManifest → Type 0) (t : ℕ) (candidate : InstallCandidate) (c : Shared)
      (o : Option (InstallCandidate × AllowlistManifest))
      → P c.state.manifest
      → Held P c
      → Held P (read_manifest t candidate o c)
        × ((read_manifest t candidate o c).state.manifest ≡ c.state.manifest)
  read_manifest-Held P t candidate c none p h = (
    record {
      backed = h.backed;
      reading = insert-AllValues ℕ_discrete (λ r. P r.1) t _ c.installing p h.reading;
    },
    refl,
  )
  read_manifest-Held P t candidate c (some _) p h = (h, refl)

  -- A swap leaves the manifest and the registry, or sets both.
  swap_commit-Backed :
      (P : AllowlistManifest → Type 0) (m : AllowlistManifest) (s : State)
      → AllValues text_discrete (Backed P) s.installed
      → P (swap_commit m s).0.manifest
      → AllValues text_discrete (Backed P) (swap_commit m s).0.installed
  unfolding swap_commit
  swap_commit-Backed P m s h p =
      elim (Bool-cases (leb m.manifest_version s.manifest.manifest_version)) [
        | inl e ↦ rw e h
        | inr e ↦ rw e (reconcile-Backed P m s.installed (rw e at p))
      ]

  swap_parsed-Backed :
      (P : AllowlistManifest → Type 0) (p : Outcome AllowlistParseError AllowlistManifest)
      (v : Outcome SignatureVerifyError (Unit {0})) (s : State)
      → AllValues text_discrete (Backed P) s.installed
      → P (swap_parsed sha256 from_json verifier p v s).0.manifest
      → AllValues text_discrete (Backed P) (swap_parsed sha256 from_json verifier p v s).0.installed
  swap_parsed-Backed P (ok m) (ok _) s h q = swap_commit-Backed P m s h q
  swap_parsed-Backed P (ok m) (err e) s h q = h
  swap_parsed-Backed P (ok m) panic s h q = h
  swap_parsed-Backed P (err e) v s h q = h
  swap_parsed-Backed P panic v s h q = h

  pub step-Held :
      (P : AllowlistManifest → Type 0) (event : Event) (c : Shared)
      → P c.state.manifest
      → P (step sha256 from_json verifier event c).state.manifest
      → Held P c
      → Held P (step sha256 from_json verifier event c)
  unfolding step try_swap_allowlist_manifest remove
  step-Held P (install_reads t candidate) c p q h = (read_manifest-Held P t candidate c _ p h).0
  step-Held P (install_writes t) c p q h = (write_extension-Held P t c _ refl h).0
  step-Held P (swaps manifest_bytes sig root) c p q h = record {
    backed = swap_parsed-Backed P _ _ c.state h.backed q;
    reading = h.reading;
  }
  step-Held P (removes id) c p q h = record {
    backed = erase-AllValues text_discrete (Backed P) id c.state.installed h.backed;
    reading = h.reading;
  }

  install_result-version :
      (candidate : InstallCandidate) (o : Outcome InstallVerifyError AllowlistEntry) (s : State)
      → (install_result candidate o s).0.manifest ≡ s.manifest
  unfolding install_commit
  install_result-version candidate (ok entry) s = refl
  install_result-version candidate (err e) s = refl
  install_result-version candidate panic s = refl

  pub write_extension-manifest :
      (t : ℕ) (o : Option (InstallCandidate × AllowlistManifest)) (c : Shared)
      → (write_extension sha256 from_json verifier t o c).state.manifest ≡ c.state.manifest
  unfolding install
  write_extension-manifest t none c = refl
  write_extension-manifest t (some (candidate, active)) c =
      install_result-version candidate _ c.state

  pub read_manifest-manifest :
      (t : ℕ) (candidate : InstallCandidate) (o : Option (InstallCandidate × AllowlistManifest))
      (c : Shared)
      → (read_manifest t candidate o c).state.manifest ≡ c.state.manifest
  read_manifest-manifest t candidate none c = refl
  read_manifest-manifest t candidate (some _) c = refl
