-- ===== src/Extensions/Controller/Gates.antt =====
-- What an install and a manifest swap have passed when they are reported as done.
use dev_browse.Prelude.{
  ℕ, ◌<◌, ◌≡◌, ◌≢◌, refl, sym, ap, subst, true, false, not, List, [], ◌∷◌, All, Option, none, some,
  Outcome, ok, err, panic, arith, leb, ◌==◌, Bool-cases, inl, inr,
}
use dev_browse.Prelude.Fallible.{guard_ok, bind_ok, ◌>>=◌}
use dev_browse.Prelude.Map.{lookup, lookup-insert_self}
use dev_browse.Prelude.Text.{text_discrete, same_text, any_same, same_text_self, same_text_eq}
use dev_browse.Extensions.Version.{satisfies}
use dev_browse.Extensions.Allowlist.{
  AllowlistEntry, AllowlistManifest, AllowlistParseError, SignatureVerifyError, SignatureVerifier,
  InstallCandidate, InstallVerifyError, entry_or_reject, signature_or_reject, entry_for,
  parse_allowlist_manifest, verify_install, no_duplicates, check_manifest,
}
use dev_browse.Extensions.Controller.{
  enabled, InstalledExtension, State, SwapOutcome, install_commit, install_result, installed_ok,
  WarningIntent, swapped, install, swap_commit, swap_parsed, try_swap_allowlist_manifest,
}

-- The extension that an install puts into the registry.
abbrev pub fresh : InstallCandidate → InstalledExtension
fresh candidate = record {
  extension_id = candidate.extension_id;
  version = candidate.version;
  state = enabled;
}

-- What a candidate has passed when `verify_install` accepts it.
pub record Verified (sha256 : List ℕ → List ℕ) (verifier : SignatureVerifier)
    (candidate : InstallCandidate) (m : AllowlistManifest) (entry : AllowlistEntry) : Type 0 where
  pub listed : entry_for m candidate.extension_id ≡ some entry
  pub fits : satisfies entry.version_constraint candidate.version ≡ true
  pub hashed : sha256 candidate.xpi_bytes ≡ entry.sha256_of_xpi
  pub signed : verifier entry.signing_pubkey candidate.xpi_bytes candidate.xpi_signature ≡ ok tt

entry_or_reject_ok :
    (o : Option AllowlistEntry) (entry : AllowlistEntry)
    → entry_or_reject o ≡ ok entry
    → o ≡ some entry
entry_or_reject_ok none entry e = cc
entry_or_reject_ok (some x) entry e = cc

signature_ok :
    (o : Outcome SignatureVerifyError (Unit {0})) (entry entry' : AllowlistEntry)
    → (signature_or_reject o >>= (λ _. ok entry)) ≡ ok entry'
    → (o ≡ ok tt) × (entry ≡ entry')
signature_ok (ok tt) entry entry' e = (refl, cc)
signature_ok (err x) entry entry' e = cc
signature_ok panic entry entry' e = cc

pub verify_install-Verified :
    (sha256 : List ℕ → List ℕ) (verifier : SignatureVerifier) (candidate : InstallCandidate)
    (m : AllowlistManifest) (entry : AllowlistEntry)
    → verify_install sha256 verifier candidate m ≡ ok entry
    → Verified sha256 verifier candidate m entry
unfolding verify_install
verify_install-Verified sha256 verifier candidate m entry e =
    let (found, e1, e2) =
      bind_ok (entry_or_reject (entry_for m candidate.extension_id)) _ entry e in
    let (g1, e3) =
      guard_ok (not (satisfies found.version_constraint candidate.version)) _ _ entry e2 in
    let (g2, e4) =
      guard_ok (not (same_text (sha256 candidate.xpi_bytes) found.sha256_of_xpi)) _ _ entry e3 in
    let (g3, same) = signature_ok _ found entry e4 in
    let listed = entry_or_reject_ok _ found e1 in
    subst (Verified sha256 verifier candidate m) same (record {
      listed = listed;
      fits = ground arith;
      hashed = same_text_eq _ _ (ground arith);
      signed = g3;
    })

-- No two entries have one identifier.
abbrev pub UniqueIds : List AllowlistEntry → Type 0
UniqueIds [] = Unit
UniqueIds (e ∷ es) = All (λ f. e.extension_id ≢ f.extension_id) es × UniqueIds es

different :
    (a b : List ℕ) (seen : List (List ℕ))
    → any_same b (a ∷ seen) ≡ false
    → (a ≢ b) × (any_same b seen ≡ false)
unfolding any_same
different a b seen h = elim (Bool-cases (same_text a b)) [
  | inl e ↦ absurd (cc (rw e at h))
  | inr e ↦ ((λ p. cc (subst (λ t. same_text a t ≡ true) p (same_text_self a), e)), rw e at h)
]

-- An identifier behind `seen` is not among it.
abbrev Unseen : List (List ℕ) → AllowlistEntry → Type 0
Unseen seen e = any_same e.extension_id seen ≡ false

All-different :
    (a : List ℕ) (seen : List (List ℕ)) (es : List AllowlistEntry)
    → All (Unseen (a ∷ seen)) es
    → All (λ f. a ≢ f.extension_id) es × All (Unseen seen) es
All-different a seen [] h = (tt, tt)
All-different a seen (e ∷ es) h =
    let (n, u) = different a e.extension_id seen h.0 in
    let (ns, us) = All-different a seen es h.1 in ((n, ns), (u, us))

no_duplicates-UniqueIds :
    (seen : List (List ℕ)) (es : List AllowlistEntry)
    → no_duplicates seen es ≡ true
    → All (Unseen seen) es × UniqueIds es
unfolding no_duplicates
no_duplicates-UniqueIds seen [] h = (tt, tt)
no_duplicates-UniqueIds seen (e ∷ es) h = elim (Bool-cases (any_same e.extension_id seen)) [
  | inl y ↦ absurd (cc (rw y at h))
  | inr n ↦
      let (unseen, unique) = no_duplicates-UniqueIds (e.extension_id ∷ seen) es (rw n at h) in
      let (others, rest) = All-different e.extension_id seen es unseen in
      ((n, rest), (others, unique))
]

check_manifest_ok :
    (o : Option AllowlistManifest) (m : AllowlistManifest)
    → check_manifest o ≡ ok m
    → (o ≡ some m) × (no_duplicates [] m.entries ≡ true)
check_manifest_ok none m e = cc
check_manifest_ok (some n) m e =
    let (g, e') = guard_ok (not (n.format_version == 1)) _ _ m e in ground arith

swap_commit_swapped :
    (m : AllowlistManifest) (s s' : State) (intents : List WarningIntent)
    → swap_commit m s ≡ (s', swapped intents)
    → (s'.manifest ≡ m) × (s.manifest.manifest_version < m.manifest_version)
unfolding swap_commit
swap_commit_swapped m s s' intents e =
    elim (Bool-cases (leb m.manifest_version s.manifest.manifest_version)) [
      | inl b ↦ absurd (cc (rw b at e))
      | inr b ↦
          let e' = rw b at e in
          (sym (ap (λ (p : State × SwapOutcome). p.0.manifest) e'), ground arith)
    ]

pair_back :
    (r : State × SwapOutcome) (s' : State) (intents : List WarningIntent)
    → ◌≡◌ {A = State × Option SwapOutcome} (r.0, some r.1) (s', some (swapped intents))
    → r ≡ (s', swapped intents)
pair_back (s, o) s' intents e = cc e

module _ (sha256 : List ℕ → List ℕ) (from_json : List ℕ → Option AllowlistManifest)
    (verifier : SignatureVerifier) where
  -- An install that is reported as done has passed every gate: the manifest that it read, which another
  -- thread may have replaced since, lists the extension, for its version, with the hash of its bytes, and
  -- the verifier accepts the signature of these bytes under the key of the entry. The extension is
  -- then the enabled one under its identifier.
  pub install-Verified :
      (candidate : InstallCandidate) (active : AllowlistManifest) (s s' : State)
      → install sha256 from_json verifier candidate active s ≡ (s', some installed_ok)
      → ((entry : AllowlistEntry) × Verified sha256 verifier candidate active entry)
        × (lookup text_discrete candidate.extension_id s'.installed ≡ some (fresh candidate))
  unfolding install install_commit
  install-Verified candidate active s s' e =
      gate (verify_install sha256 verifier candidate active) refl e
    where
      gate :
          (o : Outcome InstallVerifyError AllowlistEntry)
          → verify_install sha256 verifier candidate active ≡ o
          → install_result candidate o s ≡ (s', some installed_ok)
          → ((entry : AllowlistEntry) × Verified sha256 verifier candidate active entry)
            × (lookup text_discrete candidate.extension_id s'.installed ≡ some (fresh candidate))
      gate (ok entry) v e = (
        (entry, verify_install-Verified sha256 verifier candidate active entry v),
        subst
            (λ (t : State).
              lookup text_discrete candidate.extension_id t.installed ≡ some (fresh candidate))
            (ap (λ p. p.0) e)
            (lookup-insert_self text_discrete candidate.extension_id (fresh candidate) s.installed),
      )
      gate (err x) v e = cc
      gate panic v e = cc

  -- A manifest that goes live is the one that the bytes encode, the root key signed exactly these bytes,
  -- its version is above that of the manifest before it, and no identifier stands in it twice.
  pub try_swap-Signed :
      (manifest_bytes sig root : List ℕ) (s s' : State) (intents : List WarningIntent)
      → try_swap_allowlist_manifest sha256 from_json verifier manifest_bytes sig root s
        ≡ (s', some (swapped intents))
      → (from_json manifest_bytes ≡ some s'.manifest)
        × (verifier root manifest_bytes sig ≡ ok tt)
        × (s.manifest.manifest_version < s'.manifest.manifest_version)
        × UniqueIds s'.manifest.entries
  unfolding try_swap_allowlist_manifest parse_allowlist_manifest
  try_swap-Signed manifest_bytes sig root s s' intents e =
      parsed (check_manifest (from_json manifest_bytes)) (verifier root manifest_bytes sig) refl
        refl e
    where
      parsed :
          (p : Outcome AllowlistParseError AllowlistManifest)
          (v : Outcome SignatureVerifyError (Unit {0}))
          → check_manifest (from_json manifest_bytes) ≡ p
          → verifier root manifest_bytes sig ≡ v
          → swap_parsed sha256 from_json verifier p v s ≡ (s', some (swapped intents))
          → (from_json manifest_bytes ≡ some s'.manifest)
            × (verifier root manifest_bytes sig ≡ ok tt)
            × (s.manifest.manifest_version < s'.manifest.manifest_version)
            × UniqueIds s'.manifest.entries
      parsed (ok m) (ok tt) ep ev e =
          let (json, once) = check_manifest_ok (from_json manifest_bytes) m ep in
          let (live, up) =
            swap_commit_swapped m s s' intents (pair_back (swap_commit m s) s' intents e) in
          rw live (json, ev, up, (no_duplicates-UniqueIds [] m.entries once).1)
      parsed (ok m) (err x) ep ev e = cc
      parsed (ok m) panic ep ev e = cc
      parsed (err x) v ep ev e = cc
      parsed panic v ep ev e = cc
