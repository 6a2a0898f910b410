-- ===== src/Config/Loader/Checked.antt =====
-- What a configuration that passes crates/pb-config/src/loader.rs promises the other crates.
use dev_browse.Prelude.{
  ℕ, ◌≤◌, ◌≡◌, refl, ◌≢◌, true, false, not, ◌&&◌, leb, List, [], ◌∷◌, ◌++◌, arith, ok, Bool, ◌==◌,
}
use dev_browse.Config.{Config, strict, system, custom, current_schema_version}
use dev_browse.Config.Loader.{
  ConfigError, schema_version, system_dns_in_strict, insecure_provider, insecure_engine,
  engine_without_query, sync_without_backend, insecure_webdav, purge_days_out_of_range,
  memory_cap_out_of_range, starts_with, https, provider_insecure, backend_insecure, engine_insecure,
  engine_lacks_query, is_strict, is_system, is_none, guard, validate,
}

starts_with-split : (p s : List ℕ) → starts_with p s ≡ true → (rest : List ℕ) × (s ≡ p ++ rest)
unfolding starts_with
starts_with-split [] s h = (s, refl)
starts_with-split (x ∷ xs) [] h = absurd cc
starts_with-split (x ∷ xs) (y ∷ ys) h =
    let (rest, e) = starts_with-split xs ys (ground arith) in (rest, ground arith)

starts_with-append : (p rest : List ℕ) → starts_with p (p ++ rest) ≡ true
unfolding starts_with
starts_with-append [] rest = refl
starts_with-append (x ∷ xs) rest = ground (arith, starts_with-append xs rest)

guards-passed :
    (b1 b2 b3 b4 b5 b6 b7 b8 b9 : Bool) (e1 e2 e3 e4 e5 e6 e7 e8 e9 : ConfigError)
    → guard b1 e1 (
        guard b2 e2 (
          guard b3 e3 (
            guard b4 e4
              (guard b5 e5 (guard b6 e6 (guard b7 e7 (guard b8 e8 (guard b9 e9 (ok tt)))))))))
      ≡ ok tt
    → (b2 ≡ false) × (b3 ≡ false) × (b9 ≡ false)
guards-passed b1 b2 b3 b4 b5 b6 b7 b8 b9 e1 e2 e3 e4 e5 e6 e7 e8 e9 h = ground arith

-- What the guards of `validate` leave.
record Passed (cfg : Config) : Type 0 where
  mode_ok : (is_strict cfg.privacy.default_mode && is_system cfg.network.provider) ≡ false
  provider_ok : provider_insecure cfg.network.provider ≡ false
  cap_ok : not (leb 64 cfg.gpu.memory_cap_mib && leb cfg.gpu.memory_cap_mib 4096) ≡ false

validate-Passed : (cfg : Config) → validate cfg ≡ ok tt → Passed cfg
unfolding validate
validate-Passed cfg h =
    let (mode, provider, cap) =
      guards-passed (not (cfg.version == current_schema_version))
        (is_strict cfg.privacy.default_mode && is_system cfg.network.provider)
        (provider_insecure cfg.network.provider) (engine_insecure cfg.search.default_engine)
        (engine_lacks_query cfg.search.default_engine)
        (cfg.sync.enabled && is_none cfg.sync.backend) (backend_insecure cfg.sync.backend)
        (not (leb 7 cfg.bounce_tracker.purge_days && leb cfg.bounce_tracker.purge_days 365))
        (not (leb 64 cfg.gpu.memory_cap_mib && leb cfg.gpu.memory_cap_mib 4096))
        (schema_version cfg.version current_schema_version) system_dns_in_strict insecure_provider
        insecure_engine engine_without_query sync_without_backend insecure_webdav
        purge_days_out_of_range memory_cap_out_of_range h in
    record { mode_ok = mode; provider_ok = provider; cap_ok = cap }

-- A validated configuration whose default mode is Strict does not resolve by system DNS.
pub validate-strict :
    (cfg : Config)
    → validate cfg ≡ ok tt
    → cfg.privacy.default_mode ≡ strict
    → cfg.network.provider ≢ system
validate-strict cfg h s k = absurd (ground (arith, (validate-Passed cfg h).mode_ok))

-- A custom DoH URL of a validated configuration begins with `https://`.
pub validate-https :
    (cfg : Config) (url : List ℕ)
    → validate cfg ≡ ok tt
    → cfg.network.provider ≡ custom url
    → (rest : List ℕ) × (url ≡ https ++ rest)
unfolding provider_insecure
validate-https cfg url h k =
    starts_with-split https url (ground (arith, (validate-Passed cfg h).provider_ok))

-- The memory cap of a validated configuration is in the range that the GPU budget clamps to.
pub validate-cap :
    (cfg : Config)
    → validate cfg ≡ ok tt
    → (64 ≤ cfg.gpu.memory_cap_mib) × (cfg.gpu.memory_cap_mib ≤ 4096)
validate-cap cfg h = ground (arith, (validate-Passed cfg h).cap_ok)
