-- ===== src/Config/Loader.antt =====
-- crates/pb-config/src/loader.rs: the invariants that every load and save checks. A message of
-- `ConfigError::Validation` is a constructor. Reading and writing the file is outside.
pub mod Checked
use dev_browse.Prelude.{
  ℕ, Bool, true, false, not, ◌&&◌, ◌||◌, List, [], ◌∷◌, Outcome, ok, err, Option, none, some, leb,
  ◌==◌, if◌then◌else◌,
}
use dev_browse.Config.{
  Config, Mode, standard, strict, DohProvider, system, custom, SearchEngine, custom_engine,
  SyncBackend, web_dav, current_schema_version,
}

pub data ConfigError : Type 0 where
  schema_version : ℕ → ℕ → ConfigError
  system_dns_in_strict insecure_provider insecure_engine engine_without_query : ConfigError
  sync_without_backend insecure_webdav purge_days_out_of_range memory_cap_out_of_range : ConfigError

-- `str::starts_with`, the prefix first.
unfoldable pub starts_with : List ℕ → List ℕ → Bool
starts_with [] s = true
starts_with (x ∷ xs) [] = false
starts_with (x ∷ xs) (y ∷ ys) = if x == y then starts_with xs ys else false

-- `str::contains`, the pattern first.
unfoldable pub contains_str : List ℕ → List ℕ → Bool
unfolding starts_with
contains_str p [] = starts_with p []
contains_str p (c ∷ s) = starts_with p (c ∷ s) || contains_str p s

-- `https://`, `http://localhost`, `http://127.0.0.1` and `{query}`.
abbrev pub https : List ℕ
https = 104 ∷ 116 ∷ 116 ∷ 112 ∷ 115 ∷ 58 ∷ 47 ∷ 47 ∷ []

abbrev pub http_localhost : List ℕ
http_localhost =
    104 ∷ 116 ∷ 116 ∷ 112 ∷ 58 ∷ 47 ∷ 47 ∷ 108 ∷ 111 ∷ 99 ∷ 97 ∷ 108 ∷ 104 ∷ 111 ∷ 115 ∷ 116 ∷ []

abbrev pub http_loopback : List ℕ
http_loopback =
    104 ∷ 116 ∷ 116 ∷ 112 ∷ 58 ∷ 47 ∷ 47 ∷ 49 ∷ 50 ∷ 55 ∷ 46 ∷ 48 ∷ 46 ∷ 48 ∷ 46 ∷ 49 ∷ []

abbrev pub query_placeholder : List ℕ
query_placeholder = 123 ∷ 113 ∷ 117 ∷ 101 ∷ 114 ∷ 121 ∷ 125 ∷ []

abbrev pub is_strict : Mode → Bool
is_strict standard = false
is_strict strict = true

abbrev pub is_system : DohProvider → Bool
is_system system = true
is_system _ = false

unfoldable pub provider_insecure : DohProvider → Bool
provider_insecure (custom url) = not (starts_with https url)
provider_insecure _ = false

unfoldable pub engine_insecure : SearchEngine → Bool
engine_insecure (custom_engine url) = not (starts_with https url)
engine_insecure _ = false

unfoldable pub engine_lacks_query : SearchEngine → Bool
engine_lacks_query (custom_engine url) = not (contains_str query_placeholder url)
engine_lacks_query _ = false

abbrev pub is_none : Option SyncBackend → Bool
is_none none = true
is_none (some _) = false

unfoldable pub backend_insecure : Option SyncBackend → Bool
backend_insecure (some (web_dav url)) =
    not (starts_with https url || (starts_with http_localhost url || starts_with http_loopback url))
backend_insecure _ = false

-- `if bad { return Err(e); }` before the rest.
abbrev pub guard :
    Bool → ConfigError → Outcome ConfigError (Unit {0}) → Outcome ConfigError (Unit {0})
guard true e rest = err e
guard false e rest = rest

unfoldable pub validate : Config → Outcome ConfigError (Unit {0})
unfolding provider_insecure engine_insecure engine_lacks_query backend_insecure
validate cfg =
    guard (not (cfg.version == current_schema_version))
      (schema_version cfg.version current_schema_version)
      (guard (is_strict cfg.privacy.default_mode && is_system cfg.network.provider)
        system_dns_in_strict
        (guard (provider_insecure cfg.network.provider) insecure_provider (
          guard (engine_insecure cfg.search.default_engine) insecure_engine (
            guard (engine_lacks_query cfg.search.default_engine) engine_without_query (
              guard (cfg.sync.enabled && is_none cfg.sync.backend) sync_without_backend (
                guard (backend_insecure cfg.sync.backend) insecure_webdav (
                  guard
                    (not (
                      leb 7 cfg.bounce_tracker.purge_days && leb cfg.bounce_tracker.purge_days 365))
                    purge_days_out_of_range
                    (guard (not (leb 64 cfg.gpu.memory_cap_mib && leb cfg.gpu.memory_cap_mib 4096))
                      memory_cap_out_of_range (ok tt)))))))))
