-- ===== src/Tests/Config.antt =====
-- The theorems on crates/pb-config at concrete configurations.
use dev_browse.Prelude.{ℕ, ◌≡◌, refl, true, List, [], ◌∷◌, ◌++◌, ok, some}
use dev_browse.Config.{Config, strict, custom, web_dav, default_config}
use dev_browse.Config.Loader.{https, http_localhost, starts_with, validate}
use dev_browse.Config.Loader.Checked.{validate-https}

-- The defaults with a Strict default mode and DoH at `https://d`.
abbrev strict_config : Config
strict_config = record default_config {
  privacy = record default_config.privacy { default_mode = strict };
  network = record { provider = custom (https ++ 100 ∷ []) };
}

strict_config-valid : validate strict_config ≡ ok tt
unfolding validate starts_with
strict_config-valid = refl

validate-https_example : (rest : List ℕ) × (https ++ 100 ∷ [] ≡ https ++ rest)
validate-https_example = validate-https strict_config (https ++ 100 ∷ []) strict_config-valid refl

-- `http://localhost.evil`.
localhost_prefix :
    validate (record default_config {
      sync = record {
        enabled = true;
        backend = some (web_dav (http_localhost ++ 46 ∷ 101 ∷ 118 ∷ 105 ∷ 108 ∷ []));
      };
    })
    ≡ ok tt
unfolding validate starts_with
localhost_prefix = refl
