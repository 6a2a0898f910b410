-- ===== src/Config.antt =====
-- crates/pb-config/src/schema.rs: the configuration and its defaults. A string or a path is the list
-- of its bytes.
pub mod Loader
use dev_browse.Prelude.{ℕ, Bool, true, false, List, Option, none}

pub data Mode : Type 0 where
  standard strict : Mode

pub data FingerprintLevel : Type 0 where
  standard_level strict_level : FingerprintLevel

pub record PrivacyConfig : Type 0 where
  pub default_mode : Mode
  pub fingerprint_level : FingerprintLevel
  pub translation_enabled : Bool
  pub spellcheck_enabled : Bool

pub data DohProvider : Type 0 where
  quad9 next_dns cloudflare system : DohProvider
  custom : List ℕ → DohProvider

pub record NetworkConfig : Type 0 where
  pub provider : DohProvider

pub record StorageConfig : Type 0 where
  pub data_dir : Option (List ℕ)
  pub strict_wipe_on_close : Bool

pub data SearchEngine : Type 0 where
  duck_duck_go startpage brave_search mojeek : SearchEngine
  custom_engine : List ℕ → SearchEngine

pub record SearchConfig : Type 0 where
  pub default_engine : SearchEngine
  pub suggestions_enabled : Bool

pub data Theme : Type 0 where
  system_theme light dark : Theme

pub data TabLayout : Type 0 where
  sidebar_hover top_horizontal full_vertical : TabLayout

pub record UiConfig : Type 0 where
  pub theme : Theme
  pub show_identity_in_tab_bar : Bool
  pub tab_layout : TabLayout
  pub reduce_transparency : Bool
  pub command_bar_enabled : Bool

pub record WizardConfig : Type 0 where
  pub completed : Bool
  pub completed_at_version : Option ℕ

pub data SyncBackend : Type 0 where
  lan_cluster hub_peer : SyncBackend
  web_dav local_file : List ℕ → SyncBackend

pub record SyncConfig : Type 0 where
  pub enabled : Bool
  pub backend : Option SyncBackend

pub record TelemetryConfig : Type 0 where
  pub enabled : Bool

pub data HistoryRetention : Type 0 where
  forever session week month : HistoryRetention

pub record HistoryConfig : Type 0 where
  pub retention : HistoryRetention

pub record LoggingConfig : Type 0 where
  pub disk_logging_enabled : Bool

pub record HttpsOnlyConfig : Type 0 where
  pub enabled : Bool

pub record UrlParamStripConfig : Type 0 where
  pub enabled : Bool

pub data EchMode : Type 0 where
  preferred required : EchMode

pub record EchConfig : Type 0 where
  pub mode : EchMode

pub record WebRtcConfig : Type 0 where
  pub enabled_in_standard : Bool

pub record BounceTrackerConfig : Type 0 where
  pub purge_days : ℕ

pub record CookieBannerConfig : Type 0 where
  pub auto_decline_enabled : Bool

pub record GpuConfig : Type 0 where
  pub memory_cap_mib : ℕ

pub record Config : Type 0 where
  pub version : ℕ
  pub privacy : PrivacyConfig
  pub network : NetworkConfig
  pub storage : StorageConfig
  pub search : SearchConfig
  pub ui : UiConfig
  pub history : HistoryConfig
  pub logging : LoggingConfig
  pub wizard : WizardConfig
  pub sync : SyncConfig
  pub telemetry : TelemetryConfig
  pub https_only : HttpsOnlyConfig
  pub url_param_strip : UrlParamStripConfig
  pub ech : EchConfig
  pub webrtc : WebRtcConfig
  pub bounce_tracker : BounceTrackerConfig
  pub cookie_banner : CookieBannerConfig
  pub gpu : GpuConfig

abbrev pub current_schema_version : ℕ
current_schema_version = 1

abbrev pub default_storage : StorageConfig
default_storage = record { data_dir = none; strict_wipe_on_close = true }

abbrev pub default_search : SearchConfig
default_search = record { default_engine = duck_duck_go; suggestions_enabled = true }

abbrev pub default_ui : UiConfig
default_ui = record {
  theme = system_theme;
  show_identity_in_tab_bar = true;
  tab_layout = sidebar_hover;
  reduce_transparency = false;
  command_bar_enabled = true;
}

abbrev pub default_config : Config
default_config = record {
  version = current_schema_version;
  privacy = record {
    default_mode = standard;
    fingerprint_level = standard_level;
    translation_enabled = false;
    spellcheck_enabled = false;
  };
  network = record { provider = quad9 };
  storage = default_storage;
  search = default_search;
  ui = default_ui;
  history = record { retention = forever };
  logging = record { disk_logging_enabled = false };
  wizard = record { completed = false; completed_at_version = none };
  sync = record { enabled = false; backend = none };
  telemetry = record { enabled = false };
  https_only = record { enabled = true };
  url_param_strip = record { enabled = true };
  ech = record { mode = preferred };
  webrtc = record { enabled_in_standard = true };
  bounce_tracker = record { purge_days = 45 };
  cookie_banner = record { auto_decline_enabled = false };
  gpu = record { memory_cap_mib = 512 };
}
