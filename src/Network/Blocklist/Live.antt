-- ===== src/Network/Blocklist/Live.antt =====
-- crates/pb-network/src/blocklist: the manifest of rule.rs and the live list of blocklist.rs, which a
-- refresh swaps as a whole. The read and write locks make each method one step. The sink of events
-- is what it has been given (events.rs); a text is the list of its bytes.
use dev_browse.Prelude.{ℕ, Bool, ◌&&◌, List, [], ◌∷◌, ◌++◌, Option, is_empty}
use dev_browse.Network.Blocklist.Rule.{Rule, BlockKind}
use dev_browse.Network.Blocklist.RadixTree.{RadixTree, empty, from_rules, match_host as tree_match}
use dev_browse.Network.Blocklist.UrlStrip.{UrlParamRule, UrlParamStripList, no_params}
use dev_browse.Network.Blocklist.UrlStrip.{from_rules as strip_list}

pub record CookieBannerRule : Type 0 where
  pub site_pattern : List ℕ
  pub selector : List ℕ

pub record Manifest : Type 0 where
  pub format_version : ℕ
  pub content_version : ℕ
  pub generated_at_unix : ℕ
  pub host_rules : List Rule
  pub url_param_rules : List UrlParamRule
  pub cookie_banner_rules : List CookieBannerRule

unfoldable pub empty_manifest : Manifest
empty_manifest = record {
  format_version = 1;
  content_version = 0;
  generated_at_unix = 0;
  host_rules = [];
  url_param_rules = [];
  cookie_banner_rules = [];
}

unfoldable pub has_no_rules : Manifest → Bool
has_no_rules m =
    is_empty m.host_rules && is_empty m.url_param_rules && is_empty m.cookie_banner_rules

pub record BlockedEvent : Type 0 where
  pub kind : BlockKind
  pub partition_key : ℕ

pub record BlocklistState : Type 0 where
  pub hosts : RadixTree
  pub url_strip : UrlParamStripList
  pub cookie_banner : List CookieBannerRule
  pub content_version : ℕ

unfoldable pub empty_state : BlocklistState
unfolding empty
empty_state = record {
  hosts = empty;
  url_strip = no_params;
  cookie_banner = [];
  content_version = 0;
}

unfoldable pub state_of : Manifest → BlocklistState
state_of m = record {
  hosts = from_rules m.host_rules;
  url_strip = strip_list m.url_param_rules;
  cookie_banner = m.cookie_banner_rules;
  content_version = m.content_version;
}

pub record Blocklist : Type 0 where
  pub state : BlocklistState
  pub events : List BlockedEvent

unfoldable pub empty_list : Blocklist
empty_list = record { state = empty_state; events = [] }

unfoldable pub from_manifest : Manifest → Blocklist
from_manifest m = record { state = state_of m; events = [] }

-- The list with the new state, and the version that it had.
unfoldable pub swap : Blocklist → Manifest → Blocklist × ℕ
swap b m = (record b { state = state_of m }, b.state.content_version)

unfoldable pub match_host : Blocklist → List ℕ → Option BlockKind
match_host b host = tree_match b.state.hosts host

unfoldable pub on_block : Blocklist → BlockedEvent → Blocklist
on_block b event = record b { events = b.events ++ event ∷ [] }
