-- ===== src/Network/Blocklist/UrlStrip.antt =====
-- crates/pb-network/src/blocklist/url_strip.rs and the parameter rules of rule.rs: the removal of
-- tracking parameters. A `HashSet` of names is the list of them; a `&str` is the list of its bytes.

pub mod Parts
use dev_browse.Prelude.{
  ℕ, Bool, true, false, ◌||◌, List, [], ◌∷◌, ◌++◌, Option, none, some, ltb, if◌then◌else◌, length,
  is_empty, map,
}
use dev_browse.Prelude.Text.{bytes, any_same, cut_at, split_on, join}
use dev_browse.Network.Blocklist.Rule.{to_ascii_lowercase}

abbrev pub max_strippable_url_len : ℕ
max_strippable_url_len = 4096

unfoldable pub default_tracking_params : List (List ℕ)
default_tracking_params =
    bytes "utm_source"
    ∷ bytes "utm_medium"
    ∷ bytes "utm_campaign"
    ∷ bytes "utm_term"
    ∷ bytes "utm_content"
    ∷ bytes "utm_id"
    ∷ bytes "utm_name"
    ∷ bytes "gclid"
    ∷ bytes "gclsrc"
    ∷ bytes "dclid"
    ∷ bytes "fbclid"
    ∷ bytes "msclkid"
    ∷ bytes "yclid"
    ∷ bytes "mc_eid"
    ∷ bytes "mkt_tok"
    ∷ bytes "igshid"
    ∷ bytes "hsctatracking"
    ∷ bytes "hsenc"
    ∷ bytes "twclid"
    ∷ bytes "scid"
    ∷ bytes "epik"
    ∷ bytes "ref_src"
    ∷ bytes "ref_url"
    ∷ []

pub record UrlParamRule : Type 0 where
  pub name : List ℕ

-- `UrlParamRule::new`.
unfoldable pub param_rule : List ℕ → UrlParamRule
param_rule name = record { name = to_ascii_lowercase name }

pub record UrlParamStripList : Type 0 where
  pub names : List (List ℕ)

unfoldable pub no_params : UrlParamStripList
no_params = record { names = [] }

unfoldable pub from_rules : List UrlParamRule → UrlParamStripList
from_rules rules = record { names = map (λ r. r.name) rules }

unfoldable pub default_bootstrap : UrlParamStripList
default_bootstrap = record { names = default_tracking_params }

unfoldable pub is_listed : UrlParamStripList → List ℕ → Bool
is_listed list name = any_same (to_ascii_lowercase name) list.names

-- The part before the first `=`, or all of it.
abbrev pub key_of_cut : List ℕ → Option (List ℕ × List ℕ) → List ℕ
key_of_cut part none = part
key_of_cut part (some (key, value)) = key

unfoldable pub key_of : List ℕ → List ℕ
key_of part = key_of_cut part (cut_at 61 part)

-- The loop over the parts: what it keeps, and `stripped_any`.
unfoldable pub kept_parts : UrlParamStripList → List (List ℕ) → List (List ℕ)
kept_parts list [] = []
kept_parts list (part ∷ parts) =
    let rest = kept_parts list parts in
    if is_empty part then rest else if is_listed list (key_of part) then rest else part ∷ rest

unfoldable pub stripped_any : UrlParamStripList → List (List ℕ) → Bool
stripped_any list [] = false
stripped_any list (part ∷ parts) =
    let rest = stripped_any list parts in
    if is_empty part then rest else if is_listed list (key_of part) then true else rest

-- `kept.join("&")` behind a `?`, if something was kept.
unfoldable pub query_text : List (List ℕ) → List ℕ
query_text [] = []
query_text (p ∷ ps) = 63 ∷ join 38 (p ∷ ps)

-- The query, and the fragment with its `#`.
abbrev pub split_fragment : List ℕ → Option (List ℕ × List ℕ) → List ℕ × List ℕ
split_fragment after_q none = (after_q, [])
split_fragment after_q (some (query, rest)) = (query, 35 ∷ rest)

unfoldable pub strip_query : List ℕ → List ℕ → UrlParamStripList → List ℕ × List ℕ → List ℕ
strip_query url prefix list (query, fragment) =
    if is_empty query
    then url
    else let parts = split_on 38 query in
      if stripped_any list parts
      then prefix ++ (query_text (kept_parts list parts) ++ fragment)
      else url

abbrev pub strip_after : List ℕ → UrlParamStripList → Option (List ℕ × List ℕ) → List ℕ
strip_after url list none = url
strip_after url list (some (prefix, after_q)) =
    strip_query url prefix list (split_fragment after_q (cut_at 35 after_q))

unfoldable pub strip_tracking_params : List ℕ → UrlParamStripList → List ℕ
strip_tracking_params url list =
    if ltb max_strippable_url_len (length url) || is_empty list.names
    then url
    else strip_after url list (cut_at 63 url)
