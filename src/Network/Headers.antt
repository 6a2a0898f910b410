-- ===== src/Network/Headers.antt =====
-- crates/pb-network/src/headers.rs: the request headers that leave the browser. A header is a pair of
-- texts, and a text is the list of its bytes.
pub mod Scrub
use dev_browse.Prelude.{
  ℕ, Bool, true, false, ◌&&◌, List, [], ◌∷◌, ◌++◌, Option, none, some, leb, if◌then◌else◌, length,
  is_empty,
}
use dev_browse.Prelude.Fallible.{take}
use dev_browse.Prelude.Text.{bytes, same_text, any_same}
use dev_browse.Network.Blocklist.Rule.{to_ascii_lowercase}
use dev_browse.Config.{Mode, standard, strict}

abbrev pub Header : Type 0
Header = List ℕ × List ℕ

abbrev pub devbrowse_user_agent : List ℕ
devbrowse_user_agent =
    bytes "Mozilla/5.0 (X11; Linux x86_64; rv:128.0) Gecko/20100101 Firefox/128.0"

abbrev pub devbrowse_accept_language : List ℕ
devbrowse_accept_language = bytes "en-US,en;q=0.5"

abbrev pub devbrowse_accept_encoding : List ℕ
devbrowse_accept_encoding = bytes "gzip, br, zstd"

abbrev pub devbrowse_accept_default : List ℕ
devbrowse_accept_default =
    bytes "text/html,application/xhtml+xml,application/xml;q=0.9,image/avif,image/webp,*/*;q=0.8"

pub data RefererPolicy : Type 0 where
  strict_origin_when_cross_origin no_referrer : RefererPolicy

pub record HeaderPolicy : Type 0 where
  pub mode : Mode
  pub referer : RefererPolicy
  pub user_agent : List ℕ
  pub accept_language : List ℕ
  pub accept_encoding : List ℕ
  pub accept_default : List ℕ
  pub send_dnt : Bool
  pub send_sec_gpc : Bool

unfoldable pub standard_policy : HeaderPolicy
standard_policy = record {
  mode = standard;
  referer = strict_origin_when_cross_origin;
  user_agent = devbrowse_user_agent;
  accept_language = devbrowse_accept_language;
  accept_encoding = devbrowse_accept_encoding;
  accept_default = devbrowse_accept_default;
  send_dnt = true;
  send_sec_gpc = true;
}

unfoldable pub strict_policy : HeaderPolicy
strict_policy = record {
  mode = strict;
  referer = no_referrer;
  user_agent = devbrowse_user_agent;
  accept_language = devbrowse_accept_language;
  accept_encoding = devbrowse_accept_encoding;
  accept_default = devbrowse_accept_default;
  send_dnt = true;
  send_sec_gpc = true;
}

unfoldable pub for_mode : Mode → HeaderPolicy
for_mode standard = standard_policy
for_mode strict = strict_policy

unfoldable pub strip_names : List (List ℕ)
strip_names =
    bytes "cookie"
    ∷ bytes "sec-ch-ua"
    ∷ bytes "sec-ch-ua-mobile"
    ∷ bytes "sec-ch-ua-platform"
    ∷ bytes "sec-ch-ua-platform-version"
    ∷ bytes "sec-ch-ua-arch"
    ∷ bytes "sec-ch-ua-bitness"
    ∷ bytes "sec-ch-ua-full-version"
    ∷ bytes "sec-ch-ua-full-version-list"
    ∷ bytes "sec-ch-ua-model"
    ∷ bytes "sec-ch-ua-wow64"
    ∷ bytes "x-requested-with"
    ∷ bytes "x-forwarded-for"
    ∷ bytes "x-forwarded-host"
    ∷ bytes "x-forwarded-proto"
    ∷ bytes "x-forwarded-port"
    ∷ bytes "via"
    ∷ bytes "forwarded"
    ∷ []

unfoldable pub override_names : List (List ℕ)
override_names =
    bytes "user-agent"
    ∷ bytes "accept-language"
    ∷ bytes "accept-encoding"
    ∷ bytes "referer"
    ∷ bytes "dnt"
    ∷ bytes "sec-gpc"
    ∷ []

-- `target_url.len() >= 7 && target_url.as_bytes()[..7].eq_ignore_ascii_case(b"http://")`
abbrev pub plain_http : List ℕ → Bool
plain_http url = leb 7 (length url) && same_text (to_ascii_lowercase (take 7 url)) (bytes "http://")

abbrev pub origin_referer : List ℕ → List ℕ → Option (List ℕ)
origin_referer site_origin target_url =
    if is_empty site_origin
    then none
    else if plain_http target_url
    then none
    else some (bytes "https://" ++ (site_origin ++ bytes "/"))

unfoldable pub compute_referer : RefererPolicy → List ℕ → List ℕ → List ℕ → Option (List ℕ)
compute_referer no_referrer site_origin target_host target_url = none
compute_referer strict_origin_when_cross_origin site_origin target_host target_url =
    origin_referer site_origin target_url

abbrev pub referer_header : Option (List ℕ) → List Header
referer_header none = []
referer_header (some referer) = (bytes "Referer", referer) ∷ []

-- The headers that the policy injects, in the order of the code.
unfoldable pub policy_headers : HeaderPolicy → Option (List ℕ) → List Header
policy_headers policy referer =
    (bytes "User-Agent", policy.user_agent)
    ∷ (bytes "Accept-Language", policy.accept_language)
    ∷ (bytes "Accept-Encoding", policy.accept_encoding)
    ∷ ((if policy.send_dnt then (bytes "DNT", bytes "1") ∷ [] else [])
        ++ ((if policy.send_sec_gpc then (bytes "Sec-GPC", bytes "1") ∷ [] else [])
            ++ referer_header referer))

-- The loop over the headers of the renderer: those that pass, and `renderer_supplied_accept`.
unfoldable pub pass_headers : List Header → List Header
pass_headers [] = []
pass_headers ((name, value) ∷ headers) =
    let rest = pass_headers headers in
    let lower_name = to_ascii_lowercase name in
    if any_same lower_name strip_names
    then rest
    else if any_same lower_name override_names
    then rest
    else (name, value) ∷ rest

unfoldable pub supplies_accept : List Header → Bool
supplies_accept [] = false
supplies_accept ((name, value) ∷ headers) =
    let rest = supplies_accept headers in
    let lower_name = to_ascii_lowercase name in
    if any_same lower_name strip_names
    then rest
    else if any_same lower_name override_names
    then rest
    else if same_text lower_name (bytes "accept")
    then true
    else rest

unfoldable pub scrub : HeaderPolicy → List ℕ → List ℕ → List ℕ → List Header → List Header
scrub policy site_origin target_host target_url headers =
    policy_headers policy (compute_referer policy.referer site_origin target_host target_url)
    ++ (pass_headers headers
        ++ (if supplies_accept headers then [] else (bytes "Accept", policy.accept_default) ∷ []))
