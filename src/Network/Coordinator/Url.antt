-- ===== src/Network/Coordinator/Url.antt =====
-- crates/pb-network/src/coordinator.rs: the helpers on URLs. A `&str` is the list of its bytes.
pub mod Host
use dev_browse.Prelude.{
  ℕ, Bool, true, false, not, ◌&&◌, ◌||◌, List, [], ◌∷◌, Option, none, some, Outcome, ok, err, leb,
  ◌==◌, if◌then◌else◌, length, is_empty, contains,
}
use dev_browse.Prelude.Fallible.{take, drop}
use dev_browse.Prelude.Text.{bytes, same_text, cut_at}
use dev_browse.Config.Loader.{starts_with}
use dev_browse.Network.Blocklist.Rule.{to_ascii_lowercase}
use dev_browse.Network.Error.{NetworkError, https_only_downgrade, invalid_url}

unfoldable pub has_ascii_prefix_ci : List ℕ → List ℕ → Bool
has_ascii_prefix_ci haystack needle =
    leb (length needle) (length haystack)
    && same_text (to_ascii_lowercase (take (length needle) haystack)) (to_ascii_lowercase needle)

unfoldable pub enforce_https_only : List ℕ → Bool → Outcome NetworkError (List ℕ)
enforce_https_only url downgrade_approved =
    if has_ascii_prefix_ci url (bytes "https://")
    then ok url
    else if has_ascii_prefix_ci url (bytes "http://")
    then (if downgrade_approved then ok url else err https_only_downgrade)
    else err invalid_url

abbrev pub scheme_separator : List ℕ
scheme_separator = bytes "://"

-- `url.find("://")`, and the text behind it.
unfoldable pub after_scheme : List ℕ → Option (List ℕ)
after_scheme [] = none
after_scheme (c ∷ s) =
    if starts_with scheme_separator (c ∷ s) then some (drop 3 (c ∷ s)) else after_scheme s

-- `/`, `?` and `#`, which end the authority.
unfoldable pub ends_authority : ℕ → Bool
ends_authority b = b == 47 || b == 63 || b == 35

-- No `/`, `?` or `#` in the text.
unfoldable pub in_authority : List ℕ → Bool
in_authority s = not (contains 47 s) && not (contains 63 s) && not (contains 35 s)

abbrev pub userinfo_cut : List ℕ → Option (List ℕ × List ℕ) → List ℕ
userinfo_cut s none = s
userinfo_cut s (some (before, after)) = if in_authority before then after else s

-- The text without a userinfo in front of the first `@`.
unfoldable pub after_userinfo : List ℕ → List ℕ
after_userinfo s = userinfo_cut s (cut_at 64 s)

-- The text up to the first `/`, `?` or `#`.
unfoldable pub authority_of : List ℕ → List ℕ
authority_of [] = []
authority_of (b ∷ s) = let rest = authority_of s in if ends_authority b then [] else b ∷ rest

-- What stands in front of the cut; the whole text if there is none.
abbrev pub before_cut : List ℕ → Option (List ℕ × List ℕ) → List ℕ
before_cut s none = s
before_cut s (some (before, after)) = before

abbrev pub bracketed : Option (List ℕ × List ℕ) → Option (List ℕ)
bracketed none = none
bracketed (some (host, rest)) = some host

-- The host without its port; a host in brackets is an IPv6 address.
unfoldable pub strip_port : List ℕ → Option (List ℕ)
strip_port [] = some []
strip_port (b ∷ s) =
    if b == 91 then bracketed (cut_at 93 s) else some (before_cut (b ∷ s) (cut_at 58 (b ∷ s)))

abbrev pub nonempty : Option (List ℕ) → Option (List ℕ)
nonempty none = none
nonempty (some host) = if is_empty host then none else some host

abbrev pub host_of : List ℕ → Option (List ℕ)
host_of authority = if is_empty authority then none else nonempty (strip_port authority)

abbrev pub host_behind : Option (List ℕ) → Option (List ℕ)
host_behind none = none
host_behind (some s) = host_of (authority_of (after_userinfo s))

unfoldable pub parse_host : List ℕ → Option (List ℕ)
parse_host url = host_behind (after_scheme url)
