-- ===== src/Network/Coordinator.antt =====
-- crates/pb-network/src/coordinator.rs: the helpers on URLs, the map of egress states, and the
-- coordinator with its methods.
pub mod Url
pub mod Lru
pub mod Route
pub mod Runs
pub mod Resolve
use dev_browse.Prelude.{
  ℕ, ◌≡◌, refl, ap, Bool, true, false, not, List, [], Option, none, some, Outcome, ok, err, panic,
  ◌==◌, if◌then◌else◌, ℕ_discrete,
}
use dev_browse.Prelude.Fallible.{◌>>=◌}
use dev_browse.Prelude.Text.{text_discrete}
use dev_browse.Config.{Mode, standard, strict}
use dev_browse.Network.Error.{
  NetworkError, partition_mismatch, cancelled, blocked, invalid_url, config, resolve_nx_domain,
  resolve_outage, clone,
}
use dev_browse.Network.PartitionKey.{derive}
use dev_browse.Network.Headers.{Header, HeaderPolicy, standard_policy, strict_policy, scrub}
use dev_browse.Network.Blocklist.Rule.{BlockKind}
use dev_browse.Network.Blocklist.UrlStrip.{strip_tracking_params}
use dev_browse.Network.Blocklist.Live.{Blocklist, empty_list, match_host, on_block}
use dev_browse.Network.Dns.Cache.{
  DnsCache, ResolveResult, new as new_cache, get, put_positive, put_negative,
  drop_partition as drop_cached,
}
use dev_browse.Network.Dns.Fallback.{FallbackPolicy}
use dev_browse.Network.Dns.Wire.{QueryType, DnsRecord, type_code}
use Url.{enforce_https_only, parse_host}
use Lru.{PartitionLru, new, get_or_insert_default, remove}

abbrev pub max_partitions : ℕ
max_partitions = 16

-- What a cached answer is filed under in its partition: the name and the code of the type.
abbrev pub CacheKey : Type 0
CacheKey = List ℕ × ℕ

abbrev same_code : (a b : CacheKey) → a.0 ≡ b.0 → Dec (a.1 ≡ b.1) → Dec (a ≡ b)
same_code (n, c) (m, d) e (yes p) = yes (cc (e, p))
same_code (n, c) (m, d) e (no p) = no (λ q. p (ap (λ (x : CacheKey). x.1) q))

abbrev same_name : (a b : CacheKey) → Dec (a.0 ≡ b.0) → Dec (a ≡ b)
same_name a b (yes p) = same_code a b p (ℕ_discrete a.1 b.1)
same_name a b (no p) = no (λ q. p (ap (λ (x : CacheKey). x.0) q))

unfoldable pub cache_key_discrete : Discrete CacheKey
cache_key_discrete a b = same_name a b (text_discrete a.0 b.0)

abbrev pub Records : Type 0
Records = List DnsRecord

abbrev pub Answer : Type 0
Answer = Outcome NetworkError (ResolveResult Records)

-- `ResolveQuery` of dns/resolver.rs.
pub record ResolveQuery : Type 0 where
  pub partition_key : ℕ
  pub qname : List ℕ
  pub qtype : QueryType
  pub mode : Mode

-- `CancellationFlag` is read four times in a route, and may be set at any time by another task: the
-- readings are arguments.
pub record Request : Type 0 where
  pub site_origin : List ℕ
  pub identity_profile_id : List ℕ
  pub context_id : List ℕ
  pub declared_key : ℕ
  pub mode : Mode
  pub url : List ℕ
  pub method : List ℕ
  pub headers : List Header
  pub body : List ℕ
  pub downgrade_approved : Bool

pub record Readings : Type 0 where
  pub first : Bool
  pub second : Bool
  pub third : Bool
  pub fourth : Bool

pub record RoutedRequest : Type 0 where
  pub partition_key : ℕ
  pub mode : Mode
  pub final_url : List ℕ
  pub method : List ℕ
  pub headers : List Header
  pub body : List ℕ

-- The resolver is a trait object: what it answers to each query.
pub record NetworkCoordinator : Type 0 where
  pub default_mode : Mode
  pub egress : PartitionLru
  pub dns_cache : DnsCache CacheKey Records NetworkError
  pub resolver : Option (ResolveQuery → Answer)
  pub fallback : FallbackPolicy
  pub blocklist : Blocklist
  pub header_policy_standard : HeaderPolicy
  pub header_policy_strict : HeaderPolicy

-- `bootstrap`, after the class of the sandbox has been compared with `Network`; `applied` is what
-- `sandbox.apply()` answers.
unfoldable pub bootstrap :
    Bool → Outcome NetworkError (Unit {0}) → Mode → Outcome NetworkError NetworkCoordinator
bootstrap network_class applied default_mode =
    if not network_class
    then err config
    else (applied >>= (λ _. ok (record {
      default_mode = default_mode;
      egress = new max_partitions;
      dns_cache = new_cache;
      resolver = none;
      fallback = record { system_dns_opt_in = false };
      blocklist = empty_list;
      header_policy_standard = standard_policy;
      header_policy_strict = strict_policy;
    })))

unfoldable pub set_resolver : NetworkCoordinator → (ResolveQuery → Answer) → NetworkCoordinator
set_resolver c resolver = record c { resolver = some resolver }

unfoldable pub set_fallback_policy : NetworkCoordinator → FallbackPolicy → NetworkCoordinator
set_fallback_policy c policy = record c { fallback = policy }

unfoldable pub set_blocklist : NetworkCoordinator → Blocklist → NetworkCoordinator
set_blocklist c blocklist = record c { blocklist = blocklist }

abbrev pub policy_for : Mode → NetworkCoordinator → HeaderPolicy
policy_for standard c = c.header_policy_standard
policy_for strict c = c.header_policy_strict

unfoldable pub header_policy_for : NetworkCoordinator → Mode → HeaderPolicy
header_policy_for c mode = policy_for mode c

abbrev pub store_policy : Mode → HeaderPolicy → NetworkCoordinator → NetworkCoordinator
store_policy standard policy c = record c { header_policy_standard = policy }
store_policy strict policy c = record c { header_policy_strict = policy }

unfoldable pub set_header_policy : NetworkCoordinator → HeaderPolicy → NetworkCoordinator
set_header_policy c policy = store_policy policy.mode policy c

unfoldable pub drop_partition : NetworkCoordinator → ℕ → NetworkCoordinator
drop_partition c key = record c {
  egress = remove key c.egress;
  dns_cache = drop_cached cache_key_discrete c.dns_cache key;
}

-- What `resolve` does with the answer of the resolver, at the time `stored_at`.
unfoldable pub keep_answer :
    NetworkCoordinator → ℕ → CacheKey → ℕ → Answer → NetworkCoordinator × Answer
keep_answer c partition key stored_at (ok res) = (
  record c { dns_cache = put_positive cache_key_discrete c.dns_cache partition key res stored_at },
  ok res,
)
keep_answer c partition key stored_at (err resolve_nx_domain) = (
  record c {
    dns_cache =
        put_negative cache_key_discrete c.dns_cache partition key (clone resolve_nx_domain)
          stored_at;
  },
  err resolve_nx_domain,
)
keep_answer c partition key stored_at (err e) = (c, err e)
keep_answer c partition key stored_at panic = (c, panic)

abbrev pub ask :
    NetworkCoordinator
    → Option (ResolveQuery → Answer)
    → ResolveQuery
    → ℕ
    → NetworkCoordinator × Answer
ask c none query stored_at = (c, err resolve_outage)
ask c (some resolver) query stored_at =
    keep_answer c query.partition_key (query.qname, type_code query.qtype) stored_at
      (resolver query)

abbrev pub resolve_from :
    NetworkCoordinator
    → ResolveQuery
    → ℕ
    → DnsCache CacheKey Records NetworkError × Option Answer
    → NetworkCoordinator × Answer
resolve_from c query stored_at (cache, some cached) = (record c { dns_cache = cache }, cached)
resolve_from c query stored_at (cache, none) =
    ask (record c { dns_cache = cache }) c.resolver query stored_at

-- The clock is read twice by the cache's `get`, and once when an answer is stored.
unfoldable pub resolve :
    NetworkCoordinator → ℕ → List ℕ → QueryType → Mode → ℕ → ℕ → ℕ → NetworkCoordinator × Answer
resolve c partition qname qtype mode now later stored_at =
    resolve_from c (record { partition_key = partition; qname = qname; qtype = qtype; mode = mode })
      stored_at (get cache_key_discrete c.dns_cache partition (qname, type_code qtype) now later)

module _ (sha256 : List ℕ → ℕ) where
  unfoldable pub authorize : Request → Outcome NetworkError ℕ
  authorize req =
      let expected = derive sha256 req.site_origin req.identity_profile_id req.context_id in
      if expected == req.declared_key then ok expected else err partition_mismatch
