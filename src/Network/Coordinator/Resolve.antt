-- ===== src/Network/Coordinator/Resolve.antt =====
-- crates/pb-network/src/coordinator.rs: `resolve`, the cache and the resolver together.
use dev_browse.Prelude.{
  ℕ, ◌+◌, ◌*◌, ◌≤◌, ◌<◌, ◌≡◌, refl, ap, min, List, none, some, ok, err, ◌⊎◌, inl, inr,
}
use dev_browse.Config.{Mode}
use dev_browse.Network.Error.{NetworkError, resolve_nx_domain, clone}
use dev_browse.Network.Dns.Cache.{DnsCache, ResolveResult, get, nanos_per_sec, max_positive_ttl}
use dev_browse.Network.Dns.Cache.Guarantees.{get-put_positive, get-put_negative}
use dev_browse.Network.Dns.Wire.{QueryType, type_code}
use dev_browse.Network.Coordinator.{
  NetworkCoordinator, ResolveQuery, Answer, Records, CacheKey, cache_key_discrete, set_resolver,
  keep_answer, resolve,
}

-- The query, in its partition.
abbrev pub asked : ℕ → List ℕ → QueryType → Mode → ResolveQuery
asked partition qname qtype mode = record {
  partition_key = partition;
  qname = qname;
  qtype = qtype;
  mode = mode;
}

-- The cache has no live answer at the time `now`, and is then as `cache`.
abbrev pub Miss :
    NetworkCoordinator
    → ℕ
    → List ℕ
    → QueryType
    → ℕ
    → ℕ
    → DnsCache CacheKey Records NetworkError
    → Type 0
Miss c partition qname qtype now later cache =
    get cache_key_discrete c.dns_cache partition (qname, type_code qtype) now later ≡ (cache, none)

-- On a miss the resolver is asked, and its answer kept in the cache that the miss left.
resolve-Miss :
    (c : NetworkCoordinator) (partition : ℕ) (qname : List ℕ) (qtype : QueryType) (mode : Mode)
    (now later stored_at : ℕ) (cache : DnsCache CacheKey Records NetworkError)
    (resolver : ResolveQuery → Answer) (a : Answer)
    → Miss c partition qname qtype now later cache
    → c.resolver ≡ some resolver
    → resolver (asked partition qname qtype mode) ≡ a
    → resolve c partition qname qtype mode now later stored_at
      ≡ keep_answer (record c { dns_cache = cache }) partition (qname, type_code qtype) stored_at a
unfolding resolve
resolve-Miss c partition qname qtype mode now later stored_at cache resolver a miss e r =
    rw (miss, e, r) refl

-- A cached answer is given without asking.
resolve_hit :
    (c : NetworkCoordinator) (partition : ℕ) (qname : List ℕ) (qtype : QueryType) (mode : Mode)
    (now later stored_at : ℕ) (cache : DnsCache CacheKey Records NetworkError) (a : Answer)
    → get cache_key_discrete c.dns_cache partition (qname, type_code qtype) now later
      ≡ (cache, some a)
    → resolve c partition qname qtype mode now later stored_at ≡ (record c { dns_cache = cache }, a)
unfolding resolve
resolve_hit c partition qname qtype mode now later stored_at cache a hit = rw hit refl

-- An answer that the resolver gave on a miss is given again for its TTL (24 hours at most) after it was
-- stored, with the same records and no longer TTL, without asking: whatever resolver is set by then,
-- where the clock does not go back.
pub resolve_again :
    (c : NetworkCoordinator) (partition : ℕ) (qname : List ℕ) (qtype : QueryType)
    (mode mode' : Mode) (now later stored_at now' later' stored_at' : ℕ)
    (cache : DnsCache CacheKey Records NetworkError) (resolver resolver' : ResolveQuery → Answer)
    (res : ResolveResult Records)
    → Miss c partition qname qtype now later cache
    → c.resolver ≡ some resolver
    → resolver (asked partition qname qtype mode) ≡ ok res
    → stored_at ≤ now'
    → now' ≤ later'
    → now' < stored_at + min res.ttl_seconds max_positive_ttl * nanos_per_sec
    → let first = resolve c partition qname qtype mode now later stored_at in
      let second =
        resolve
          (set_resolver first.0 resolver')
          partition
          qname
          qtype
          mode'
          now'
          later'
          stored_at' in
      (first.1 ≡ ok res)
      × (n : ℕ) × (n ≤ min res.ttl_seconds max_positive_ttl)
      × (second.1 ≡ ok (record { records = res.records; ttl_seconds = n }))
unfolding set_resolver keep_answer
resolve_again c partition qname qtype mode mode' now later stored_at now' later' stored_at' cache
      resolver resolver' res miss e r h1 h2 h3 =
    let key : CacheKey = (qname, type_code qtype) in
    let (n, bound, hit) =
      get-put_positive cache_key_discrete cache partition key res stored_at now' later' h1 h2 h3 in
    let first =
      resolve-Miss c partition qname qtype mode now later stored_at cache resolver (ok res) miss e
        r in
    rw first (
      refl,
      n,
      bound,
      ap (λ p. p.1) (resolve_hit _ partition qname qtype mode' now' later' stored_at' _ _ hit),
    )

-- A failure other than NXDOMAIN that the resolver reports on a miss is not cached: it is passed on, and
-- the cache is as the miss left it. NXDOMAIN is given again for 60 seconds, whatever resolver is set
-- by then.
pub resolve_failed :
    (c : NetworkCoordinator) (partition : ℕ) (qname : List ℕ) (qtype : QueryType)
    (mode mode' : Mode) (now later stored_at now' later' stored_at' : ℕ)
    (cache : DnsCache CacheKey Records NetworkError) (resolver resolver' : ResolveQuery → Answer)
    (x : NetworkError)
    → Miss c partition qname qtype now later cache
    → c.resolver ≡ some resolver
    → resolver (asked partition qname qtype mode) ≡ err x
    → now' < stored_at + 60 * nanos_per_sec
    → let first = resolve c partition qname qtype mode now later stored_at in
      let second =
        resolve
          (set_resolver first.0 resolver')
          partition
          qname
          qtype
          mode'
          now'
          later'
          stored_at' in
      (first.1 ≡ err x)
      × ((first.0.dns_cache ≡ cache)
          ⊎ ((x ≡ resolve_nx_domain) × (second.1 ≡ err resolve_nx_domain)))
unfolding set_resolver keep_answer clone
resolve_failed c partition qname qtype mode mode' now later stored_at now' later' stored_at' cache
      resolver resolver' x miss e r h =
    rw
      (resolve-Miss c partition qname qtype mode now later stored_at cache resolver (err x) miss e
        r)
      (after x)
  where
    key : CacheKey
    key = (qname, type_code qtype)

    missed : NetworkCoordinator
    missed = record c { dns_cache = cache }

    second : NetworkCoordinator → Answer
    second d =
        (resolve (record d { resolver = some resolver' }) partition qname qtype mode' now' later'
          stored_at').1

    after :
        (x : NetworkError)
        → let kept = keep_answer missed partition key stored_at (err x) in
          (kept.1 ≡ err x)
          × ((kept.0.dns_cache ≡ cache)
              ⊎ ((x ≡ resolve_nx_domain) × (second kept.0 ≡ err resolve_nx_domain)))
    after resolve_nx_domain = (
      refl,
      inr (
        refl,
        ap (λ p. p.1)
            (resolve_hit _ partition qname qtype mode' now' later' stored_at' _ _ (
              get-put_negative cache_key_discrete cache partition key (clone resolve_nx_domain)
                stored_at now' later' h)),
      ),
    )
    after _ = (refl, inl refl)
