-- ===== src/Network/Dns/Cache.antt =====
-- crates/pb-network/src/dns/cache.rs: resolution results by partition and query, with time limits
-- and a bound on each partition. The mutex makes each method one step. A partition key is the
-- number of its 32 bytes. `K` is the pair (qname, qtype), of which only equality is used; `A` is the
-- record list and `E` is `NetworkError`, which are only stored. An `Instant` counts nanoseconds, and
-- each reading of the clock is an argument.
pub mod Bounds
pub mod Reads
pub mod Guarantees
pub mod Runs
use dev_browse.Prelude.{
  ℕ, ◌+◌, ◌-◌, ◌*◌, ◌/◌, min, Bool, true, false, List, [], ◌∷◌, ◌++◌, Option, none, some, Outcome,
  ok, err, ltb, leb, if◌then◌else◌, ℕ_discrete,
}
use dev_browse.Prelude.Keys.{remove_key}
use dev_browse.Prelude.Map.{lookup, insert, erase, size}

abbrev pub max_entries_per_partition : ℕ
max_entries_per_partition = 256

abbrev pub max_positive_ttl : ℕ
max_positive_ttl = 24 * 60 * 60

abbrev pub max_negative_ttl : ℕ
max_negative_ttl = 60

abbrev pub nanos_per_sec : ℕ
nanos_per_sec = 1_000_000_000

abbrev pub u32_max : ℕ
u32_max = 4_294_967_295

pub data CachedOutcome (A E : Type 0) : Type 0 where
  positive : A → CachedOutcome A E
  negative : E → CachedOutcome A E

pub record CacheEntry (A E : Type 0) : Type 0 where
  pub outcome : CachedOutcome A E
  pub expires_at : ℕ

pub record ResolveResult (A : Type 0) : Type 0 where
  pub records : A
  pub ttl_seconds : ℕ

pub record PartitionEntries (K A E : Type 0) : Type 0 where
  pub entries : List (K × CacheEntry A E)
  pub order : List K

abbrev pub no_entries : {K A E : Type 0} → PartitionEntries K A E
no_entries = record { entries = []; order = [] }

pub record DnsCache (K A E : Type 0) : Type 0 where
  pub inner : List (ℕ × PartitionEntries K A E)

unfoldable pub new : {K A E : Type 0} → DnsCache K A E
new = record { inner = [] }

-- The entries of a partition; one that is not tracked has none.
abbrev pub or_default : {K A E : Type 0} → Option (PartitionEntries K A E) → PartitionEntries K A E
or_default none = no_entries
or_default (some p) = p

-- `expires_at.saturating_duration_since(now).as_secs()`, as a `u32`.
unfoldable pub remaining_secs : ℕ → ℕ → ℕ
remaining_secs expires_at now = min ((expires_at - now) / nanos_per_sec) u32_max

-- A key that is new to the map goes to the end of the queue.
abbrev pub push_if_new : {K A E : Type 0} → Option (CacheEntry A E) → K → List K → List K
push_if_new none k order = order ++ k ∷ []
push_if_new (some _) k order = order

abbrev pub partition : {K A E : Type 0} → DnsCache K A E → ℕ → PartitionEntries K A E
partition c p = or_default (lookup ℕ_discrete p c.inner)

abbrev pub answer : {A E : Type 0} → CachedOutcome A E → ℕ → Outcome E (ResolveResult A)
answer (positive records) remaining = ok (record { records = records; ttl_seconds = remaining })
answer (negative e) remaining = err e

module _ {K A E : Type 0} (dec : Discrete K) where
  -- The `while` loop of `evict_if_full`, on the queue that it pops from.
  unfoldable pub evict_from : List (K × CacheEntry A E) → List K → PartitionEntries K A E
  evict_from entries [] = record { entries = entries; order = [] }
  evict_from entries (k ∷ order) =
      let rest = evict_from (erase dec k entries) order in
      if leb max_entries_per_partition (size dec entries)
      then rest
      else record { entries = entries; order = k ∷ order }

  unfoldable pub evict_if_full : PartitionEntries K A E → PartitionEntries K A E
  unfolding evict_from
  evict_if_full p = evict_from p.entries p.order

  unfoldable pub insert_entry : PartitionEntries K A E → K → CacheEntry A E → PartitionEntries K A E
  insert_entry p k e = record {
    entries = insert dec k e p.entries;
    order = push_if_new (lookup dec k p.entries) k p.order;
  }

  unfoldable pub insert_in : PartitionEntries K A E → K → CacheEntry A E → PartitionEntries K A E
  unfolding evict_if_full insert_entry
  insert_in p k e = insert_entry (evict_if_full p) k e

  unfoldable pub cache_insert : DnsCache K A E → ℕ → K → CacheEntry A E → DnsCache K A E
  unfolding insert_in
  cache_insert c p k e = record c {
    inner = insert ℕ_discrete p (insert_in (partition c p) k e) c.inner;
  }

  unfoldable pub put_positive : DnsCache K A E → ℕ → K → ResolveResult A → ℕ → DnsCache K A E
  unfolding cache_insert
  put_positive c p k result now = cache_insert c p k (record {
    outcome = positive result.records;
    expires_at = now + min result.ttl_seconds max_positive_ttl * nanos_per_sec;
  })

  unfoldable pub put_negative : DnsCache K A E → ℕ → K → E → ℕ → DnsCache K A E
  unfolding cache_insert
  put_negative c p k e now =
      cache_insert c p k
        (record { outcome = negative e; expires_at = now + max_negative_ttl * nanos_per_sec })

  abbrev pub drop_expired : PartitionEntries K A E → K → PartitionEntries K A E
  drop_expired p k = record { entries = erase dec k p.entries; order = remove_key dec k p.order }

  -- `get` reads the clock twice: for the expiry test, and for the time that is left.
  unfoldable pub get :
      DnsCache K A E → ℕ → K → ℕ → ℕ → DnsCache K A E × Option (Outcome E (ResolveResult A))
  unfolding remaining_secs
  get c p k now later = elim (lookup ℕ_discrete p c.inner) [
    | none ↦ (c, none)
    | some part ↦ elim (lookup dec k part.entries) [
      | none ↦ (c, none)
      | some entry ↦
          if leb entry.expires_at now
          then (record c { inner = insert ℕ_discrete p (drop_expired part k) c.inner }, none)
          else (c, some (answer entry.outcome (remaining_secs entry.expires_at later)))
    ]
  ]

  unfoldable pub drop_partition : DnsCache K A E → ℕ → DnsCache K A E
  drop_partition c p = record c { inner = erase ℕ_discrete p c.inner }

  unfoldable pub len_for : DnsCache K A E → ℕ → ℕ
  len_for c p = size dec (partition c p).entries

  unfoldable pub partition_count : DnsCache K A E → ℕ
  partition_count c = size ℕ_discrete c.inner
