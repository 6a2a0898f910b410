-- ===== src/Network/Dns/Cache/Guarantees.antt =====
-- The contract of crates/pb-network/src/dns/cache.rs: time limits and the separation of partitions.
use dev_browse.Prelude.{
  ℕ, ◌+◌, ◌*◌, ◌≤◌, ◌<◌, ◌≡◌, ◌≢◌, min, arith, none, some, ok, err, ℕ_discrete,
}
use dev_browse.Prelude.Map.{insert, lookup-erase}
use dev_browse.Network.Dns.Cache.{
  CacheEntry, PartitionEntries, DnsCache, ResolveResult, positive, negative, partition,
  max_positive_ttl, max_negative_ttl, nanos_per_sec, remaining_secs, cache_insert, put_positive,
  put_negative, drop_expired, get, drop_partition,
}
use dev_browse.Network.Dns.Cache.Reads.{
  stored, partition-set, absent, expired, live, get-Reading, stored-cache_insert, live-get,
  dead-get,
}

remaining_bound :
    (ttl t later : ℕ) → t ≤ later → remaining_secs (t + ttl * nanos_per_sec) later ≤ ttl
unfolding remaining_secs
remaining_bound ttl t later h = omega arith

module _ {K A E : Type 0} (dec : Discrete K) where
  abbrev result_entry : ResolveResult A → ℕ → CacheEntry A E
  result_entry r t = record {
    outcome = positive r.records;
    expires_at = t + min r.ttl_seconds max_positive_ttl * nanos_per_sec;
  }

  abbrev error_entry : E → ℕ → CacheEntry A E
  error_entry e t = record {
    outcome = negative e;
    expires_at = t + max_negative_ttl * nanos_per_sec;
  }

  -- A positive result stored at time `t` is answered, in its partition and for its query, by a read
  -- next after it at any later time before its limit (its TTL, 24 hours at most), with no longer TTL
  -- than that, where the clock does not go back.
  pub get-put_positive :
      (c : DnsCache K A E) (p : ℕ) (k : K) (r : ResolveResult A) (t now later : ℕ)
      → t ≤ now
      → now ≤ later
      → now < t + min r.ttl_seconds max_positive_ttl * nanos_per_sec
      → let c' = put_positive dec c p k r t in
        (n : ℕ) × (n ≤ min r.ttl_seconds max_positive_ttl)
        × (get dec c' p k now later
            ≡ (c', some (ok (record { records = r.records; ttl_seconds = n }))))
  unfolding put_positive
  get-put_positive c p k r t now later h h' fresh =
      let entry = result_entry r t in
      (
        remaining_secs entry.expires_at later,
        remaining_bound (min r.ttl_seconds max_positive_ttl) t later (omega arith),
        live-get dec (cache_insert dec c p k entry) p k entry now later
            (stored-cache_insert dec c p k entry) fresh,
      )

  -- From its limit on, a positive result is not answered by a read next after its storing, and the
  -- read removes its entry.
  pub get-put_positive_late :
      (c : DnsCache K A E) (p : ℕ) (k : K) (r : ResolveResult A) (t now later : ℕ)
      → t + min r.ttl_seconds max_positive_ttl * nanos_per_sec ≤ now
      → let after = get dec (put_positive dec c p k r t) p k now later in
        (after.1 ≡ none) × (stored dec after.0 p k ≡ none)
  unfolding put_positive
  get-put_positive_late c p k r t now later old =
      dead-get dec (cache_insert dec c p k (result_entry r t)) p k (result_entry r t) now later
        (stored-cache_insert dec c p k (result_entry r t)) old

  -- An error stored at time `t` is answered by a read next after it for 60 seconds, whatever the error
  -- is.
  pub get-put_negative :
      (c : DnsCache K A E) (p : ℕ) (k : K) (e : E) (t now later : ℕ)
      → now < t + 60 * nanos_per_sec
      → let c' = put_negative dec c p k e t in get dec c' p k now later ≡ (c', some (err e))
  unfolding put_negative
  get-put_negative c p k e t now later fresh =
      live-get dec (cache_insert dec c p k (error_entry e t)) p k (error_entry e t) now later
        (stored-cache_insert dec c p k (error_entry e t)) fresh

  -- From 60 seconds on, an error is not answered by a read next after its storing, and the read
  -- removes its entry.
  pub get-put_negative_late :
      (c : DnsCache K A E) (p : ℕ) (k : K) (e : E) (t now later : ℕ)
      → t + 60 * nanos_per_sec ≤ now
      → let after = get dec (put_negative dec c p k e t) p k now later in
        (after.1 ≡ none) × (stored dec after.0 p k ≡ none)
  unfolding put_negative
  get-put_negative_late c p k e t now later old =
      dead-get dec (cache_insert dec c p k (error_entry e t)) p k (error_entry e t) now later
        (stored-cache_insert dec c p k (error_entry e t)) old

  elsewhere :
      (c : DnsCache K A E) (p q : ℕ) (x : PartitionEntries K A E)
      → q ≢ p
      → partition (record c { inner = insert ℕ_discrete p x c.inner }) q ≡ partition c q
  elsewhere c p q x ne = ground (arith, partition-set dec c p q x)

  -- Architecture L33: storing, reading or dropping in one partition leaves every other partition as
  -- it is.
  pub partitions_separate :
      (c : DnsCache K A E) (p q : ℕ) (k : K)
      → q ≢ p
      → ((r : ResolveResult A) (t : ℕ) → partition (put_positive dec c p k r t) q ≡ partition c q)
        × ((e : E) (t : ℕ) → partition (put_negative dec c p k e t) q ≡ partition c q)
        × ((now later : ℕ) → partition (get dec c p k now later).0 q ≡ partition c q)
        × (partition (drop_partition dec c p) q ≡ partition c q)
  unfolding put_positive put_negative cache_insert drop_partition
  partitions_separate c p q k ne = (
    λ r t. elsewhere c p q _ ne,
    λ e t. elsewhere c p q _ ne,
    λ now later. elim (get-Reading dec c p k now later) [
      | absent _ g ↦ rw g
      | expired _ _ _ g ↦ rw g (elsewhere c p q (drop_expired dec (partition c p) k) ne)
      | live _ _ _ g ↦ rw g
    ],
    ground (arith, lookup-erase ℕ_discrete p q c.inner),
  )
