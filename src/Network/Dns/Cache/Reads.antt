-- ===== src/Network/Dns/Cache/Reads.antt =====
-- What `get` of crates/pb-network/src/dns/cache.rs comes to: nothing stored, an entry past its
-- limit, or a live one.
use dev_browse.Prelude.{
  ℕ, ◌≤◌, ◌<◌, ◌≡◌, refl, inl, inr, arith, Option, none, some, leb, Bool-cases, Option-cases,
  ℕ_discrete,
}
use dev_browse.Prelude.Map.{lookup, insert, lookup-insert, lookup-insert_self, lookup-erase_self}
use dev_browse.Network.Dns.Cache.{
  CacheEntry, PartitionEntries, DnsCache, partition, remaining_secs, answer, evict_from, insert_in,
  cache_insert, drop_expired, get,
}

module _ {K A E : Type 0} (dec : Discrete K) where
  -- What the tables hold for a key of a partition.
  abbrev pub stored : DnsCache K A E → ℕ → K → Option (CacheEntry A E)
  stored c p k = lookup dec k (partition c p).entries

  pub partition-set :
      (c : DnsCache K A E) (p q : ℕ) (x : PartitionEntries K A E)
      → partition (record c { inner = insert ℕ_discrete p x c.inner }) q
        ≡ elim (ℕ_discrete p q) [ yes _ ↦ x | no _ ↦ partition c q ]
  partition-set c p q x = ground (arith, lookup-insert ℕ_discrete p q x c.inner)

  -- The call either finds nothing, or an entry past its time limit, or a live one.
  pub data Reading (c : DnsCache K A E) (p : ℕ) (k : K) (now later : ℕ) : Type 0 where
    absent : stored c p k ≡ none → get dec c p k now later ≡ (c, none) → Reading c p k now later
    expired :
        (e : CacheEntry A E)
        → stored c p k ≡ some e
        → e.expires_at ≤ now
        → get dec c p k now later ≡ (
          record c { inner = insert ℕ_discrete p (drop_expired dec (partition c p) k) c.inner },
          none,
        )
        → Reading c p k now later
    live :
        (e : CacheEntry A E)
        → stored c p k ≡ some e
        → now < e.expires_at
        → get dec c p k now later ≡ (c, some (answer e.outcome (remaining_secs e.expires_at later)))
        → Reading c p k now later

  pub get-Reading : (c : DnsCache K A E) (p : ℕ) (k : K) (now later : ℕ) → Reading c p k now later
  unfolding get lookup
  get-Reading c p k now later = elim (Option-cases (lookup ℕ_discrete p c.inner)) [
    | inl h ↦ absent (ground arith) (ground arith)
    | inr (part, h) ↦ elim (Option-cases (lookup dec k part.entries)) [
      | inl n ↦ absent (ground arith) (ground arith)
      | inr (e, there) ↦ elim (Bool-cases (leb e.expires_at now)) [
        | inl old ↦ expired e (ground arith) (ground arith) (ground arith)
        | inr fresh ↦ live e (ground arith) (ground arith) (ground arith)
      ]
    ]
  ]

  pub stored-cache_insert :
      (c : DnsCache K A E) (p : ℕ) (k : K) (e : CacheEntry A E)
      → stored (cache_insert dec c p k e) p k ≡ some e
  unfolding cache_insert insert_in
  stored-cache_insert c p k e = rw (partition-set c p p (insert_in dec (partition c p) k e)) (
      ground (
        arith,
        lookup-insert_self dec k e
            (evict_from dec (partition c p).entries (partition c p).order).entries,
      ))

  pub live-get :
      (c : DnsCache K A E) (p : ℕ) (k : K) (e : CacheEntry A E) (now later : ℕ)
      → stored c p k ≡ some e
      → now < e.expires_at
      → get dec c p k now later ≡ (c, some (answer e.outcome (remaining_secs e.expires_at later)))
  live-get c p k e now later there fresh = elim (get-Reading c p k now later) [
    | absent h _ ↦ absurd (cc)
    | expired e' h old _ ↦ absurd (ground arith)
    | live e' h _ g ↦ rw g (ground arith)
  ]

  pub dead-get :
      (c : DnsCache K A E) (p : ℕ) (k : K) (e : CacheEntry A E) (now later : ℕ)
      → stored c p k ≡ some e
      → e.expires_at ≤ now
      → ((get dec c p k now later).1 ≡ none) × (stored (get dec c p k now later).0 p k ≡ none)
  dead-get c p k e now later there old = elim (get-Reading c p k now later) [
    | absent h _ ↦ absurd (cc)
    | expired e' h _ g ↦ rw g (
      refl,
      rw (partition-set c p p (drop_expired dec (partition c p) k))
          (ground (arith, lookup-erase_self dec k (partition c p).entries)),
    )
    | live e' h fresh _ ↦ absurd (ground arith)
  ]
