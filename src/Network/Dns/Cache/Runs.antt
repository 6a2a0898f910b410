-- ===== src/Network/Dns/Cache/Runs.antt =====
-- Histories of calls of crates/pb-network/src/dns/cache.rs.
use dev_browse.Prelude.{
  ℕ, ◌≡◌, refl, sym, subst, List, [], ◌∷◌, arith, ite, none, ℕ_discrete, Option-cases, inl, inr,
  ◌≤◌,
}
use dev_browse.Prelude.Map.{
  lookup, insert, erase, lookup-erase, erase-Distinct, erase_absent, Distinct, size, total,
  total-erase,
}
use dev_browse.Prelude.Keys.{listed, listed-remove_key, Once-remove_key}
use dev_browse.Network.Dns.Cache.{
  CacheEntry, PartitionEntries, DnsCache, ResolveResult, new, or_default, partition, no_entries,
  cache_insert, put_positive, put_negative, drop_expired, get, drop_partition, insert_in,
}
use dev_browse.Network.Dns.Cache.Bounds.{PartitionOk, insert_in-PartitionOk}
use dev_browse.Network.Dns.Cache.Reads.{partition-set, get-Reading, absent, expired, live}

pub data Call (K A E : Type 0) : Type 0 where
  puts : ℕ → K → ResolveResult A → ℕ → Call K A E
  fails : ℕ → K → E → ℕ → Call K A E
  gets : ℕ → K → ℕ → ℕ → Call K A E
  drops : ℕ → Call K A E

module _ {K A E : Type 0} (dec : Discrete K) where
  unfoldable pub step : DnsCache K A E → Call K A E → DnsCache K A E
  step c (puts p k r now) = put_positive dec c p k r now
  step c (fails p k e now) = put_negative dec c p k e now
  step c (gets p k now later) = (get dec c p k now later).0
  step c (drops p) = drop_partition dec c p

  unfoldable pub run : DnsCache K A E → List (Call K A E) → DnsCache K A E
  run c [] = c
  run c (x ∷ xs) = run (step c x) xs

  abbrev CacheOk : DnsCache K A E → Type 0
  CacheOk c = (p : ℕ) → PartitionOk dec (partition c p)

  no_entries-PartitionOk : PartitionOk {A = A} {E = E} dec no_entries
  unfolding lookup listed size total
  no_entries-PartitionOk = record {
    tracked = record { keyed = tt; once = tt; same = λ k. refl };
    bounded = omega arith;
  }

  size-erase :
      (k : K) (m : List (K × CacheEntry A E))
      → Distinct dec m
      → size dec (erase dec k m) ≤ size dec m
  unfolding size
  size-erase k m d = elim (Option-cases (lookup dec k m)) [
    | inl h ↦ rw (erase_absent dec k m h) (omega arith)
    | inr (e, h) ↦ omega (arith, total-erase dec (λ _. 1) k e m d h)
  ]

  drop_expired-PartitionOk :
      (x : PartitionEntries K A E) (k : K)
      → PartitionOk dec x
      → PartitionOk dec (drop_expired dec x k)
  drop_expired-PartitionOk x k v = record {
    tracked = record {
      keyed = erase-Distinct dec k x.entries v.tracked.keyed;
      once = Once-remove_key dec k x.order v.tracked.once;
      same = λ j. ground (
        arith,
        v.tracked.same j,
        listed-remove_key dec k j x.order v.tracked.once,
        lookup-erase dec k j x.entries,
      );
    };
    bounded = omega (arith, v.bounded, size-erase k x.entries v.tracked.keyed);
  }

  set-CacheOk :
      (c : DnsCache K A E) (p : ℕ) (x : PartitionEntries K A E)
      → CacheOk c
      → PartitionOk dec x
      → CacheOk (record c { inner = insert ℕ_discrete p x c.inner })
  set-CacheOk c p x v w q =
      subst (PartitionOk dec) (sym (partition-set dec c p q x)) (chosen (ℕ_discrete p q))
    where
      chosen : (d : Dec (p ≡ q)) → PartitionOk dec (elim d [ yes _ ↦ x | no _ ↦ partition c q ])
      chosen (yes _) = w
      chosen (no _) = v q

  insert-CacheOk :
      (c : DnsCache K A E) (p : ℕ) (k : K) (e : CacheEntry A E)
      → CacheOk c
      → CacheOk (cache_insert dec c p k e)
  unfolding cache_insert
  insert-CacheOk c p k e v =
      set-CacheOk c p (insert_in dec (partition c p) k e) v
        (insert_in-PartitionOk dec (partition c p) k e (v p))

  get-CacheOk :
      (c : DnsCache K A E) (p : ℕ) (k : K) (now later : ℕ)
      → CacheOk c
      → CacheOk (get dec c p k now later).0
  get-CacheOk c p k now later v = elim (get-Reading dec c p k now later) [
    | absent _ g ↦ rw g v
    | expired _ _ _ g ↦ rw g (
        set-CacheOk c p (drop_expired dec (partition c p) k) v
          (drop_expired-PartitionOk (partition c p) k (v p)))
    | live _ _ _ g ↦ rw g v
  ]

  drop-CacheOk : (c : DnsCache K A E) (p : ℕ) → CacheOk c → CacheOk (drop_partition dec c p)
  unfolding drop_partition
  drop-CacheOk c p v q =
      subst (λ o. PartitionOk dec (or_default o)) (sym (lookup-erase ℕ_discrete p q c.inner))
        (chosen (ℕ_discrete p q))
    where
      chosen :
          (d : Dec (p ≡ q))
          → PartitionOk dec (or_default (ite d none (lookup ℕ_discrete q c.inner)))
      chosen (yes _) = no_entries-PartitionOk
      chosen (no _) = v q

  step-CacheOk : (c : DnsCache K A E) (x : Call K A E) → CacheOk c → CacheOk (step c x)
  unfolding step put_positive put_negative
  step-CacheOk c (puts p k r now) v = insert-CacheOk c p k _ v
  step-CacheOk c (fails p k e now) v = insert-CacheOk c p k _ v
  step-CacheOk c (gets p k now later) v = get-CacheOk c p k now later v
  step-CacheOk c (drops p) v = drop-CacheOk c p v

  run-CacheOk : (c : DnsCache K A E) (xs : List (Call K A E)) → CacheOk c → CacheOk (run c xs)
  unfolding run
  run-CacheOk c [] v = v
  run-CacheOk c (x ∷ xs) v = run-CacheOk (step c x) xs (step-CacheOk c x v)

  -- After any history of calls on an empty cache, every partition holds at most 256 entries, each
  -- query once, and its queue lists exactly the queries that it holds.
  pub run-PartitionOk :
      (xs : List (Call K A E)) (p : ℕ) → PartitionOk dec (partition (run new xs) p)
  unfolding new lookup
  run-PartitionOk xs p = run-CacheOk new xs (λ q. no_entries-PartitionOk) p
