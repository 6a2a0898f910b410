-- ===== src/Network/Dns/Cache/Bounds.antt =====
-- crates/pb-network/src/dns/cache.rs: the eviction queue against the cached keys, and the bound of
-- a partition.
use dev_browse.Prelude.{
  ◌+◌, ◌≤◌, ◌<◌, ◌≡◌, refl, inl, inr, Bool, true, false, List, [], ◌∷◌, arith, Option, none, some,
  leb, Bool-cases, Option-cases,
}
use dev_browse.Prelude.Keys.{listed, Once, listed-append_last, Once-append_last}
use dev_browse.Prelude.Map.{
  lookup, insert, erase, size, total, Distinct, lookup-insert, lookup-erase, insert-Distinct,
  erase-Distinct, total-insert_new, total-insert_old,
}
use dev_browse.Network.Dns.Cache.{
  CacheEntry, PartitionEntries, push_if_new, max_entries_per_partition, evict_from, insert_in,
}

abbrev pub is_some {ℓ} : {A : Type ℓ} → Option A → Bool
is_some none = false
is_some (some _) = true

module _ {K A E : Type 0} (dec : Discrete K) where
  -- The map has each key once, and the queue lists each key of the map once and no other.
  pub record Tracked (entries : List (K × CacheEntry A E)) (order : List K) : Type 0 where
    pub keyed : Distinct dec entries
    pub once : Once dec order
    pub same : (k : K) → listed dec k order ≡ is_some (lookup dec k entries)

  pub record PartitionOk (p : PartitionEntries K A E) : Type 0 where
    pub tracked : Tracked p.entries p.order
    pub bounded : size dec p.entries ≤ max_entries_per_partition

  no_entry :
      (m : List (K × CacheEntry A E))
      → ((k : K) → false ≡ is_some (lookup dec k m))
      → size dec m ≡ 0
  unfolding lookup size total
  no_entry [] h = refl
  no_entry ((k, v) ∷ m) h = absurd (ground (arith, h k))

  pop-Tracked :
      (k : K) (entries : List (K × CacheEntry A E)) (order : List K)
      → Tracked entries (k ∷ order)
      → Tracked (erase dec k entries) order
  unfolding listed
  pop-Tracked k entries order t = record {
    keyed = erase-Distinct dec k entries t.keyed;
    once = t.once.1;
    same = λ j. ground (arith, t.same j, t.once.0, lookup-erase dec k j entries);
  }

  -- The loop ends below the bound, with a queue that lists exactly what is left.
  pub evict_from-Tracked :
      (order : List K) (entries : List (K × CacheEntry A E))
      → Tracked entries order
      → Tracked (evict_from dec entries order).entries (evict_from dec entries order).order
        × (size dec (evict_from dec entries order).entries < max_entries_per_partition)
  unfolding evict_from listed
  evict_from-Tracked [] entries t = (t, omega (arith, no_entry entries t.same))
  evict_from-Tracked (k ∷ order) entries t =
      let rest = evict_from-Tracked order (erase dec k entries) (pop-Tracked k entries order t) in
      elim (Bool-cases (leb max_entries_per_partition (size dec entries))) [
        | inl full ↦ rw full rest
        | inr room ↦ rw room (t, ground arith)
      ]

  insert-Tracked :
      (k : K) (e : CacheEntry A E) (p : PartitionEntries K A E)
      → Tracked p.entries p.order
      → Tracked (insert dec k e p.entries) (push_if_new (lookup dec k p.entries) k p.order)
  insert-Tracked k e p t = elim (Option-cases (lookup dec k p.entries)) [
    | inl h ↦ rw h (record {
      keyed = insert-Distinct dec k e p.entries t.keyed;
      once = Once-append_last dec k p.order t.once (ground (arith, t.same k));
      same = λ j.
          ground (
            arith,
            t.same j,
            listed-append_last dec j k p.order,
            lookup-insert dec k j e p.entries,
          );
    })
    | inr (old, h) ↦ rw h (record {
      keyed = insert-Distinct dec k e p.entries t.keyed;
      once = t.once;
      same = λ j. ground (arith, t.same j, lookup-insert dec k j e p.entries);
    })
  ]

  size-insert :
      (k : K) (e : CacheEntry A E) (m : List (K × CacheEntry A E))
      → size dec (insert dec k e m) ≤ size dec m + 1
  unfolding size
  size-insert k e m = elim (Option-cases (lookup dec k m)) [
    | inl h ↦ omega (arith, total-insert_new dec (λ _. 1) k e m h)
    | inr (old, h) ↦ omega (arith, total-insert_old dec (λ _. 1) k e old m h)
  ]

  pub insert_in-PartitionOk :
      (p : PartitionEntries K A E) (k : K) (e : CacheEntry A E)
      → PartitionOk p
      → PartitionOk (insert_in dec p k e)
  unfolding insert_in
  insert_in-PartitionOk p k e ok_p =
      let left = evict_from-Tracked p.order p.entries ok_p.tracked in
      record {
        tracked = insert-Tracked k e (evict_from dec p.entries p.order) left.0;
        bounded = omega (arith, left.1, size-insert k e (evict_from dec p.entries p.order).entries);
      }
