-- ===== src/Gpu/Budget/Guarantees.antt =====
-- The calls of crates/pb-gpu/src/memory_budget.rs seen by one identity: the cap, its own
-- allocations, and those of others.
use dev_browse.Prelude.{
  ℕ, ◌+◌, ◌-◌, ◌≤◌, ◌<◌, ◌≡◌, refl, ◌≢◌, ◌⊎◌, inl, inr, true, false, List, [], ◌∷◌, ◌++◌, arith,
  Outcome, ok, err, panic, some, ◌==◌, contains, contains-append_last, contains-without, without,
  remove_first, remove_first-eq, Bool-cases, Option-cases, u64_end, ℕ_discrete,
}
use dev_browse.Prelude.Map.{lookup, erase, lookup-insert_self}
use dev_browse.Gpu.Coordinator.{ScopeToken}
use dev_browse.Gpu.Budget.{
  MemoryBudget, IdentityBucket, BudgetError, stale_token, zero_size, over_cap, exhausted,
  unknown_allocation, set_bucket, admit, try_allocate, touch, release,
}
use dev_browse.Gpu.Budget.Accounts.{touch-Accounts, release-Accounts}
use dev_browse.Gpu.Budget.Eviction.{Evicts, evict-Evicts}
use dev_browse.Gpu.Budget.Isolation.{Inv, bucket_at, holds, bucket_at-set, changed-Inv}
use dev_browse.Gpu.Budget.Calls.{
  evicted, allocated, allocated-Inv, refused, granted, try_allocate-Allocation,
}

-- The bucket after a `touch`, and after a `release`.
abbrev pub touched : IdentityBucket → ℕ → IdentityBucket
touched b id = record b { lru = remove_first id b.lru ++ id ∷ [] }

abbrev pub released : IdentityBucket → ℕ → ℕ → IdentityBucket
released b id size = record {
  used_bytes = b.used_bytes - size;
  lru = remove_first id b.lru;
  sizes = erase ℕ_discrete id b.sizes;
}

module _ (s : MemoryBudget) (v : Inv s) (token : ScopeToken) (id : ℕ) where
  -- The two calls that name an allocation: refused, with nothing changed, or done on its bucket.
  pub data Named : Type 0 where
    stale :
        token.epoch ≢ s.epoch
        → touch s token id ≡ (s, err stale_token)
        → release s token id ≡ (s, err stale_token)
        → Named
    missing :
        holds s token.profile_id id ≡ false
        → touch s token id ≡ (s, err unknown_allocation)
        → release s token id ≡ (s, err unknown_allocation)
        → Named
    found :
        (size : ℕ)
        → lookup ℕ_discrete id (bucket_at s token.profile_id).sizes ≡ some size
        → holds s token.profile_id id ≡ true
        → touch s token id
          ≡ (set_bucket s token.profile_id (touched (bucket_at s token.profile_id) id), ok tt)
        → release s token id
          ≡ (set_bucket s token.profile_id (released (bucket_at s token.profile_id) id size), ok tt)
        → Named

  pub named-Named : Named
  unfolding touch release lookup
  named-Named = elim (Bool-cases (token.epoch == s.epoch)) [
    | inr old ↦ stale (λ e. ground arith) (ground arith) (ground arith)
    | inl now ↦ elim (Option-cases (lookup ℕ_discrete token.profile_id s.buckets)) [
      | inl e ↦
          missing (ground (arith, (v.books token.profile_id).tracked id)) (ground arith)
            (ground arith)
      | inr (b, e) ↦ elim (Option-cases (lookup ℕ_discrete id b.sizes)) [
        | inl h ↦
            missing (ground (arith, (v.books token.profile_id).tracked id)) (ground arith)
              (ground arith)
        | inr (size, h) ↦
            found size (ground arith) (ground (arith, (v.books token.profile_id).tracked id))
              (ground arith) (ground arith)
      ]
    ]
  ]

-- Identifiers that a change of the recency list may leave.
module _ (s : MemoryBudget) (v : Inv s) (pid id : ℕ) where
  moved_from :
      (j : ℕ)
      → contains id (bucket_at s pid).lru ≡ true
      → contains j (remove_first id (bucket_at s pid).lru ++ id ∷ []) ≡ true
      → holds s pid j ≡ true
  moved_from j h k = ground (
    arith,
    remove_first-eq id (bucket_at s pid).lru (v.books pid).once,
    contains-append_last j id (without id (bucket_at s pid).lru),
    contains-without id j (bucket_at s pid).lru,
  )

  removed_from :
      (j : ℕ) → contains j (remove_first id (bucket_at s pid).lru) ≡ true → holds s pid j ≡ true
  removed_from j k = ground (
    arith,
    remove_first-eq id (bucket_at s pid).lru (v.books pid).once,
    contains-without id j (bucket_at s pid).lru,
  )

module _ (s : MemoryBudget) (token : ScopeToken) (v : Inv s) where
  pub touch-Inv : (id : ℕ) → Inv (touch s token id).0
  touch-Inv id = elim (named-Named s v token id) [
    | stale _ e _ ↦ rw e v
    | missing _ e _ ↦ rw e v
    | found size _ h e _ ↦ rw e (
        changed-Inv s v token.profile_id (touched (bucket_at s token.profile_id) id) s.next_id
          (touch-Accounts s.profile.cap_bytes s.next_id (bucket_at s token.profile_id)
            (v.books token.profile_id) id h)
          (omega arith) (λ j k. inl (moved_from s v token.profile_id id j h k)))
  ]

  pub release-Inv : (id : ℕ) → Inv (release s token id).0
  release-Inv id = elim (named-Named s v token id) [
    | stale _ _ e ↦ rw e v
    | missing _ _ e ↦ rw e v
    | found size there h _ e ↦ rw e (
        changed-Inv s v token.profile_id (released (bucket_at s token.profile_id) id size) s.next_id
          (release-Accounts s.profile.cap_bytes s.next_id (bucket_at s token.profile_id)
            (v.books token.profile_id) id size there)
          (omega arith) (λ j k. inl (removed_from s v token.profile_id id j k)))
  ]

  pub try_allocate-Inv : (size : ℕ) → s.next_id + 1 < u64_end → Inv (try_allocate s token size).0
  try_allocate-Inv size more = elim (try_allocate-Allocation s v token size) [
    | refused _ _ e ↦ rw e v
    | granted _ fits _ e ↦ rw e (allocated-Inv s v token size fits more)
  ]

  set_elsewhere :
      (b : IdentityBucket) (p : ℕ)
      → p ≢ token.profile_id
      → bucket_at (set_bucket s token.profile_id b) p ≡ bucket_at s p
  set_elsewhere b p other = ground (arith, bucket_at-set s token.profile_id b p)

  -- On a state of the invariant no call under one identity's token changes the bucket of another.
  pub calls-local :
      (p : ℕ)
      → p ≢ token.profile_id
      → ((size : ℕ) → bucket_at (try_allocate s token size).0 p ≡ bucket_at s p)
        × ((id : ℕ) → bucket_at (touch s token id).0 p ≡ bucket_at s p)
        × ((id : ℕ) → bucket_at (release s token id).0 p ≡ bucket_at s p)
  calls-local p other = (
    λ size. elim (try_allocate-Allocation s v token size) [
      | refused _ _ e ↦ rw e
      | granted _ _ _ e ↦
          rw e (set_elsewhere (admit (evicted s v token size) s.next_id size) p other)
    ],
    λ id. elim (named-Named s v token id) [
      | stale _ e _ ↦ rw e
      | missing _ e _ ↦ rw e
      | found _ _ _ e _ ↦ rw e (set_elsewhere (touched (bucket_at s token.profile_id) id) p other)
    ],
    λ id. elim (named-Named s v token id) [
      | stale _ _ e ↦ rw e
      | missing _ _ e ↦ rw e
      | found size _ _ _ e ↦
          rw e (set_elsewhere (released (bucket_at s token.profile_id) id size) p other)
    ],
  )

  -- On a state of the invariant a token of another identity cannot touch or release an allocation:
  -- the calls fail and change nothing.
  pub foreign_allocation :
      (p id : ℕ)
      → holds s p id ≡ true
      → p ≢ token.profile_id
      → token.epoch ≡ s.epoch
      → (touch s token id ≡ (s, err unknown_allocation))
        × (release s token id ≡ (s, err unknown_allocation))
  foreign_allocation p id h other current = elim (named-Named s v token id) [
    | stale old _ _ ↦ absurd (old current)
    | missing _ e e' ↦ (e, e')
    | found _ _ k _ _ ↦ absurd (other (v.disjoint p token.profile_id id h k))
  ]

  -- What a granted request leaves, and why one is refused.
  abbrev pub AllocationOutcome : ℕ → MemoryBudget → Outcome BudgetError ℕ → Type 0
  AllocationOutcome size s' (ok id) =
      (id ≡ s.next_id)
      × (lookup ℕ_discrete id (bucket_at s' token.profile_id).sizes ≡ some size)
      × ((bucket_at s' token.profile_id).used_bytes ≤ s.profile.cap_bytes)
      × ((kept : List ℕ) × ((bucket_at s' token.profile_id).lru ≡ kept ++ id ∷ [])
          × Evicts s.profile.cap_bytes size (bucket_at s token.profile_id).lru
              (bucket_at s token.profile_id).used_bytes (bucket_at s token.profile_id).sizes kept)
  AllocationOutcome size s' (err zero_size) = (size ≡ 0) × (s' ≡ s)
  AllocationOutcome size s' (err over_cap) = (s.profile.cap_bytes < size) × (s' ≡ s)
  AllocationOutcome size s' (err stale_token) = (token.epoch ≢ s.epoch) × (s' ≡ s)
  AllocationOutcome size s' (err exhausted) = ⊥
  AllocationOutcome size s' (err unknown_allocation) = ⊥
  AllocationOutcome size s' panic = ⊥

  granted-outcome :
      (size : ℕ)
      → 0 < size
      → size ≤ s.profile.cap_bytes
      → s.next_id + 1 < u64_end
      → AllocationOutcome size (allocated s v token size) (ok s.next_id)
  unfolding admit
  granted-outcome size positive fits more =
      let here =
        bucket_at-set s token.profile_id (admit (evicted s v token size) s.next_id size)
          token.profile_id in
      let own = ((allocated-Inv s v token size fits more).books token.profile_id).capped in
      (
        refl,
        ground (
          arith,
          here,
          lookup-insert_self ℕ_discrete s.next_id size (evicted s v token size).sizes,
        ),
        own,
        (
          (evicted s v token size).lru,
          ground (arith, here),
          evict-Evicts s.profile.cap_bytes size v.small (bucket_at s token.profile_id).lru
              (bucket_at s token.profile_id).used_bytes (bucket_at s token.profile_id).sizes,
        ),
      )

  refused-outcome :
      (size : ℕ) (e : BudgetError)
      → (((e ≡ zero_size) × (size ≡ 0))
          ⊎ (((e ≡ over_cap) × (s.profile.cap_bytes < size))
              ⊎ ((e ≡ stale_token) × (token.epoch ≢ s.epoch))))
      → AllocationOutcome size s (err e)
  refused-outcome size e (inl (k, h)) = rw k (h, refl)
  refused-outcome size e (inr (inl (k, h))) = rw k (h, refl)
  refused-outcome size e (inr (inr (k, h))) = rw k (h, refl)

  -- On a state of the invariant whose counter does not wrap, `try_allocate` never panics and never
  -- reports exhaustion. It grants the next number, with the size recorded, the bytes within the cap
  -- and the new allocation most recent, after evicting the oldest allocations of the same identity,
  -- each while the request did not fit; or it refuses a zero size, a size over the cap or a stale
  -- token, and changes nothing.
  pub try_allocate-AllocationOutcome :
      (size : ℕ)
      → s.next_id + 1 < u64_end
      → AllocationOutcome size (try_allocate s token size).0 (try_allocate s token size).1
  try_allocate-AllocationOutcome size more = elim (try_allocate-Allocation s v token size) [
    | refused k why e ↦ rw e (refused-outcome size k why)
    | granted positive fits _ e ↦ rw e (granted-outcome size positive fits more)
  ]
