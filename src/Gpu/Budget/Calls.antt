-- ===== src/Gpu/Budget/Calls.antt =====
-- `try_allocate` of crates/pb-gpu/src/memory_budget.rs on a state of the invariant, by its
-- outcomes.
use dev_browse.Prelude.{
  ℕ, ◌+◌, ◌%◌, ◌≤◌, ◌<◌, ◌≡◌, refl, subst, ◌≢◌, ◌⊎◌, inl, inr, true, arith, ok, err, ltb, ◌==◌,
  ==_iff, contains-append_last, Bool-cases, u64_end, ℕ_discrete,
}
use dev_browse.Prelude.Map.{insert}
use dev_browse.Gpu.Coordinator.{ScopeToken}
use dev_browse.Gpu.Budget.{
  MemoryBudget, IdentityBucket, BudgetError, stale_token, zero_size, over_cap, evict, admit,
  try_allocate,
}
use dev_browse.Gpu.Budget.Accounts.{BucketOk, evict-Accounts, admit-Accounts}
use dev_browse.Gpu.Budget.Eviction.{evict-contains}
use dev_browse.Gpu.Budget.Isolation.{Inv, bucket_at, changed-Inv}

module _ (s : MemoryBudget) (v : Inv s) (token : ScopeToken) where
  abbrev cap_of : ℕ
  cap_of = s.profile.cap_bytes

  abbrev own : IdentityBucket
  own = bucket_at s token.profile_id

  -- The bucket after the eviction for a request.
  abbrev pub evicted : ℕ → IdentityBucket
  evicted size = (evict s.profile.cap_bytes size own.lru own.used_bytes own.sizes).0

  abbrev pub allocated : ℕ → MemoryBudget
  allocated size = record s {
    next_id = (s.next_id + 1) % u64_end;
    buckets = insert ℕ_discrete token.profile_id (admit (evicted size) s.next_id size) s.buckets;
  }

  module _ (size : ℕ) (fits : size ≤ s.profile.cap_bytes) where
    evicted_facts :
        BucketOk s.profile.cap_bytes s.next_id (evicted size)
        × ((evict s.profile.cap_bytes size own.lru own.used_bytes own.sizes).1 ≡ true)
        × ((evicted size).used_bytes + size ≤ s.profile.cap_bytes)
    evicted_facts =
        evict-Accounts s.profile.cap_bytes s.next_id size v.small own.lru own.used_bytes own.sizes
          fits (v.books token.profile_id)

    pub try_allocate-eq :
        0 < size
        → token.epoch ≡ s.epoch
        → try_allocate s token size ≡ (allocated size, ok s.next_id)
    unfolding try_allocate
    try_allocate-eq positive current = ground (arith, evicted_facts.1)

    pub allocated-Inv : s.next_id + 1 < u64_end → Inv (allocated size)
    unfolding admit
    allocated-Inv more =
        subst (λ n. Inv (record (allocated size) { next_id = n })) (omega arith)
          (changed-Inv s v token.profile_id (admit (evicted size) s.next_id size) (s.next_id + 1)
            (admit-Accounts s.profile.cap_bytes s.next_id size v.small (evicted size)
              evicted_facts.0 evicted_facts.2)
            (omega arith)
            (λ id h. ground (
              arith,
              contains-append_last id s.next_id (evicted size).lru,
              evict-contains s.profile.cap_bytes size v.small own.lru own.used_bytes own.sizes id,
            )))

  -- What `try_allocate` may come to.
  pub data Allocation (size : ℕ) : Type 0 where
    refused :
        (e : BudgetError)
        → (((e ≡ zero_size) × (size ≡ 0))
            ⊎ (((e ≡ over_cap) × (s.profile.cap_bytes < size))
                ⊎ ((e ≡ stale_token) × (token.epoch ≢ s.epoch))))
        → try_allocate s token size ≡ (s, err e)
        → Allocation size
    granted :
        0 < size
        → size ≤ s.profile.cap_bytes
        → token.epoch ≡ s.epoch
        → try_allocate s token size ≡ (allocated size, ok s.next_id)
        → Allocation size

  pub try_allocate-Allocation : (size : ℕ) → Allocation size
  unfolding try_allocate
  try_allocate-Allocation size = elim (Bool-cases (size == 0)) [
    | inl z ↦ refused zero_size (inl (refl, (==_iff size 0).0 z)) (ground arith)
    | inr pos ↦ elim (Bool-cases (ltb s.profile.cap_bytes size)) [
      | inl over ↦ refused over_cap (inr (inl (refl, ground arith))) (ground arith)
      | inr fine ↦ elim (Bool-cases (token.epoch == s.epoch)) [
        | inl now ↦
            let current = (==_iff token.epoch s.epoch).0 now in
            granted (ground arith) (ground arith) current
              (try_allocate-eq size (ground arith) (ground arith) current)
        | inr old ↦ refused stale_token (inr (inr (refl, λ e. ground arith))) (ground arith)
      ]
    ]
  ]
