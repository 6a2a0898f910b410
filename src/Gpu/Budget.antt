-- ===== src/Gpu/Budget.antt =====
-- crates/pb-gpu/src/memory_budget.rs: the memory that each identity holds, with eviction of the
-- least recently used allocations of the same identity. The mutex makes each method one step. An
-- `AllocationId` is its number; byte counts are `u64`, and `saturating_add` is written out.
pub mod Accounts
pub mod Eviction
pub mod Isolation
pub mod Calls
pub mod Guarantees
pub mod Runs
use dev_browse.Prelude.{
  ℕ, ◌+◌, ◌-◌, ◌*◌, ◌%◌, Bool, true, false, List, [], ◌∷◌, ◌++◌, Outcome, ok, err, Option, none,
  some, ltb, ◌==◌, if◌then◌else◌, remove_first, u64_end, ℕ_discrete,
}
use dev_browse.Prelude.Map.{lookup, insert, erase}
use dev_browse.Config.{Mode, GpuConfig}
use dev_browse.Gpu.Coordinator.{ScopeToken, GpuCoordinator}

pub record BudgetProfile : Type 0 where
  pub cap_bytes : ℕ

abbrev pub min_cap_mib : ℕ
min_cap_mib = 64

abbrev pub max_cap_mib : ℕ
max_cap_mib = 4096

unfoldable pub clamp : ℕ → ℕ → ℕ → ℕ
clamp x lo hi = if ltb x lo then lo else if ltb hi x then hi else x

unfoldable pub from_config : GpuConfig → Mode → BudgetProfile
unfolding clamp
from_config cfg mode = record {
  cap_bytes = clamp cfg.memory_cap_mib min_cap_mib max_cap_mib * 1024 * 1024;
}

pub data BudgetError : Type 0 where
  stale_token zero_size over_cap exhausted unknown_allocation : BudgetError

-- The front of `lru` is the least recently used allocation.
pub record IdentityBucket : Type 0 where
  pub used_bytes : ℕ
  pub lru : List ℕ
  pub sizes : List (ℕ × ℕ)

abbrev pub empty_bucket : IdentityBucket
empty_bucket = record { used_bytes = 0; lru = []; sizes = [] }

pub record MemoryBudget : Type 0 where
  pub profile : BudgetProfile
  pub epoch : ℕ
  pub next_id : ℕ
  pub buckets : List (ℕ × IdentityBucket)

unfoldable pub new : BudgetProfile → ℕ → MemoryBudget
new profile initial_epoch = record {
  profile = profile;
  epoch = initial_epoch;
  next_id = 1;
  buckets = [];
}

unfoldable pub from_coordinator : BudgetProfile → GpuCoordinator → MemoryBudget
unfolding new
from_coordinator profile c = new profile c.epoch

unfoldable pub saturating_add : ℕ → ℕ → ℕ
saturating_add a b = if ltb (a + b) u64_end then a + b else u64_end - 1

abbrev pub or_zero : Option ℕ → ℕ
or_zero none = 0
or_zero (some n) = n

-- The bucket of an identity; one that has never allocated has an empty one.
abbrev pub bucket_or_new : Option IdentityBucket → IdentityBucket
bucket_or_new none = empty_bucket
bucket_or_new (some b) = b

unfoldable pub used_bytes : MemoryBudget → ScopeToken → ℕ
used_bytes s token =
    if token.epoch == s.epoch
    then (bucket_or_new (lookup ℕ_discrete token.profile_id s.buckets)).used_bytes
    else 0

-- The eviction loop, on the list that it pops from; `false` is the early return of `Exhausted`.
unfoldable pub evict : ℕ → ℕ → List ℕ → ℕ → List (ℕ × ℕ) → IdentityBucket × Bool
unfolding saturating_add
evict cap size [] used sizes = (
  record { used_bytes = used; lru = []; sizes = sizes },
  if ltb cap (saturating_add used size) then false else true,
)
evict cap size (id ∷ lru) used sizes =
    let more =
      evict cap size lru (used - or_zero (lookup ℕ_discrete id sizes))
        (erase ℕ_discrete id sizes) in
    if ltb cap (saturating_add used size)
    then more
    else (record { used_bytes = used; lru = id ∷ lru; sizes = sizes }, true)

-- The bucket once the new allocation is recorded.
unfoldable pub admit : IdentityBucket → ℕ → ℕ → IdentityBucket
unfolding saturating_add
admit b id size = record {
  used_bytes = saturating_add b.used_bytes size;
  lru = b.lru ++ id ∷ [];
  sizes = insert ℕ_discrete id size b.sizes;
}

abbrev pub set_bucket : MemoryBudget → ℕ → IdentityBucket → MemoryBudget
set_bucket s pid b = record s { buckets = insert ℕ_discrete pid b s.buckets }

-- The end of `try_allocate`, on what the eviction has left.
unfoldable pub allocate_in :
    MemoryBudget → ℕ → ℕ → IdentityBucket → Bool → MemoryBudget × Outcome BudgetError ℕ
unfolding admit
allocate_in s pid size b false = (set_bucket s pid b, err exhausted)
allocate_in s pid size b true = (
  record (set_bucket s pid (admit b s.next_id size)) { next_id = (s.next_id + 1) % u64_end },
  ok s.next_id,
)

unfoldable pub try_allocate : MemoryBudget → ScopeToken → ℕ → MemoryBudget × Outcome BudgetError ℕ
unfolding evict allocate_in
try_allocate s token size =
    let bucket = bucket_or_new (lookup ℕ_discrete token.profile_id s.buckets) in
    let left = evict s.profile.cap_bytes size bucket.lru bucket.used_bytes bucket.sizes in
    if size == 0
    then (s, err zero_size)
    else if ltb s.profile.cap_bytes size
    then (s, err over_cap)
    else if token.epoch == s.epoch
    then allocate_in s token.profile_id size left.0 left.1
    else (s, err stale_token)

unfoldable pub touch : MemoryBudget → ScopeToken → ℕ → MemoryBudget × Outcome BudgetError (Unit {0})
touch s token id =
    if token.epoch == s.epoch
    then elim (lookup ℕ_discrete token.profile_id s.buckets) [
      | none ↦ (s, err unknown_allocation)
      | some b ↦ elim (lookup ℕ_discrete id b.sizes) [
        | none ↦ (s, err unknown_allocation)
        | some _ ↦ (
          set_bucket s token.profile_id (record b { lru = remove_first id b.lru ++ id ∷ [] }),
          ok tt,
        )
      ]
    ]
    else (s, err stale_token)

unfoldable pub release :
    MemoryBudget → ScopeToken → ℕ → MemoryBudget × Outcome BudgetError (Unit {0})
release s token id =
    if token.epoch == s.epoch
    then elim (lookup ℕ_discrete token.profile_id s.buckets) [
      | none ↦ (s, err unknown_allocation)
      | some b ↦ elim (lookup ℕ_discrete id b.sizes) [
        | none ↦ (s, err unknown_allocation)
        | some size ↦ (
          set_bucket s token.profile_id (record {
            used_bytes = b.used_bytes - size;
            lru = remove_first id b.lru;
            sizes = erase ℕ_discrete id b.sizes;
          }),
          ok tt,
        )
      ]
    ]
    else (s, err stale_token)

unfoldable pub on_recovery : MemoryBudget → ℕ → MemoryBudget
on_recovery s new_epoch = record s { epoch = new_epoch; buckets = [] }
