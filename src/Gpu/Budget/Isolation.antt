-- ===== src/Gpu/Budget/Isolation.antt =====
-- The invariant of crates/pb-gpu/src/memory_budget.rs over all identities: the books of every
-- bucket, and the identifiers of different buckets.
use dev_browse.Prelude.{
  ℕ, ◌+◌, ◌≤◌, ◌<◌, ◌≡◌, refl, ◌⊎◌, inl, inr, Bool, true, List, arith, ◌==◌, if◌then◌else◌,
  contains, Bool-cases, u64_end, ℕ_discrete,
}
use dev_browse.Prelude.Map.{lookup, total, lookup-insert}
use dev_browse.Gpu.Budget.{
  MemoryBudget, IdentityBucket, bucket_or_new, empty_bucket, set_bucket, on_recovery, new,
  BudgetProfile,
}
use dev_browse.Gpu.Budget.Accounts.{Accounts, BucketOk}

abbrev pub bucket_at : MemoryBudget → ℕ → IdentityBucket
bucket_at s pid = bucket_or_new (lookup ℕ_discrete pid s.buckets)

abbrev pub holds : MemoryBudget → ℕ → ℕ → Bool
holds s pid id = contains id (bucket_at s pid).lru

pub record Inv (s : MemoryBudget) : Type 0 where
  pub small : s.profile.cap_bytes + 1 < u64_end
  pub books : (pid : ℕ) → BucketOk s.profile.cap_bytes s.next_id (bucket_at s pid)
  pub disjoint : (p q id : ℕ) → holds s p id ≡ true → holds s q id ≡ true → p ≡ q

empty-Accounts : (cap next : ℕ) → BucketOk cap next empty_bucket
unfolding contains lookup total
empty-Accounts cap next = record {
  summed = refl;
  capped = omega arith;
  keyed = tt;
  once = tt;
  tracked = λ id. refl;
  below = λ id h. cc;
}

pub new-Inv : (p : BudgetProfile) (epoch : ℕ) → p.cap_bytes + 1 < u64_end → Inv (new p epoch)
unfolding new lookup contains
new-Inv p epoch h = record {
  small = h;
  books = λ pid. empty-Accounts p.cap_bytes 1;
  disjoint = λ p q id h k. cc;
}

pub on_recovery-Inv : (s : MemoryBudget) (epoch : ℕ) → Inv s → Inv (on_recovery s epoch)
unfolding on_recovery lookup contains
on_recovery-Inv s epoch v = record {
  small = v.small;
  books = λ pid. empty-Accounts s.profile.cap_bytes s.next_id;
  disjoint = λ p q id h k. cc;
}

Accounts-mono :
    {cap m n used : ℕ} {lru : List ℕ} {sizes : List (ℕ × ℕ)}
    → m ≤ n
    → Accounts cap m used lru sizes
    → Accounts cap n used lru sizes
Accounts-mono h a = record {
  summed = a.summed;
  capped = a.capped;
  keyed = a.keyed;
  once = a.once;
  tracked = a.tracked;
  below = λ id k. omega (arith, a.below id k);
}

pub bucket_at-set :
    (s : MemoryBudget) (pid : ℕ) (b : IdentityBucket) (p : ℕ)
    → bucket_at (set_bucket s pid b) p ≡ (if pid == p then b else bucket_at s p)
bucket_at-set s pid b p = ground (arith, lookup-insert ℕ_discrete pid p b s.buckets)

-- A bucket changes, and gains at most the allocation of the next number.
module _ (s : MemoryBudget) (v : Inv s) (pid : ℕ) (b : IdentityBucket) (next : ℕ)
    (ok_b : BucketOk s.profile.cap_bytes next b) (grown : s.next_id ≤ next)
    (from : (id : ℕ) → contains id b.lru ≡ true → (holds s pid id ≡ true) ⊎ (id ≡ s.next_id)) where
  abbrev pub changed : MemoryBudget
  changed = record (set_bucket s pid b) { next_id = next }

  changed-books : (p : ℕ) → BucketOk s.profile.cap_bytes next (bucket_at changed p)
  changed-books p = elim (Bool-cases (pid == p)) [
    | inl e ↦ rw (bucket_at-set s pid b p) (rw e ok_b)
    | inr e ↦ rw (bucket_at-set s pid b p) (rw e (Accounts-mono grown (v.books p)))
  ]

  changed-disjoint : (p q id : ℕ) → holds changed p id ≡ true → holds changed q id ≡ true → p ≡ q
  changed-disjoint p q id h k = ground (
    arith,
    bucket_at-set s pid b p,
    bucket_at-set s pid b q,
    from id,
    v.disjoint p q id,
    v.disjoint pid q id,
    v.disjoint p pid id,
    (v.books p).below id,
    (v.books q).below id,
  )

  pub changed-Inv : Inv changed
  changed-Inv = record { small = v.small; books = changed-books; disjoint = changed-disjoint }
