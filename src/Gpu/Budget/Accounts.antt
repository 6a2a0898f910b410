-- ===== src/Gpu/Budget/Accounts.antt =====
-- The books of crates/pb-gpu/src/memory_budget.rs: what a bucket's fields have to agree on, and the
-- eviction loop, `touch` and `release` seen by them.
use dev_browse.Prelude.{
  ℕ, ◌+◌, ◌-◌, ◌≤◌, ◌<◌, ◌≡◌, refl, inl, inr, Bool, true, false, List, [], ◌∷◌, ◌++◌, arith, Option,
  none, some, ltb, contains, contains-append_last, contains-without, without, remove_first,
  remove_first-eq, NoRepeat-without, NoRepeat, NoRepeat-append_last, Bool-cases, Option-cases,
  u64_end, ℕ_discrete,
}
use dev_browse.Prelude.Map.{
  lookup, erase, Distinct, total, lookup-insert, lookup-erase, insert-Distinct, erase-Distinct,
  total-erase, total-insert_new,
}
use dev_browse.Gpu.Budget.{IdentityBucket, or_zero, saturating_add, evict, admit}

abbrev pub is_some {ℓ} : {A : Type ℓ} → Option A → Bool
is_some none = false
is_some (some _) = true

abbrev pub bytes : List (ℕ × ℕ) → ℕ
bytes m = total ℕ_discrete (λ n. n) m

-- The used bytes are the sum of the sizes, within the cap, and the recency list has each recorded
-- allocation once; all identifiers lie below the next one.
pub record Accounts (cap next used : ℕ) (lru : List ℕ) (sizes : List (ℕ × ℕ)) : Type 0 where
  pub summed : used ≡ bytes sizes
  pub capped : used ≤ cap
  pub keyed : Distinct ℕ_discrete sizes
  pub once : NoRepeat lru
  pub tracked : (id : ℕ) → contains id lru ≡ is_some (lookup ℕ_discrete id sizes)
  pub below : (id : ℕ) → contains id lru ≡ true → id < next

abbrev pub BucketOk : ℕ → ℕ → IdentityBucket → Type 0
BucketOk cap next b = Accounts cap next b.used_bytes b.lru b.sizes

no_bytes : (m : List (ℕ × ℕ)) → ((id : ℕ) → false ≡ is_some (lookup ℕ_discrete id m)) → bytes m ≡ 0
unfolding lookup total
no_bytes [] h = refl
no_bytes ((k, v) ∷ m) h = absurd (ground (arith, h k))

module _ (cap next size : ℕ) (small : cap + 1 < u64_end) where
  -- The oldest allocation goes.
  drop-Accounts :
      (used id : ℕ) (lru : List ℕ) (sizes : List (ℕ × ℕ))
      → Accounts cap next used (id ∷ lru) sizes
      → Accounts cap next
          (used - or_zero (lookup ℕ_discrete id sizes))
          lru
          (erase ℕ_discrete id sizes)
  unfolding contains
  drop-Accounts used id lru sizes a = elim (Option-cases (lookup ℕ_discrete id sizes)) [
    | inl e ↦ absurd (ground (arith, a.tracked id))
    | inr (v, e) ↦ record {
      summed = rw e (omega (arith, a.summed, total-erase ℕ_discrete (λ n. n) id v sizes a.keyed e));
      capped = omega (arith, a.capped);
      keyed = erase-Distinct ℕ_discrete id sizes a.keyed;
      once = a.once.1;
      tracked = λ j. ground (arith, a.tracked j, a.once.0, lookup-erase ℕ_discrete id j sizes);
      below = λ j h. ground (arith, a.below j);
    }
  ]

  -- The loop ends with room for the request, and never by its early return.
  pub evict-Accounts :
      (lru : List ℕ) (used : ℕ) (sizes : List (ℕ × ℕ))
      → size ≤ cap
      → Accounts cap next used lru sizes
      → BucketOk cap next (evict cap size lru used sizes).0
        × ((evict cap size lru used sizes).1 ≡ true)
        × ((evict cap size lru used sizes).0.used_bytes + size ≤ cap)
  unfolding evict contains
  evict-Accounts [] used sizes fits a =
      let empty : bytes sizes ≡ 0 = no_bytes sizes a.tracked in
      let none_used : used ≡ 0 = omega (arith, a.summed) in (a, ground arith, ground arith)
  evict-Accounts (id ∷ lru) used sizes fits a =
      let rest =
        evict-Accounts lru (used - or_zero (lookup ℕ_discrete id sizes)) (erase ℕ_discrete id sizes)
          fits (drop-Accounts used id lru sizes a) in
      elim (Bool-cases (ltb cap (saturating_add used size))) [
        | inl over ↦ rw over rest
        | inr fine ↦ rw fine (a, refl, ground arith)
      ]

  module _ (lru : List ℕ) (sizes : List (ℕ × ℕ)) (used : ℕ)
      (a : Accounts cap next used lru sizes) where
    not_listed : contains next lru ≡ false
    not_listed = elim (Bool-cases (contains next lru)) [
      | inl e ↦ absurd (omega (arith, a.below next e))
      | inr e ↦ e
    ]

    not_recorded : lookup ℕ_discrete next sizes ≡ none
    not_recorded = elim (Option-cases (lookup ℕ_discrete next sizes)) [
      | inl e ↦ e
      | inr (v, e) ↦ absurd (ground (arith, a.tracked next, not_listed))
    ]

  -- Recording an allocation under a number that no allocation has.
  pub admit-Accounts :
      (b : IdentityBucket)
      → BucketOk cap next b
      → b.used_bytes + size ≤ cap
      → BucketOk cap (next + 1) (admit b next size)
  unfolding admit
  admit-Accounts b a room =
      let fresh = not_listed b.lru b.sizes b.used_bytes a in
      let new = not_recorded b.lru b.sizes b.used_bytes a in
      record {
        summed =
            ground (arith, total-insert_new ℕ_discrete (λ n. n) next size b.sizes new, a.summed);
        capped = ground arith;
        keyed = insert-Distinct ℕ_discrete next size b.sizes a.keyed;
        once = NoRepeat-append_last next b.lru a.once fresh;
        tracked = λ j. ground (
          arith,
          a.tracked j,
          contains-append_last j next b.lru,
          lookup-insert ℕ_discrete next j size b.sizes,
        );
        below = λ j h. ground (arith, a.below j, contains-append_last j next b.lru);
      }

module _ (cap next : ℕ) (b : IdentityBucket) (a : BucketOk cap next b) (id : ℕ) where
  -- `touch` moves an allocation to the recent end.
  pub touch-Accounts :
      contains id b.lru ≡ true
      → BucketOk cap next (record b { lru = remove_first id b.lru ++ id ∷ [] })
  touch-Accounts h = record {
    summed = a.summed;
    capped = a.capped;
    keyed = a.keyed;
    once = rw (remove_first-eq id b.lru a.once) (
        NoRepeat-append_last id (without id b.lru) (NoRepeat-without id b.lru a.once)
          (ground (arith, contains-without id id b.lru)));
    tracked = λ j. rw (remove_first-eq id b.lru a.once) (
        ground (
          arith,
          a.tracked j,
          contains-append_last j id (without id b.lru),
          contains-without id j b.lru,
        ));
    below = λ j k. a.below j (
        ground (
          arith,
          remove_first-eq id b.lru a.once,
          contains-append_last j id (without id b.lru),
          contains-without id j b.lru,
        ));
  }

  -- `release` gives the bytes of the allocation back.
  pub release-Accounts :
      (v : ℕ)
      → lookup ℕ_discrete id b.sizes ≡ some v
      → BucketOk cap next (record {
        used_bytes = b.used_bytes - v;
        lru = remove_first id b.lru;
        sizes = erase ℕ_discrete id b.sizes;
      })
  release-Accounts v e = record {
    summed = omega (arith, a.summed, total-erase ℕ_discrete (λ n. n) id v b.sizes a.keyed e);
    capped = omega (arith, a.capped);
    keyed = erase-Distinct ℕ_discrete id b.sizes a.keyed;
    once = rw (remove_first-eq id b.lru a.once) (NoRepeat-without id b.lru a.once);
    tracked = λ j. rw (remove_first-eq id b.lru a.once) (
        ground
          (arith, a.tracked j, contains-without id j b.lru, lookup-erase ℕ_discrete id j b.sizes));
    below = λ j k.
        a.below j (ground (arith, remove_first-eq id b.lru a.once, contains-without id j b.lru));
  }
