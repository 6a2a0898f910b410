-- ===== src/Gpu/Budget/Eviction.antt =====
-- The eviction loop of crates/pb-gpu/src/memory_budget.rs: which allocations it takes.
use dev_browse.Prelude.{
  ℕ, ◌+◌, ◌-◌, ◌<◌, ◌≡◌, refl, inl, inr, ap, true, List, [], ◌∷◌, ◌++◌, arith, ltb, contains,
  contains-append, Bool-cases, u64_end, ℕ_discrete,
}
use dev_browse.Prelude.Map.{lookup, erase}
use dev_browse.Gpu.Budget.{or_zero, saturating_add, evict}

-- The bytes in use and the sizes after the allocations of a list have gone, each at a time when the
-- request was too large for the room.
abbrev pub Needed : ℕ → ℕ → List ℕ → ℕ → List (ℕ × ℕ) → Type 0
Needed cap size [] used sizes = Unit {0}
Needed cap size (id ∷ gone) used sizes =
    (cap < used + size)
    × Needed cap size gone (used - or_zero (lookup ℕ_discrete id sizes)) (erase ℕ_discrete id sizes)

-- The old recency list is the evicted allocations, then the kept ones.
pub record Evicts (cap size : ℕ) (lru : List ℕ) (used : ℕ) (sizes : List (ℕ × ℕ)) (kept : List ℕ)
    : Type 0 where
  pub gone : List ℕ
  pub split : lru ≡ gone ++ kept
  pub needed : Needed cap size gone used sizes

module _ (cap size : ℕ) (small : cap + 1 < u64_end) where
  pub evict-Evicts :
      (lru : List ℕ) (used : ℕ) (sizes : List (ℕ × ℕ))
      → Evicts cap size lru used sizes (evict cap size lru used sizes).0.lru
  unfolding evict
  evict-Evicts [] used sizes = record { gone = []; split = refl; needed = tt }
  evict-Evicts (id ∷ lru) used sizes =
      let rest =
        evict-Evicts lru (used - or_zero (lookup ℕ_discrete id sizes))
          (erase ℕ_discrete id sizes) in
      elim (Bool-cases (ltb cap (saturating_add used size))) [
        | inl over ↦ rw over (record {
          gone = id ∷ rest.gone;
          split = ap (◌∷◌ id) rest.split;
          needed = (ground arith, rest.needed);
        })
        | inr fine ↦ rw fine (record { gone = []; split = refl; needed = tt })
      ]

  -- What is kept was there.
  pub evict-contains :
      (lru : List ℕ) (used : ℕ) (sizes : List (ℕ × ℕ)) (id : ℕ)
      → contains id (evict cap size lru used sizes).0.lru ≡ true
      → contains id lru ≡ true
  evict-contains lru used sizes id h =
      let e = evict-Evicts lru used sizes in
      rw e.split (ground (arith, contains-append id e.gone (evict cap size lru used sizes).0.lru))
