-- ===== src/Gpu/Budget/Runs.antt =====
-- Histories of calls of crates/pb-gpu/src/memory_budget.rs.
use dev_browse.Prelude.{
  ok, ℕ, suc, ◌+◌, ◌*◌, ◌<◌, ◌≤◌, ◌≡◌, min, max, List, [], ◌∷◌, arith, length, u64_end,
}
use dev_browse.Config.{Config, Mode, GpuConfig}
use dev_browse.Config.Loader.{validate}
use dev_browse.Config.Loader.Checked.{validate-cap}
use dev_browse.Gpu.Coordinator.{ScopeToken}
use dev_browse.Gpu.Budget.{
  MemoryBudget, BudgetProfile, from_config, clamp, try_allocate, touch, release, on_recovery, new,
}
use dev_browse.Gpu.Budget.Isolation.{Inv, new-Inv, on_recovery-Inv}
use dev_browse.Gpu.Budget.Calls.{refused, granted, try_allocate-Allocation}
use dev_browse.Gpu.Budget.Guarantees.{
  stale, missing, found, named-Named, touch-Inv, release-Inv, try_allocate-Inv,
}

pub data Call : Type 0 where
  allocates touches releases : ScopeToken → ℕ → Call
  recovers : ℕ → Call

unfoldable pub step : MemoryBudget → Call → MemoryBudget
step s (allocates token size) = (try_allocate s token size).0
step s (touches token id) = (touch s token id).0
step s (releases token id) = (release s token id).0
step s (recovers epoch) = on_recovery s epoch

unfoldable pub run : MemoryBudget → List Call → MemoryBudget
run s [] = s
run s (c ∷ cs) = run (step s c) cs

-- The number of the next allocation, `n` calls before the counter could wrap.
abbrev Room : ℕ → MemoryBudget → Type 0
Room n s = s.next_id + n + 1 < u64_end

step-Room : (s : MemoryBudget) (c : Call) (n : ℕ) → Inv s → Room (suc n) s → Room n (step s c)
unfolding step on_recovery
step-Room s (allocates token size) n v room = elim (try_allocate-Allocation s v token size) [
  | refused _ _ e ↦ rw (e, step) (omega arith)
  | granted _ _ _ e ↦ rw (e, step) (omega arith)
]
step-Room s (touches token id) n v room = elim (named-Named s v token id) [
  | stale _ e _ ↦ rw (e, step) (omega arith)
  | missing _ e _ ↦ rw (e, step) (omega arith)
  | found _ _ _ e _ ↦ rw (e, step) (omega arith)
]
step-Room s (releases token id) n v room = elim (named-Named s v token id) [
  | stale _ _ e ↦ rw (e, step) (omega arith)
  | missing _ _ e ↦ rw (e, step) (omega arith)
  | found _ _ _ _ e ↦ rw (e, step) (omega arith)
]
step-Room s (recovers epoch) n v room = omega arith

step-Inv : (s : MemoryBudget) (c : Call) → Inv s → s.next_id + 1 < u64_end → Inv (step s c)
unfolding step
step-Inv s (allocates token size) v room = try_allocate-Inv s token v size room
step-Inv s (touches token id) v room = touch-Inv s token v id
step-Inv s (releases token id) v room = release-Inv s token v id
step-Inv s (recovers epoch) v room = on_recovery-Inv s epoch v

run-Inv-from : (cs : List Call) (s : MemoryBudget) → Inv s → Room (length cs) s → Inv (run s cs)
unfolding run
run-Inv-from [] s v room = v
run-Inv-from (c ∷ cs) s v room =
    run-Inv-from cs (step s c) (step-Inv s c v (omega arith)) (step-Room s c (length cs) v room)

-- From a fresh budget with a cap below the largest `u64`, any history of fewer calls than would wrap
-- the counter leaves every bucket's used bytes equal to the sum of its sizes and within the cap,
-- and no allocation in two buckets.
pub run-new-Inv :
    (p : BudgetProfile) (epoch : ℕ) (cs : List Call)
    → p.cap_bytes + 1 < u64_end
    → length cs + 2 < u64_end
    → Inv (run (new p epoch) cs)
unfolding new
run-new-Inv p epoch cs small few =
    run-Inv-from cs (new p epoch) (new-Inv p epoch small) (omega arith)

-- A cap from the configuration is from 64 MiB to 4 GiB, whatever the configuration holds, and the
-- nearest to it.
pub from_config-bounds :
    (cfg : GpuConfig) (mode : Mode)
    → (64 * 1024 * 1024 ≤ (from_config cfg mode).cap_bytes)
      × ((from_config cfg mode).cap_bytes ≤ 4096 * 1024 * 1024)
      × ((from_config cfg mode).cap_bytes ≡ max 64 (min cfg.memory_cap_mib 4096) * 1024 * 1024)
unfolding from_config clamp
from_config-bounds cfg mode = (ground arith, ground arith, ground arith)

-- For a validated configuration the budget's cap is the configured one, unclamped.
pub from_config-validate :
    (cfg : Config) (mode : Mode)
    → validate cfg ≡ ok tt
    → (from_config cfg.gpu mode).cap_bytes ≡ cfg.gpu.memory_cap_mib * 1024 * 1024
unfolding from_config clamp
from_config-validate cfg mode h = ground (arith, validate-cap cfg h)
