-- ===== src/Tests/Gpu.antt =====
-- The theorems on crates/pb-gpu at concrete states and histories.
use dev_browse.Prelude.{ℕ, ◌≡◌, refl, none, List, [], ◌∷◌, arith, err, ℕ_discrete, contains}
use dev_browse.Prelude.Map.{lookup, insert}
use dev_browse.Config
use dev_browse.Gpu.Coordinator.{
  ScopeToken, GpuCoordinator, stale_token, validate, issue_scope_token, recover_after_loss,
}
use dev_browse.Gpu.Coordinator
use dev_browse.Gpu.Recovery.{recover_after_loss-refuses}
use dev_browse.Gpu.Coordinator.Epochs.{loses, recovers, validate-issue_scope_token, recovery_count}
use dev_browse.Gpu.Coordinator.Epochs
use dev_browse.Gpu.Queue.{QueueScheduler, submit, dequeue}
use dev_browse.Gpu.Queue
use dev_browse.Gpu.Queue.Rotation.{Rotates, buffers, new-Rotates}
use dev_browse.Gpu.Queue.Fairness.{Takes, dequeue-Takes}
use dev_browse.Gpu.Queue.Starvation.{
  Event, submits, dequeues, Serves, run-Rotates, run-Serves, dequeue_count,
}
use dev_browse.Gpu.Queue.Starvation
use dev_browse.Gpu.Budget.{
  MemoryBudget, BudgetProfile, try_allocate, touch, release, unknown_allocation,
}
use dev_browse.Gpu.Budget
use dev_browse.Gpu.Budget.Isolation.{Inv, bucket_at}
use dev_browse.Gpu.Budget.Guarantees.{
  AllocationOutcome, try_allocate-AllocationOutcome, calls-local, foreign_allocation,
}
use dev_browse.Gpu.Budget.Runs.{allocates, run-new-Inv, from_config-bounds}
use dev_browse.Gpu.Budget.Runs

abbrev first : ScopeToken
first = record { profile_id = 7; mode = Config.standard; epoch = 1 }

abbrev second : ScopeToken
second = record { profile_id = 8; mode = Config.strict; epoch = 1 }

-- Identity 7 has two buffers, identity 8 waits behind it with one.
abbrev submissions : List Event
submissions = submits first ∷ submits first ∷ submits second ∷ []

abbrev waiting : QueueScheduler
waiting = Starvation.run (Queue.new 1) submissions

waiting-Rotates : Rotates waiting
waiting-Rotates = run-Rotates (Queue.new 1) submissions (new-Rotates 1)

-- More submissions of identity 7 do not keep identity 8 from the second dequeue.
run-Serves_example :
    Serves 8 3 (dequeue (Starvation.run waiting (submits first ∷ dequeues ∷ submits first ∷ []))).1
unfolding Starvation.run Starvation.step submit Queue.new lookup insert ℕ_discrete buffers
    dequeue_count
run-Serves_example =
    run-Serves (submits first ∷ dequeues ∷ submits first ∷ []) waiting 1 8 3 waiting-Rotates
      ((λ e. omega arith, refl), refl) refl

dequeue-Takes_example : Takes (buffers waiting) (dequeue waiting).1 (buffers (dequeue waiting).0)
dequeue-Takes_example = dequeue-Takes waiting waiting-Rotates

abbrev hundred : BudgetProfile
hundred = record { cap_bytes = 100 }

abbrev allocations : List Runs.Call
allocations = allocates first 60 ∷ allocates second 50 ∷ []

abbrev held : MemoryBudget
held = Runs.run (Budget.new hundred 1) allocations

run-new-Inv_example : Inv held
run-new-Inv_example = run-new-Inv hundred 1 allocations (omega arith) (omega arith)

held-Inv : Inv held
held-Inv = run-new-Inv hundred 1 allocations (omega arith) (omega arith)

-- A request that fits the cap and not what is left evicts the identity's own allocation.
try_allocate-AllocationOutcome_example :
    AllocationOutcome held first held-Inv 70
      (try_allocate held first 70).0
      (try_allocate held first 70).1
unfolding Runs.run Runs.step try_allocate Budget.new lookup insert ℕ_discrete
try_allocate-AllocationOutcome_example =
    try_allocate-AllocationOutcome held first held-Inv 70 (omega arith)

try_allocate-evicts : (bucket_at (try_allocate held first 70).0 7).lru ≡ 3 ∷ []
unfolding try_allocate lookup Runs.run Runs.step Budget.new insert ℕ_discrete
try_allocate-evicts = refl

calls-local_example :
    ((size : ℕ) → bucket_at (try_allocate held first size).0 8 ≡ bucket_at held 8)
    × ((id : ℕ) → bucket_at (touch held first id).0 8 ≡ bucket_at held 8)
    × ((id : ℕ) → bucket_at (release held first id).0 8 ≡ bucket_at held 8)
calls-local_example = calls-local held first held-Inv 8 (λ e. omega arith)

foreign_allocation_example :
    (touch held first 2 ≡ (held, err unknown_allocation))
    × (release held first 2 ≡ (held, err unknown_allocation))
unfolding contains lookup Runs.run Runs.step try_allocate Budget.new insert ℕ_discrete
foreign_allocation_example = foreign_allocation held first held-Inv 8 2 refl (λ e. omega arith) refl

-- A token outlives a loss, and not the recovery.
validate-issue_scope_token_example :
    validate (Epochs.run Coordinator.new (loses ∷ recovers ∷ [])) first ≡ err stale_token
unfolding recovery_count Coordinator.new issue_scope_token
validate-issue_scope_token_example =
    validate-issue_scope_token Coordinator.new 7 Config.standard first (loses ∷ recovers ∷ [])
      (omega arith) refl (omega arith)

recover_after_loss-refuses_example :
    let e = (recover_after_loss Coordinator.new).epoch in
    let q = Queue.on_recovery waiting e in
    let b = Budget.on_recovery held e in
    (submit q first ≡ (q, err Queue.stale_token))
    × (try_allocate b first 10 ≡ (b, err Budget.stale_token))
    × (touch b first 1 ≡ (b, err Budget.stale_token))
    × (release b first 1 ≡ (b, err Budget.stale_token))
    × ((dequeue q).1 ≡ none)
unfolding Coordinator.new issue_scope_token Runs.run Runs.step try_allocate Budget.new lookup insert
    ℕ_discrete
recover_after_loss-refuses_example =
    recover_after_loss-refuses Coordinator.new waiting held 7 Config.standard first 10 1
      (omega arith) refl (omega arith) (omega arith)
