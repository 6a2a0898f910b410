-- ===== src/Gpu/Recovery.antt =====
-- A recovery of the adapter over crates/pb-gpu/src: the coordinator moves to a new epoch, and the
-- queue and the budget adopt it.
use dev_browse.Prelude.{ℕ, ◌≤◌, ◌<◌, ◌≡◌, ◌≢◌, refl, arith, ok, err, none, u64_end}
use dev_browse.Config.{Mode}
use dev_browse.Gpu.Coordinator.{ScopeToken, GpuCoordinator, issue_scope_token, recover_after_loss}
use dev_browse.Gpu.Queue.{QueueScheduler, submit, dequeue, dequeue_from}
use dev_browse.Gpu.Queue
use dev_browse.Gpu.Budget.{MemoryBudget, try_allocate, touch, release}
use dev_browse.Gpu.Budget

module _ (c : GpuCoordinator) (q : QueueScheduler) (b : MemoryBudget) where
  abbrev pub new_epoch : ℕ
  unfolding recover_after_loss
  new_epoch = (recover_after_loss c).epoch

  outdated :
      (pid : ℕ) (mode : Mode) (token : ScopeToken)
      → c.epoch < u64_end
      → issue_scope_token c pid mode ≡ ok token
      → token.epoch ≢ new_epoch
  unfolding issue_scope_token new_epoch recover_after_loss
  outdated pid mode token small issued same = ground arith

  -- Where the epoch is a `u64`, once the coordinator has recovered and the queue and the budget have
  -- adopted its epoch, a token from before is refused by every call, with nothing changed, and no
  -- command from before is left to dequeue.
  pub recover_after_loss-refuses :
      (pid : ℕ) (mode : Mode) (token : ScopeToken) (size id : ℕ)
      → c.epoch < u64_end
      → issue_scope_token c pid mode ≡ ok token
      → 0 < size
      → size ≤ b.profile.cap_bytes
      → let e = (recover_after_loss c).epoch in
        let q' = Queue.on_recovery q e in
        let b' = Budget.on_recovery b e in
        (submit q' token ≡ (q', err Queue.stale_token))
        × (try_allocate b' token size ≡ (b', err Budget.stale_token))
        × (touch b' token id ≡ (b', err Budget.stale_token))
        × (release b' token id ≡ (b', err Budget.stale_token))
        × ((dequeue q').1 ≡ none)
  unfolding submit try_allocate touch release dequeue dequeue_from Queue.on_recovery
      Budget.on_recovery new_epoch
  recover_after_loss-refuses pid mode token size id small issued positive fits =
      let old = outdated pid mode token small issued in
      (ground (arith, old), ground (arith, old), ground (arith, old), ground (arith, old), refl)
