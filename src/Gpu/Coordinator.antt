-- ===== src/Gpu/Coordinator.antt =====
-- crates/pb-gpu/src/coordinator.rs: the adapter's availability and the epoch that scope tokens are
-- checked against. The mutex makes each method one step.
use dev_browse.Prelude.{
  ℕ, ◌+◌, ◌%◌, Bool, true, false, Outcome, ok, err, ◌==◌, if◌then◌else◌, u64_end,
}
pub mod Epochs
use dev_browse.Config.{Mode}

-- `AdapterDescriptor` and its `GpuLimits` are constants that no method reads.
pub record ScopeToken : Type 0 where
  pub profile_id : ℕ
  pub mode : Mode
  pub epoch : ℕ

pub data CoordinatorError : Type 0 where
  stale_token adapter_unavailable : CoordinatorError

pub record GpuCoordinator : Type 0 where
  pub epoch : ℕ
  pub available : Bool

unfoldable pub new : GpuCoordinator
new = record { epoch = 1; available = true }

unfoldable pub issue_scope_token : GpuCoordinator → ℕ → Mode → Outcome CoordinatorError ScopeToken
issue_scope_token c pid mode =
    if c.available
    then ok (record { profile_id = pid; mode = mode; epoch = c.epoch })
    else err adapter_unavailable

unfoldable pub validate : GpuCoordinator → ScopeToken → Outcome CoordinatorError (Unit {0})
validate c token = if token.epoch == c.epoch then ok tt else err stale_token

unfoldable pub on_adapter_loss : GpuCoordinator → GpuCoordinator
on_adapter_loss c = record c { available = false }

-- `wrapping_add(1)` on a `u64`.
unfoldable pub recover_after_loss : GpuCoordinator → GpuCoordinator
recover_after_loss c = record { epoch = (c.epoch + 1) % u64_end; available = true }
