-- ===== src/Gpu/Coordinator/Epochs.antt =====
-- Scope tokens of crates/pb-gpu/src/coordinator.rs over a history of losses and recoveries.
use dev_browse.Prelude.{
  ℕ, suc, ◌+◌, ◌%◌, ◌<◌, ◌≡◌, ◌∙◌, List, [], ◌∷◌, arith, ok, err, ◌==◌, if◌then◌else◌, u64_end,
}
use dev_browse.Config.{Mode}
use dev_browse.Gpu.Coordinator.{
  ScopeToken, GpuCoordinator, stale_token, issue_scope_token, validate, on_adapter_loss,
  recover_after_loss,
}

pub data Event : Type 0 where
  loses recovers : Event

unfoldable pub step : GpuCoordinator → Event → GpuCoordinator
step c loses = on_adapter_loss c
step c recovers = recover_after_loss c

unfoldable pub run : GpuCoordinator → List Event → GpuCoordinator
run c [] = c
run c (e ∷ es) = run (step c e) es

unfoldable pub recovery_count : List Event → ℕ
recovery_count [] = 0
recovery_count (loses ∷ es) = recovery_count es
recovery_count (recovers ∷ es) = suc (recovery_count es)

run-epoch :
    (c : GpuCoordinator) (es : List Event)
    → c.epoch < u64_end
    → (run c es).epoch ≡ (c.epoch + recovery_count es) % u64_end
unfolding run step recovery_count on_adapter_loss recover_after_loss
run-epoch c [] h = omega arith
run-epoch c (loses ∷ es) h = run-epoch (on_adapter_loss c) es h
run-epoch c (recovers ∷ es) h = run-epoch (recover_after_loss c) es (omega arith) ∙ omega arith

-- Where the epoch is a `u64`, a token that was issued stays valid over any losses of the adapter, and
-- is stale from the first recovery on, for fewer than 2 ^ 64 recoveries.
pub validate-issue_scope_token :
    (c : GpuCoordinator) (pid : ℕ) (mode : Mode) (token : ScopeToken) (es : List Event)
    → c.epoch < u64_end
    → issue_scope_token c pid mode ≡ ok token
    → recovery_count es < u64_end
    → validate (run c es) token ≡ (if recovery_count es == 0 then ok tt else err stale_token)
unfolding validate issue_scope_token
validate-issue_scope_token c pid mode token es small issued few =
    let now = run-epoch c es small in
    let same : token.epoch ≡ c.epoch = ground arith in ground (arith, now, same)
