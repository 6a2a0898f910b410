-- ===== src/Identity/Suspension.antt =====
-- crates/pb-identity/src/suspension.rs: why a tab is suspended, what a renderer does then, and the
-- actions for the orchestrator.
use dev_browse.Prelude.{ℕ, Bool, true, Option, none}

pub data SuspendReason : Type 0 where
  user_requested background_idle memory_pressure : SuspendReason

pub record SuspensionPolicy : Type 0 where
  pub pause_js : Bool
  pub pause_timers : Bool
  pub pause_network : Bool
  pub pause_media : Bool
  pub preserve_dom : Bool
  pub max_suspended_seconds : Option ℕ

unfoldable pub default_policy : SuspensionPolicy
default_policy = record {
  pause_js = true;
  pause_timers = true;
  pause_network = true;
  pause_media = true;
  preserve_dom = true;
  max_suspended_seconds = none;
}

pub record SuspendAction : Type 0 where
  pub tab : ℕ
  pub renderer : ℕ
  pub reason : SuspendReason

pub record ResumeAction : Type 0 where
  pub tab : ℕ
  pub renderer : ℕ
