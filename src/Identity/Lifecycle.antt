-- ===== src/Identity/Lifecycle.antt =====
-- crates/pb-identity/src/lifecycle.rs: the tab state machine over the registry and the scheduler.
-- A method returns the state that it leaves, also when it fails. Minting an identifier past the
-- largest `u64` panics.
pub mod Linked
pub mod Place
pub mod Close
pub mod Invariant
pub mod Spawn
pub mod Closing
pub mod Suspending
pub mod Runs
pub mod Isolation
pub mod Binding
pub mod Abort
pub mod Pausing
use dev_browse.Prelude.{
  ℕ, ◌+◌, ◌^◌, ◌<◌, Bool, true, false, List, [], ◌∷◌, Outcome, ok, err, panic, Method, next, ◌>>=◌,
  ◌>>◌, u64_end, Option, none, some, ltb, ◌==◌, if◌then◌else◌, ℕ_discrete,
}
use dev_browse.Prelude.Map.{lookup, insert, erase, size}
use dev_browse.Identity.Profile.{IdentityProfile, Mode}
use dev_browse.Identity.Suspension.{SuspendReason, SuspendAction, ResumeAction}
use dev_browse.Identity.Registry.{ProfileRegistry, get}
use dev_browse.Identity.Scheduler
use dev_browse.Identity.Scheduler.{
  Scheduler, SchedulerError, RendererDecision, reuse, spawn_new, schedule, register_renderer,
  attach_tab, detach_tab, retire_renderer, tab_count,
}

pub data LifecycleError : Type 0 where
  unknown_profile unknown_tab no_state_change : ℕ → LifecycleError
  scheduler_error : SchedulerError → LifecycleError

pub data TabState : Type 0 where
  active suspended : TabState

-- Renderer, tab and profile, in this order.
pub data ProcessAction : Type 0 where
  attach_to_existing : ℕ → ℕ → ℕ → ProcessAction
  spawn_renderer : ℕ → ℕ → ℕ → Mode → ProcessAction

-- Renderer and tab.
pub data CloseAction : Type 0 where
  detach_only detach_and_kill_renderer : ℕ → ℕ → CloseAction

pub record TabRecord : Type 0 where
  pub profile_id : ℕ
  pub renderer : ℕ
  pub state : TabState
  pub suspend_reason : Option SuspendReason

pub record LifecycleManager : Type 0 where
  pub registry : ProfileRegistry
  pub scheduler : Scheduler
  pub tabs : List (ℕ × TabRecord)
  pub next_tab_id : ℕ
  pub next_renderer_id : ℕ

abbrev pub Lifecycle : Type 0 → Type 0
Lifecycle A = Method LifecycleManager LifecycleError A

unfoldable pub new : ProfileRegistry → LifecycleManager
unfolding Scheduler.new
new r = record {
  registry = r;
  scheduler = Scheduler.new;
  tabs = [];
  next_tab_id = 1;
  next_renderer_id = 1;
}

-- A field of the record under a tab.
abbrev field : {A : Type 0} → (TabRecord → A) → Option TabRecord → Option A
field f none = none
field f (some r) = some (f r)

unfoldable pub tab_state : LifecycleManager → ℕ → Option TabState
tab_state l tab = field (λ r. r.state) (lookup ℕ_discrete tab l.tabs)

unfoldable pub tab_renderer : LifecycleManager → ℕ → Option ℕ
tab_renderer l tab = field (λ r. r.renderer) (lookup ℕ_discrete tab l.tabs)

unfoldable pub tab_profile_id : LifecycleManager → ℕ → Option ℕ
tab_profile_id l tab = field (λ r. r.profile_id) (lookup ℕ_discrete tab l.tabs)

unfoldable pub tab_suspend_reason : LifecycleManager → ℕ → Option SuspendReason
tab_suspend_reason l tab = elim (lookup ℕ_discrete tab l.tabs) [
  | none ↦ none
  | some r ↦ r.suspend_reason
]

unfoldable pub mint_tab : Lifecycle ℕ
mint_tab l =
    if ltb (l.next_tab_id + 1) u64_end
    then (record l { next_tab_id = l.next_tab_id + 1 }, ok l.next_tab_id)
    else (l, panic)

unfoldable pub mint_renderer : Lifecycle ℕ
mint_renderer l =
    if ltb (l.next_renderer_id + 1) u64_end
    then (record l { next_renderer_id = l.next_renderer_id + 1 }, ok l.next_renderer_id)
    else (l, panic)

-- A call of the scheduler under `?`.
unfoldable pub on_scheduler : (Scheduler → Outcome SchedulerError Scheduler) → Lifecycle (Unit {0})
on_scheduler f l = elim (f l.scheduler) [
  | ok s ↦ (record l { scheduler = s }, ok tt)
  | err e ↦ (l, err (scheduler_error e))
  | panic ↦ (l, panic)
]

-- `self.tabs.insert` of a fresh, active record.
unfoldable pub record_tab : ℕ → ℕ → ℕ → Lifecycle (Unit {0})
record_tab tab pid renderer l = (record l { tabs = insert ℕ_discrete tab fresh l.tabs }, ok tt)
  where
    fresh : TabRecord
    fresh = record { profile_id = pid; renderer = renderer; state = active; suspend_reason = none }

abbrev pub return : {A : Type 0} → A → Lifecycle A
return a l = (l, ok a)

unfoldable pub spawn_reused : IdentityProfile → ℕ → ℕ → ℕ → Lifecycle ProcessAction
unfolding on_scheduler record_tab
spawn_reused p pid tab renderer = do
  on_scheduler (λ s. attach_tab s renderer tab p)
  record_tab tab pid renderer
  return (attach_to_existing renderer tab pid)

unfoldable pub spawn_fresh : IdentityProfile → ℕ → ℕ → Lifecycle ProcessAction
unfolding mint_renderer on_scheduler record_tab
spawn_fresh p pid tab = do
  renderer ← mint_renderer
  on_scheduler (λ s. register_renderer s renderer p)
  on_scheduler (λ s. attach_tab s renderer tab p)
  record_tab tab pid renderer
  return (spawn_renderer renderer tab pid p.mode)

-- The `match` on the scheduler's decision, on the state that has minted the tab.
unfoldable pub spawn_decided : IdentityProfile → ℕ → ℕ → Lifecycle ProcessAction
spawn_decided p pid tab l = elim (schedule l.scheduler p) [
  | reuse renderer ↦ spawn_reused p pid tab renderer l
  | spawn_new ↦ spawn_fresh p pid tab l
]

unfoldable pub spawn_tab : ℕ → Lifecycle ProcessAction
unfolding mint_tab spawn_decided
spawn_tab pid l = elim (get l.registry pid) [
  | none ↦ (l, err (unknown_profile pid))
  | some p ↦ (mint_tab >>= spawn_decided p pid) l
]

-- `remove` of the record under `ok_or`.
unfoldable pub take_record : ℕ → Lifecycle TabRecord
take_record tab l = elim (lookup ℕ_discrete tab l.tabs) [
  | none ↦ (l, err (unknown_tab tab))
  | some r ↦ (record l { tabs = erase ℕ_discrete tab l.tabs }, ok r)
]

-- `tab_count(renderer).expect(…)`.
unfoldable pub remaining_tabs : ℕ → Lifecycle ℕ
remaining_tabs renderer l = elim (tab_count l.scheduler renderer) [
  | none ↦ (l, panic)
  | some n ↦ (l, ok n)
]

unfoldable pub drop_second :
    Outcome SchedulerError (List ℕ × Scheduler) → Outcome SchedulerError Scheduler
drop_second (ok (tabs, s)) = ok s
drop_second (err e) = err e
drop_second panic = panic

-- The end of `close_tab`, by what is left in the renderer.
unfoldable pub close_renderer : ℕ → ℕ → ℕ → Lifecycle CloseAction
unfolding on_scheduler drop_second
close_renderer tab renderer remaining =
    if remaining == 0
    then (do
      on_scheduler (λ s. drop_second (retire_renderer s renderer))
      return (detach_and_kill_renderer renderer tab))
    else return (detach_only renderer tab)

unfoldable pub close_tab : ℕ → Lifecycle CloseAction
unfolding take_record on_scheduler remaining_tabs close_renderer
close_tab tab = do
  r ← take_record tab
  on_scheduler (λ s. detach_tab s r.renderer tab)
  n ← remaining_tabs r.renderer
  close_renderer tab r.renderer n

unfoldable pub abort_spawn : ℕ → Lifecycle CloseAction
unfolding close_tab
abort_spawn tab = close_tab tab

abbrev is_suspended : TabState → Bool
is_suspended active = false
is_suspended suspended = true

unfoldable pub suspend_tab : ℕ → SuspendReason → Lifecycle SuspendAction
suspend_tab tab reason l = elim (lookup ℕ_discrete tab l.tabs) [
  | none ↦ (l, err (unknown_tab tab))
  | some r ↦ if is_suspended r.state then (l, err (no_state_change tab)) else (
    record l {
      tabs =
          insert ℕ_discrete tab (record r { state = suspended; suspend_reason = some reason })
            l.tabs;
    },
    ok (record { tab = tab; renderer = r.renderer; reason = reason }),
  )
]

unfoldable pub resume_tab : ℕ → Lifecycle ResumeAction
resume_tab tab l = elim (lookup ℕ_discrete tab l.tabs) [
  | none ↦ (l, err (unknown_tab tab))
  | some r ↦
      if is_suspended r.state
      then (
        record l {
          tabs = insert ℕ_discrete tab (record r { state = active; suspend_reason = none }) l.tabs;
        },
        ok (record { tab = tab; renderer = r.renderer }),
      )
      else (l, err (no_state_change tab))
]
