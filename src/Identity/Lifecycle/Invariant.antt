-- ===== src/Identity/Lifecycle/Invariant.antt =====
-- The invariant of crates/pb-identity/src/lifecycle.rs, and the branches of `spawn_tab` on a state
-- where it holds.
use mathlib.Core.Path.{fun_ext}
use dev_browse.Prelude.{
  ℕ, ◌+◌, ◌≡◌, refl, true, false, List, [], ◌∷◌, arith, ok, err, panic, none, some, ltb, u64_end,
  contains, update, ℕ_discrete,
}
use dev_browse.Prelude.Map.{
  lookup, insert, erase, Distinct, lookup-insert, lookup-erase, lookup-insert_self,
}
use dev_browse.Identity.Profile.{IdentityProfile, strict}
use dev_browse.Identity.Registry.{ProfileRegistry, get}
use dev_browse.Identity.Scheduler.{
  RendererSlot, Scheduler, reuse, spawn_new, schedule, register_renderer,
}
use dev_browse.Identity.Scheduler.Sharing.{attach_tab-eq}
use dev_browse.Identity.Lifecycle.{
  spawn_decided, LifecycleManager, TabRecord, active, spawn_tab, spawn_reused, spawn_fresh,
  attach_to_existing, spawn_renderer, unknown_profile,
}
use dev_browse.Identity.Lifecycle.Linked.{Slots, Tabs, Linked}

abbrev pub slot_at : LifecycleManager → Slots
slot_at l i = lookup ℕ_discrete i l.scheduler.renderers

abbrev pub record_at : LifecycleManager → Tabs
record_at l t = lookup ℕ_discrete t l.tabs

-- A profile is kept under its own identifier.
abbrev pub Keyed : ProfileRegistry → Type 0
Keyed r = (id : ℕ) (p : IdentityProfile) → get r id ≡ some p → p.profile_id ≡ id

pub record Inv (l : LifecycleManager) : Type 0 where
  pub keyed : Keyed l.registry
  pub linked : Linked (slot_at l) (record_at l) l.next_tab_id l.next_renderer_id
  pub slots_distinct : Distinct ℕ_discrete l.scheduler.renderers
  pub tabs_distinct : Distinct ℕ_discrete l.tabs

-- The library's branch on a decision, as the test that the tables are changed by.
pub lookup-insert-update :
    {V : Type 0} (k : ℕ) (v : V) (m : List (ℕ × V))
    → (λ j. lookup ℕ_discrete j (insert ℕ_discrete k v m))
      ≡ update (λ j. lookup ℕ_discrete j m) k (some v)
lookup-insert-update k v m = fun_ext (λ j. ground (arith, lookup-insert ℕ_discrete k j v m))

pub lookup-erase-update :
    {V : Type 0} (k : ℕ) (m : List (ℕ × V))
    → (λ j. lookup ℕ_discrete j (erase ℕ_discrete k m)) ≡ update (λ j. lookup ℕ_discrete j m) k none
lookup-erase-update k m = fun_ext (λ j. ground (arith, lookup-erase ℕ_discrete k j m))

-- The record of a new tab.
abbrev pub new_record : ℕ → ℕ → TabRecord
new_record pid renderer = record {
  profile_id = pid;
  renderer = renderer;
  state = active;
  suspend_reason = none;
}

-- The state after a tab of profile `pid` has joined `slot` under `renderer`.
abbrev pub placed : LifecycleManager → ℕ → ℕ → RendererSlot → ℕ → LifecycleManager
placed l pid renderer slot next_renderer = record l {
  scheduler = record {
    renderers =
        insert ℕ_discrete renderer (record slot { tabs = l.next_tab_id ∷ slot.tabs })
          l.scheduler.renderers;
  };
  tabs = insert ℕ_discrete l.next_tab_id (new_record pid renderer) l.tabs;
  next_tab_id = l.next_tab_id + 1;
  next_renderer_id = next_renderer;
}

abbrev pub empty_slot : IdentityProfile → RendererSlot
empty_slot p = record { profile_id = p.profile_id; mode = p.mode; tabs = [] }

insert-insert :
    {V : Type 0} (k : ℕ) (v w : V) (m : List (ℕ × V))
    → insert ℕ_discrete k w (insert ℕ_discrete k v m) ≡ insert ℕ_discrete k w m
unfolding insert
insert-insert k v w [] = ground arith
insert-insert k v w ((j, u) ∷ m) = ground (arith, insert-insert k v w m)

module _ (l : LifecycleManager) (pid : ℕ) where
  -- An unknown profile is refused, and nothing changes.
  pub spawn_tab-unknown :
      get l.registry pid ≡ none → spawn_tab pid l ≡ (l, err (unknown_profile pid))
  unfolding spawn_tab
  spawn_tab-unknown h = rw (h, spawn_tab) refl

  module _ (p : IdentityProfile) (known : get l.registry pid ≡ some p) where
    pub spawn_tab-exhausted : ltb (l.next_tab_id + 1) u64_end ≡ false → spawn_tab pid l ≡ (l, panic)
    unfolding spawn_tab
    spawn_tab-exhausted h = rw (known, spawn_tab) (rw h refl)

    module _ (room : ltb (l.next_tab_id + 1) u64_end ≡ true) where
      pub spawn_tab-reused :
          (i : ℕ) (slot : RendererSlot)
          → schedule l.scheduler p ≡ reuse i
          → slot_at l i ≡ some slot
          → slot.profile_id ≡ p.profile_id
          → slot.mode ≡ p.mode
          → (slot.mode ≡ strict → slot.tabs ≡ [])
          → contains l.next_tab_id slot.tabs ≡ false
          → spawn_tab pid l
            ≡ (placed l pid i slot l.next_renderer_id, ok (attach_to_existing i l.next_tab_id pid))
      unfolding spawn_tab spawn_reused
      spawn_tab-reused i slot h there same mode alone new =
          ground (arith, attach_tab-eq l.scheduler i l.next_tab_id p slot there same mode alone new)

      pub spawn_tab-fresh_exhausted :
          schedule l.scheduler p ≡ spawn_new
          → ltb (l.next_renderer_id + 1) u64_end ≡ false
          → spawn_tab pid l ≡ (record l { next_tab_id = l.next_tab_id + 1 }, panic)
      unfolding spawn_tab spawn_fresh
      spawn_tab-fresh_exhausted h full =
          rw (known, spawn_tab) (rw (room, h, spawn_decided) (rw full))

      pub spawn_tab-fresh :
          schedule l.scheduler p ≡ spawn_new
          → ltb (l.next_renderer_id + 1) u64_end ≡ true
          → slot_at l l.next_renderer_id ≡ none
          → spawn_tab pid l ≡ (
            placed l pid l.next_renderer_id (empty_slot p) (l.next_renderer_id + 1),
            ok (spawn_renderer l.next_renderer_id l.next_tab_id pid p.mode),
          )
      unfolding spawn_tab spawn_fresh register_renderer contains
      spawn_tab-fresh h more free = ground (
        arith,
        attach_tab-eq registered l.next_renderer_id l.next_tab_id p (empty_slot p)
            (lookup-insert_self ℕ_discrete l.next_renderer_id (empty_slot p) l.scheduler.renderers)
            refl refl (λ _. refl) refl,
        insert-insert l.next_renderer_id (empty_slot p)
            (record (empty_slot p) { tabs = l.next_tab_id ∷ [] }) l.scheduler.renderers,
      )
        where
          registered : Scheduler
          registered = record {
            renderers = insert ℕ_discrete l.next_renderer_id (empty_slot p) l.scheduler.renderers;
          }
