-- ===== src/Identity/Lifecycle/Abort.antt =====
-- `abort_spawn` after `spawn_tab` in crates/pb-identity/src/lifecycle.rs.
use dev_browse.Prelude.{
  ℕ, ◌+◌, ◌≡◌, refl, sym, ap, subst, ◌⊎◌, inl, inr, true, false, [], ◌∷◌, arith, ok, none, some,
  is_empty, contains, without, without_absent, Bool-cases, ℕ_discrete,
}
use dev_browse.Prelude.Map.{lookup, insert, erase, lookup-insert, lookup-erase}
use dev_browse.Identity.Scheduler.{RendererSlot}
use dev_browse.Identity.Lifecycle.{LifecycleManager, spawn_tab, abort_spawn, ProcessAction}
use dev_browse.Identity.Lifecycle.Linked.{Offered, slot_of}
use dev_browse.Identity.Lifecycle.Place.{unrecorded, unlisted}
use dev_browse.Identity.Lifecycle.Invariant.{
  Inv, slot_at, record_at, placed, new_record, empty_slot,
}
use dev_browse.Identity.Lifecycle.Spawn.{Spawn, spawn-Spawn}
use dev_browse.Identity.Lifecycle.Closing.{close_tab-last, close_tab-others}

-- The same tabs, slots and profiles.
pub record SameTables (l m : LifecycleManager) : Type 0 where
  pub same_records : (t : ℕ) → record_at l t ≡ record_at m t
  pub same_slots : (i : ℕ) → slot_at l i ≡ slot_at m i
  pub same_registry : l.registry ≡ m.registry

module _ (l : LifecycleManager) (v : Inv l) (pid i : ℕ) (slot : RendererSlot) (nr : ℕ) where
  abbrev pub spawned : LifecycleManager
  spawned = placed l pid i slot nr

  spawned-record : record_at spawned l.next_tab_id ≡ some (new_record pid i)
  spawned-record =
      ground (arith, lookup-insert ℕ_discrete l.next_tab_id l.next_tab_id (new_record pid i) l.tabs)

  spawned-slot : slot_at spawned i ≡ some (record slot { tabs = l.next_tab_id ∷ slot.tabs })
  spawned-slot = ground (
    arith,
    lookup-insert ℕ_discrete i i (record slot { tabs = l.next_tab_id ∷ slot.tabs })
        l.scheduler.renderers,
  )

  spawned_left :
      contains l.next_tab_id slot.tabs ≡ false
      → without l.next_tab_id (l.next_tab_id ∷ slot.tabs) ≡ slot.tabs
  unfolding without
  spawned_left h = ground (arith, without_absent l.next_tab_id slot.tabs)

  -- Closing the tab that was just placed: its slot is again what it was, or goes.
  module _ (new : contains l.next_tab_id slot.tabs ≡ false)
      (home : (slot_at l i ≡ some slot) ⊎ ((slot_at l i ≡ none) × (slot.tabs ≡ [])))
      (held : (slot_at l i ≡ some slot) → is_empty slot.tabs ≡ false) where
    undone-record :
        (t : ℕ) → lookup ℕ_discrete t (erase ℕ_discrete l.next_tab_id spawned.tabs) ≡ record_at l t
    undone-record t = ground (
      arith,
      lookup-erase ℕ_discrete l.next_tab_id t spawned.tabs,
      lookup-insert ℕ_discrete l.next_tab_id t (new_record pid i) l.tabs,
      unrecorded v.linked,
    )

    joined : RendererSlot
    joined = record slot { tabs = l.next_tab_id ∷ slot.tabs }

    emptied-slot :
        is_empty slot.tabs ≡ true
        → (j : ℕ)
        → lookup ℕ_discrete j (erase ℕ_discrete i spawned.scheduler.renderers) ≡ slot_at l j
    unfolding joined
    emptied-slot h j = ground (
      arith,
      lookup-erase ℕ_discrete i j spawned.scheduler.renderers,
      lookup-insert ℕ_discrete i j joined l.scheduler.renderers,
      home,
      held,
    )

    thinned-slot :
        is_empty slot.tabs ≡ false
        → (j : ℕ)
        → lookup ℕ_discrete j (insert ℕ_discrete i slot spawned.scheduler.renderers) ≡ slot_at l j
    unfolding joined
    thinned-slot h j = ground (
      arith,
      lookup-insert ℕ_discrete i j slot spawned.scheduler.renderers,
      lookup-insert ℕ_discrete i j joined l.scheduler.renderers,
      home,
    )

    back : without l.next_tab_id joined.tabs ≡ slot.tabs
    unfolding joined
    back = spawned_left new

    member : contains l.next_tab_id joined.tabs ≡ true
    unfolding joined contains
    member = ground arith

    aborted : SameTables (abort_spawn l.next_tab_id spawned).0 l
    unfolding abort_spawn joined
    aborted = elim (Bool-cases (is_empty slot.tabs)) [
      | inl h ↦
          rw
            (close_tab-last spawned l.next_tab_id (new_record pid i) joined spawned-record
              spawned-slot member (rw back h))
            (record {
              same_records = undone-record;
              same_slots = emptied-slot h;
              same_registry = refl;
            })
      | inr h ↦
          rw
            (close_tab-others spawned l.next_tab_id (new_record pid i) joined spawned-record
              spawned-slot member (rw back h))
            (rw back (record {
              same_records = undone-record;
              same_slots = thinned-slot h;
              same_registry = refl;
            }))
    ]

-- On a state of the invariant, whenever `spawn_tab` succeeds, `abort_spawn` of the minted tab brings
-- back the tab table, the renderer slots and the registry as they were (the counters stay ahead).
pub abort_spawn-spawn_tab :
    (l : LifecycleManager) (pid : ℕ) {a : ProcessAction}
    → Inv l
    → (spawn_tab pid l).1 ≡ ok a
    → SameTables (abort_spawn l.next_tab_id (spawn_tab pid l).0).0 l
abort_spawn-spawn_tab l pid v done = elim (spawn-Spawn l v pid) [
  | Spawn.unknown _ e ↦ absurd (cc (ap (λ x. x.1) e))
  | Spawn.exhausted _ e ↦ absurd (cc (ap (λ x. x.1) e))
  | Spawn.renderers_exhausted _ e ↦ absurd (cc (ap (λ x. x.1) e))
  | Spawn.joined i slot there std same e ↦ rw e (
      aborted l v pid i slot l.next_renderer_id
        (unlisted v.linked i slot (subst (Offered slot) (sym there) refl)) (inl there)
        (λ h. (slot_of v.linked i slot h).1.occupied))
  | Spawn.started p known same free e ↦ rw e (
      aborted l v pid l.next_renderer_id (empty_slot p) (l.next_renderer_id + 1)
        (unlisted v.linked l.next_renderer_id (empty_slot p)
          (subst (Offered (empty_slot p)) (sym free) refl))
        (inr (free, refl)) (λ h. cc))
]
