-- ===== src/Identity/Lifecycle/Closing.antt =====
-- `close_tab` of crates/pb-identity/src/lifecycle.rs: its outcomes, and the invariant after it.
use dev_browse.Prelude.{
  ℕ, ◌≡◌, sym, subst, inl, inr, true, false, arith, ok, err, none, some, if◌then◌else◌, is_empty,
  contains, without, Bool-cases, Option-cases, update, ℕ_discrete,
}
use dev_browse.Prelude.Map.{
  lookup, insert, erase, insert-Distinct, erase-Distinct, lookup-insert_self, erase-insert_self,
}
use dev_browse.Identity.Scheduler.{RendererSlot, detach_tab, retire_renderer, tab_count}
use dev_browse.Identity.Lifecycle.{
  LifecycleManager, TabRecord, close_tab, detach_only, detach_and_kill_renderer, unknown_tab,
}
use dev_browse.Identity.Lifecycle.Linked.{Slots, Linked, Homes, TabOk}
use dev_browse.Identity.Lifecycle.Close.{close-Linked}
use dev_browse.Identity.Lifecycle.Invariant.{
  Inv, slot_at, record_at, lookup-insert-update, lookup-erase-update,
}

abbrev pub left : ℕ → RendererSlot → RendererSlot
left t slot = record slot { tabs = without t slot.tabs }

-- The state after the last tab of a renderer has gone.
abbrev pub emptied : LifecycleManager → ℕ → ℕ → LifecycleManager
emptied l t renderer = record l {
  scheduler = record { renderers = erase ℕ_discrete renderer l.scheduler.renderers };
  tabs = erase ℕ_discrete t l.tabs;
}

-- The state after a tab has gone from a renderer that has others.
abbrev pub thinned : LifecycleManager → ℕ → ℕ → RendererSlot → LifecycleManager
thinned l t renderer slot = record l {
  scheduler = record { renderers = insert ℕ_discrete renderer (left t slot) l.scheduler.renderers };
  tabs = erase ℕ_discrete t l.tabs;
}

pub close_tab-unknown :
    (l : LifecycleManager) (t : ℕ) → record_at l t ≡ none → close_tab t l ≡ (l, err (unknown_tab t))
unfolding close_tab
close_tab-unknown l t h = ground arith

module _ (l : LifecycleManager) (t : ℕ) (r : TabRecord) (slot : RendererSlot)
    (there : record_at l t ≡ some r) (home : slot_at l r.renderer ≡ some slot)
    (member : contains t slot.tabs ≡ true) where
  pub close_tab-last :
      is_empty (without t slot.tabs) ≡ true
      → close_tab t l ≡ (emptied l t r.renderer, ok (detach_and_kill_renderer r.renderer t))
  unfolding close_tab detach_tab tab_count retire_renderer
  close_tab-last h = ground (
    arith,
    lookup-insert_self ℕ_discrete r.renderer (left t slot) l.scheduler.renderers,
    erase-insert_self ℕ_discrete r.renderer (left t slot) l.scheduler.renderers,
  )

  pub close_tab-others :
      is_empty (without t slot.tabs) ≡ false
      → close_tab t l ≡ (thinned l t r.renderer slot, ok (detach_only r.renderer t))
  unfolding close_tab detach_tab tab_count
  close_tab-others h =
      ground (arith, lookup-insert_self ℕ_discrete r.renderer (left t slot) l.scheduler.renderers)

  module _ (v : Inv l) where
    tables-Linked :
        (slots' : Slots)
        → slots'
          ≡ update
              (slot_at l)
              r.renderer
              (if is_empty (without t slot.tabs) then none else some (left t slot))
        → Linked slots'
            (λ j. lookup ℕ_discrete j (erase ℕ_discrete t l.tabs))
            l.next_tab_id
            l.next_renderer_id
    tables-Linked slots' e =
        subst
          (λ f.
            Linked f (λ j. lookup ℕ_discrete j (erase ℕ_discrete t l.tabs)) l.next_tab_id
              l.next_renderer_id)
          (sym e)
          (subst
            (λ g.
              Linked
                (update (slot_at l) r.renderer
                  (if is_empty (without t slot.tabs) then none else some (left t slot)))
                g l.next_tab_id l.next_renderer_id)
            (sym (lookup-erase-update t l.tabs)) (close-Linked v.linked t r slot there home))

    pub emptied-Inv : is_empty (without t slot.tabs) ≡ true → Inv (emptied l t r.renderer)
    emptied-Inv h = record {
      keyed = v.keyed;
      linked =
          tables-Linked (slot_at (emptied l t r.renderer))
            (rw h (lookup-erase-update r.renderer l.scheduler.renderers));
      slots_distinct = erase-Distinct ℕ_discrete r.renderer l.scheduler.renderers v.slots_distinct;
      tabs_distinct = erase-Distinct ℕ_discrete t l.tabs v.tabs_distinct;
    }

    pub thinned-Inv : is_empty (without t slot.tabs) ≡ false → Inv (thinned l t r.renderer slot)
    thinned-Inv h = record {
      keyed = v.keyed;
      linked =
          tables-Linked (slot_at (thinned l t r.renderer slot))
            (rw h (lookup-insert-update r.renderer (left t slot) l.scheduler.renderers));
      slots_distinct =
          insert-Distinct ℕ_discrete r.renderer (left t slot) l.scheduler.renderers
            v.slots_distinct;
      tabs_distinct = erase-Distinct ℕ_discrete t l.tabs v.tabs_distinct;
    }

-- The outcomes of `close_tab`.
pub data Closing (l : LifecycleManager) (t : ℕ) : Type 0 where
  unknown : record_at l t ≡ none → close_tab t l ≡ (l, err (unknown_tab t)) → Closing l t
  last :
      (r : TabRecord) (slot : RendererSlot)
      → record_at l t ≡ some r
      → slot_at l r.renderer ≡ some slot
      → contains t slot.tabs ≡ true
      → is_empty (without t slot.tabs) ≡ true
      → close_tab t l ≡ (emptied l t r.renderer, ok (detach_and_kill_renderer r.renderer t))
      → Closing l t
  others :
      (r : TabRecord) (slot : RendererSlot)
      → record_at l t ≡ some r
      → slot_at l r.renderer ≡ some slot
      → contains t slot.tabs ≡ true
      → is_empty (without t slot.tabs) ≡ false
      → close_tab t l ≡ (thinned l t r.renderer slot, ok (detach_only r.renderer t))
      → Closing l t

module _ (l : LifecycleManager) (v : Inv l) where
  homed :
      (t : ℕ) (r : TabRecord) → record_at l t ≡ some r → Homes t r.profile_id (slot_at l r.renderer)
  homed t r e = (subst (TabOk (slot_at l) l.next_tab_id t) e (v.linked.tab_ok t)).1

  -- The slot that a recorded tab stands in.
  pub home_of :
      (t : ℕ) (r : TabRecord)
      → record_at l t ≡ some r
      → (slot : RendererSlot) × (slot_at l r.renderer ≡ some slot)
        × (contains t slot.tabs ≡ true)
        × (slot.profile_id ≡ r.profile_id)
  home_of t r e = elim (Option-cases (slot_at l r.renderer)) [
    | inl h ↦ absurd (subst (Homes t r.profile_id) h (homed t r e))
    | inr (slot, h) ↦
        let w : Homes t r.profile_id (some slot) = subst (Homes t r.profile_id) h (homed t r e) in
        (slot, h, w.0, w.1)
  ]

  pub close_tab-Closing : (t : ℕ) → Closing l t
  close_tab-Closing t = elim (Option-cases (record_at l t)) [
    | inl e ↦ unknown e (close_tab-unknown l t e)
    | inr (r, e) ↦
        let (slot, home, member, _) = home_of t r e in
        elim (Bool-cases (is_empty (without t slot.tabs))) [
          | inl h ↦ last r slot e home member h (close_tab-last l t r slot e home member h)
          | inr h ↦ others r slot e home member h (close_tab-others l t r slot e home member h)
        ]
  ]

  pub close_tab-Inv : (t : ℕ) → Inv (close_tab t l).0
  close_tab-Inv t = elim (close_tab-Closing t) [
    | unknown _ e ↦ rw e v
    | last r slot there home member h e ↦ rw e (emptied-Inv l t r slot there home member v h)
    | others r slot there home member h e ↦ rw e (thinned-Inv l t r slot there home member v h)
  ]
