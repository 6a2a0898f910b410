-- ===== src/Identity/Lifecycle/Spawn.antt =====
-- `spawn_tab` of crates/pb-identity/src/lifecycle.rs: its outcomes, and the invariant after it.
use dev_browse.Prelude.{
  ℕ, ◌+◌, ◌≤◌, ◌<◌, ◌≡◌, refl, sym, ◌∙◌, subst, inl, inr, true, false, [], ◌∷◌, arith, ok, err,
  panic, none, some, ltb, u64_end, Bool-cases, Option-cases, update, ℕ_discrete,
}
use dev_browse.Prelude.Map.{insert-Distinct}
use dev_browse.Identity.Profile.{IdentityProfile, standard, strict}
use dev_browse.Identity.Registry.{get}
use dev_browse.Identity.Scheduler.{RendererSlot, RendererDecision, reuse, spawn_new, schedule}
use dev_browse.Identity.Scheduler.Sharing.{schedule-Decides, Decides, Reusable}
use dev_browse.Identity.Lifecycle.{
  LifecycleManager, spawn_tab, attach_to_existing, spawn_renderer, unknown_profile,
}
use dev_browse.Identity.Lifecycle.Linked.{Linked, Offered, slot_of}
use dev_browse.Identity.Lifecycle.Place.{place-Linked, relax-Linked, unlisted}
use dev_browse.Identity.Lifecycle.Invariant.{
  Inv, slot_at, record_at, placed, new_record, empty_slot, lookup-insert-update, spawn_tab-unknown,
  spawn_tab-exhausted, spawn_tab-reused, spawn_tab-fresh, spawn_tab-fresh_exhausted,
}

-- The outcomes of `spawn_tab`: an unknown profile, a counter at its end, a tab that joins a
-- Standard renderer of its profile, and a tab with a renderer of its own.
pub data Spawn (l : LifecycleManager) (pid : ℕ) : Type 0 where
  unknown :
      get l.registry pid ≡ none → spawn_tab pid l ≡ (l, err (unknown_profile pid)) → Spawn l pid
  exhausted : ltb (l.next_tab_id + 1) u64_end ≡ false → spawn_tab pid l ≡ (l, panic) → Spawn l pid
  renderers_exhausted :
      ltb (l.next_renderer_id + 1) u64_end ≡ false
      → spawn_tab pid l ≡ (record l { next_tab_id = l.next_tab_id + 1 }, panic)
      → Spawn l pid
  joined :
      (i : ℕ) (slot : RendererSlot)
      → slot_at l i ≡ some slot
      → slot.mode ≡ standard
      → slot.profile_id ≡ pid
      → spawn_tab pid l
        ≡ (placed l pid i slot l.next_renderer_id, ok (attach_to_existing i l.next_tab_id pid))
      → Spawn l pid
  started :
      (p : IdentityProfile)
      → get l.registry pid ≡ some p
      → p.profile_id ≡ pid
      → slot_at l l.next_renderer_id ≡ none
      → spawn_tab pid l ≡ (
        placed l pid l.next_renderer_id (empty_slot p) (l.next_renderer_id + 1),
        ok (spawn_renderer l.next_renderer_id l.next_tab_id pid p.mode),
      )
      → Spawn l pid

module _ (l : LifecycleManager) (v : Inv l) where
  free_renderer : slot_at l l.next_renderer_id ≡ none
  free_renderer = elim (Option-cases (slot_at l l.next_renderer_id)) [
    | inl e ↦ e
    | inr (s, e) ↦ absurd (omega (arith, (slot_of v.linked l.next_renderer_id s e).0))
  ]

  module _ (pid : ℕ) where
    module _ (p : IdentityProfile) (known : get l.registry pid ≡ some p)
        (room : ltb (l.next_tab_id + 1) u64_end ≡ true) where
      decided :
          (d : RendererDecision)
          → schedule l.scheduler p ≡ d
          → Decides l.scheduler p d
          → Spawn l pid
      decided (reuse i) h (std, found) = elim (Option-cases (slot_at l i)) [
        | inl e ↦ absurd (subst (Reusable p.profile_id) e found)
        | inr (slot, e) ↦
            let fit : Reusable p.profile_id (some slot) = subst (Reusable p.profile_id) e found in
            joined i slot e fit.0 (fit.1 ∙ v.keyed pid p known) (
              spawn_tab-reused l pid p known room i slot h e fit.1 (fit.0 ∙ sym std)
                (λ k. cc (fit.0)) (unlisted v.linked i slot (subst (Offered slot) (sym e) refl)))
      ]
      decided spawn_new h _ = elim (Bool-cases (ltb (l.next_renderer_id + 1) u64_end)) [
        | inl more ↦
            started p known (v.keyed pid p known) free_renderer
              (spawn_tab-fresh l pid p known room h more free_renderer)
        | inr full ↦ renderers_exhausted full (spawn_tab-fresh_exhausted l pid p known room h full)
      ]

    pub spawn-Spawn : Spawn l pid
    spawn-Spawn = elim (Option-cases (get l.registry pid)) [
      | inl e ↦ unknown e (spawn_tab-unknown l pid e)
      | inr (p, known) ↦ elim (Bool-cases (ltb (l.next_tab_id + 1) u64_end)) [
        | inl room ↦
            decided p known room (schedule l.scheduler p) refl
              (schedule-Decides l.scheduler p v.slots_distinct)
        | inr full ↦ exhausted full (spawn_tab-exhausted l pid p known full)
      ]
    ]

    -- The state after a tab has joined a slot satisfies the invariant again.
    pub placed-Inv :
        (i : ℕ) (slot : RendererSlot) (next_renderer : ℕ)
        → Offered slot (slot_at l i)
        → (slot.mode ≡ strict → slot.tabs ≡ [])
        → slot.profile_id ≡ pid
        → l.next_renderer_id ≤ next_renderer
        → i < next_renderer
        → Inv (placed l pid i slot next_renderer)
    placed-Inv i slot nr' home lone same grown below = record {
      keyed = v.keyed;
      linked =
          subst (λ f. Linked f (record_at (placed l pid i slot nr')) (l.next_tab_id + 1) nr')
            (sym (lookup-insert-update i _ l.scheduler.renderers))
            (subst
              (λ g.
                Linked
                  (update (slot_at l) i (some (record slot { tabs = l.next_tab_id ∷ slot.tabs }))) g
                  (l.next_tab_id + 1) nr')
              (sym (lookup-insert-update l.next_tab_id _ l.tabs))
              (place-Linked v.linked slot (new_record pid i) nr' home lone same grown below));
      slots_distinct = insert-Distinct ℕ_discrete i _ l.scheduler.renderers v.slots_distinct;
      tabs_distinct = insert-Distinct ℕ_discrete l.next_tab_id _ l.tabs v.tabs_distinct;
    }

    -- Whatever it comes to, `spawn_tab` keeps the invariant.
    pub spawn_tab-Inv : Inv (spawn_tab pid l).0
    spawn_tab-Inv = elim spawn-Spawn [
      | unknown _ e ↦ rw e v
      | exhausted _ e ↦ rw e v
      | renderers_exhausted _ e ↦ rw e (record {
        keyed = v.keyed;
        linked = relax-Linked v.linked;
        slots_distinct = v.slots_distinct;
        tabs_distinct = v.tabs_distinct;
      })
      | joined i slot there std same e ↦ rw e (
          placed-Inv i slot l.next_renderer_id (subst (Offered slot) (sym there) refl) (λ k. cc std)
            same (omega arith) (slot_of v.linked i slot there).0)
      | started p known same free e ↦ rw e (
          placed-Inv l.next_renderer_id (empty_slot p) (l.next_renderer_id + 1)
            (subst (Offered (empty_slot p)) (sym free) refl) (λ _. refl) same (omega arith)
            (omega arith))
    ]
