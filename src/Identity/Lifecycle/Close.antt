-- ===== src/Identity/Lifecycle/Close.antt =====
-- A tab leaves its renderer slot, or its record changes (`close_tab`, `suspend_tab` and
-- `resume_tab` of crates/pb-identity/src/lifecycle.rs).
use dev_browse.Prelude.{
  ℕ, ◌≡◌, inl, inr, true, false, List, arith, Option, none, some, ◌==◌, if◌then◌else◌, contains,
  without, contains-without, NoRepeat-without, length-without-le, Bool-cases, Option-cases, update,
  subst, ==_iff, is_empty,
}
use dev_browse.Identity.Scheduler.{RendererSlot}
use dev_browse.Identity.Lifecycle.{TabRecord}
use dev_browse.Identity.Lifecycle.Linked.{
  Slots, Tabs, Names, TabOk, Filled, SlotOk, Linked, slot_of, slot-Names,
}

module _ {slots : Slots} {tabs : Tabs} {nt nr : ℕ} (v : Linked slots tabs nt nr) where
  -- A recorded tab leaves its slot, and the slot goes with its last tab.
  module _ (t : ℕ) (r : TabRecord) (slot : RendererSlot) (there : tabs t ≡ some r)
      (home : slots r.renderer ≡ some slot) where
    abbrev left : List ℕ
    left = without t slot.tabs

    abbrev rest : Option RendererSlot
    rest = if is_empty left then none else some (record slot { tabs = left })

    abbrev tabs' : Tabs
    tabs' = update tabs t none

    abbrev slots' : Slots
    slots' = update slots r.renderer rest

    close-tab : (u : ℕ) → TabOk slots' nt u (tabs' u)
    unfolding contains
    close-tab u = ground (arith, v.tab_ok u, contains-without t u slot.tabs, home)

    left-Filled : is_empty left ≡ false → Filled (record slot { tabs = left })
    left-Filled h =
        let w = slot_of v r.renderer slot home in
        record {
          occupied = h;
          alone = λ e. ground (arith, w.1.alone e, length-without-le t slot.tabs);
          distinct = NoRepeat-without t slot.tabs w.1.distinct;
        }

    left-Names : (u : ℕ) → contains u left ≡ true → Names r.renderer (tabs' u)
    left-Names u h =
        ground (arith, contains-without t u slot.tabs, slot-Names v r.renderer slot u home)

    kept-Names :
        (i : ℕ) (s : RendererSlot)
        → slots i ≡ some s
        → (r.renderer == i) ≡ false
        → (u : ℕ) → contains u s.tabs ≡ true
        → Names i (tabs' u)
    kept-Names i s e away u h = ground (arith, slot-Names v i s u e h)

    close-slot : (i : ℕ) → SlotOk tabs' nr i (slots' i)
    close-slot i = elim (Bool-cases (r.renderer == i)) [
      | inl e ↦ rw e (
          subst (λ k. SlotOk tabs' nr k rest) ((==_iff _ _).0 e)
            (elim (Bool-cases (is_empty left)) [
              | inl gone ↦ rw gone tt
              | inr some_left ↦
                  rw some_left
                    ((slot_of v r.renderer slot home).0, left-Filled some_left, left-Names)
            ]))
      | inr e ↦ rw e (elim (Option-cases (slots i)) [
        | inl none_there ↦ rw none_there tt
        | inr (s, found) ↦
            let w = slot_of v i s found in rw found (w.0, w.1, kept-Names i s found e)
      ])
    ]

    pub close-Linked : Linked slots' tabs' nt nr
    close-Linked = record { tab_ok = close-tab; slot_ok = close-slot }

  -- A record changes, and keeps its profile and its renderer.
  module _ (t : ℕ) (r q : TabRecord) (there : tabs t ≡ some r)
      (same_profile : q.profile_id ≡ r.profile_id) (same_renderer : q.renderer ≡ r.renderer) where
    change-tab : (u : ℕ) → TabOk slots nt u (update tabs t (some q) u)
    change-tab u = ground (arith, v.tab_ok u, v.tab_ok t)

    change-Names : (i : ℕ) (u : ℕ) → Names i (tabs u) → Names i (update tabs t (some q) u)
    change-Names i u h = ground arith

    change-slot : (i : ℕ) → SlotOk (update tabs t (some q)) nr i (slots i)
    change-slot i = elim (Option-cases (slots i)) [
      | inl none_there ↦ rw none_there tt
      | inr (s, found) ↦
          let w = slot_of v i s found in rw found (w.0, w.1, λ u h. change-Names i u (w.2 u h))
    ]

    pub change-Linked : Linked slots (update tabs t (some q)) nt nr
    change-Linked = record { tab_ok = change-tab; slot_ok = change-slot }
