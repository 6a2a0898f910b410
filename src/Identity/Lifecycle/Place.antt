-- ===== src/Identity/Lifecycle/Place.antt =====
-- A fresh tab joins a renderer slot (`spawn_tab` of crates/pb-identity/src/lifecycle.rs).
use dev_browse.Prelude.{
  ℕ, ◌+◌, ◌≤◌, ◌<◌, ◌≡◌, refl, inl, inr, true, false, [], ◌∷◌, arith, none, some, ◌==◌, contains,
  NoRepeat, Bool-cases, Option-cases, update, subst, ==_iff,
}
use dev_browse.Identity.Profile.{strict}
use dev_browse.Identity.Scheduler.{RendererSlot}
use dev_browse.Identity.Lifecycle.{TabRecord}
use dev_browse.Identity.Lifecycle.Linked.{
  Slots, Tabs, Names, TabOk, Filled, SlotOk, Linked, Offered, slot_of, slot-Names,
}

module _ {slots : Slots} {tabs : Tabs} {nt nr : ℕ} (v : Linked slots tabs nt nr) where
  pub unrecorded : tabs nt ≡ none
  unrecorded = elim (Option-cases (tabs nt)) [
    | inl e ↦ e
    | inr (r, e) ↦ ground (arith, v.tab_ok nt)
  ]

  pub unlisted :
      (i : ℕ) (slot : RendererSlot) → Offered slot (slots i) → contains nt slot.tabs ≡ false
  unfolding contains
  unlisted i slot home = elim (Bool-cases (contains nt slot.tabs)) [
    | inl e ↦ ground (arith, slot-Names v i slot nt, unrecorded)
    | inr e ↦ e
  ]

  -- An identifier that is minted and lost does no harm.
  relax-tab : (t : ℕ) → TabOk slots (nt + 1) t (tabs t)
  relax-tab t = ground (arith, v.tab_ok t)

  pub relax-Linked : Linked slots tabs (nt + 1) nr
  relax-Linked = record { tab_ok = relax-tab; slot_ok = v.slot_ok }

  -- A fresh tab joins a slot that is registered, or that is made for it.
  module _ (slot : RendererSlot) (r : TabRecord) (nr' : ℕ) (home : Offered slot (slots r.renderer))
      (lone : slot.mode ≡ strict → slot.tabs ≡ []) (same : slot.profile_id ≡ r.profile_id)
      (grown : nr ≤ nr') (below : r.renderer < nr') where
    abbrev joined : RendererSlot
    joined = record slot { tabs = nt ∷ slot.tabs }

    abbrev tabs' : Tabs
    tabs' = update tabs nt (some r)

    abbrev slots' : Slots
    slots' = update slots r.renderer (some joined)

    place-tab : (t : ℕ) → TabOk slots' (nt + 1) t (tabs' t)
    unfolding contains
    place-tab t = ground (arith, v.tab_ok t, home)

    joined-NoRepeat : NoRepeat slot.tabs
    joined-NoRepeat = elim (Option-cases (slots r.renderer)) [
      | inl e ↦ ground (arith, home)
      | inr (s, e) ↦ ground (arith, home, slot_of v r.renderer s e)
    ]

    joined-Filled : Filled joined
    joined-Filled = record {
      occupied = refl;
      alone = λ e. ground (arith, lone e);
      distinct = (unlisted r.renderer slot home, joined-NoRepeat);
    }

    joined-Names : (t : ℕ) → contains t joined.tabs ≡ true → Names r.renderer (tabs' t)
    unfolding contains
    joined-Names t h = ground (arith, home, slot-Names v r.renderer slot t)

    kept-Names :
        (i : ℕ) (s : RendererSlot)
        → slots i ≡ some s
        → (t : ℕ) → contains t s.tabs ≡ true
        → Names i (tabs' t)
    kept-Names i s e t h = ground (arith, slot-Names v i s t, unrecorded)

    place-slot : (i : ℕ) → SlotOk tabs' nr' i (slots' i)
    place-slot i = elim (Bool-cases (r.renderer == i)) [
      | inl e ↦ rw e (
          subst (λ k. SlotOk tabs' nr' k (some joined)) ((==_iff _ _).0 e)
            (below, joined-Filled, joined-Names))
      | inr e ↦ rw e (elim (Option-cases (slots i)) [
        | inl none_there ↦ rw none_there tt
        | inr (s, there) ↦
            let w = slot_of v i s there in rw there (omega arith, w.1, kept-Names i s there)
      ])
    ]

    pub place-Linked : Linked slots' tabs' (nt + 1) nr'
    place-Linked = record { tab_ok = place-tab; slot_ok = place-slot }
