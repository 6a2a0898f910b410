-- ===== src/Identity/Lifecycle/Linked.antt =====
-- What ties the tab table of crates/pb-identity/src/lifecycle.rs to the renderer slots of
-- scheduler.rs, over the two tables seen as functions.
use dev_browse.Prelude.{
  ℕ, ◌≤◌, ◌<◌, ◌≡◌, true, false, [], Option, none, some, length, contains, NoRepeat, subst,
  is_empty,
}
use dev_browse.Identity.Profile.{strict}
use dev_browse.Identity.Scheduler.{RendererSlot}
use dev_browse.Identity.Lifecycle.{TabRecord}

abbrev pub Slots : Type 0
Slots = ℕ → Option RendererSlot

abbrev pub Tabs : Type 0
Tabs = ℕ → Option TabRecord

-- The slot holds the tab, for its profile.
abbrev pub Homes : ℕ → ℕ → Option RendererSlot → Type 0
Homes t pid none = ⊥
Homes t pid (some s) = (contains t s.tabs ≡ true) × (s.profile_id ≡ pid)

-- The record names the renderer.
abbrev pub Names : ℕ → Option TabRecord → Type 0
Names i none = ⊥
Names i (some r) = r.renderer ≡ i

abbrev pub TabOk : Slots → ℕ → ℕ → Option TabRecord → Type 0
TabOk slots next_tab t none = Unit {0}
TabOk slots next_tab t (some r) = (t < next_tab) × Homes t r.profile_id (slots r.renderer)

-- A slot has a tab, a Strict slot has no second one, and no tab stands twice.
pub record Filled (s : RendererSlot) : Type 0 where
  pub occupied : is_empty s.tabs ≡ false
  pub alone : s.mode ≡ strict → length s.tabs ≤ 1
  pub distinct : NoRepeat s.tabs

abbrev pub SlotOk : Tabs → ℕ → ℕ → Option RendererSlot → Type 0
SlotOk tabs next_renderer i none = Unit {0}
SlotOk tabs next_renderer i (some s) =
    (i < next_renderer) × Filled s × ((t : ℕ) → contains t s.tabs ≡ true → Names i (tabs t))

-- Every tab stands in the slot of its renderer, under its profile, and every tab of a slot is
-- recorded there. Identifiers lie below the counters.
pub record Linked (slots : Slots) (tabs : Tabs) (next_tab next_renderer : ℕ) : Type 0 where
  pub tab_ok : (t : ℕ) → TabOk slots next_tab t (tabs t)
  pub slot_ok : (i : ℕ) → SlotOk tabs next_renderer i (slots i)

-- The slot of the renderer, or the one that is made for it.
abbrev pub Offered : RendererSlot → Option RendererSlot → Type 0
Offered slot none = slot.tabs ≡ []
Offered slot (some s) = s ≡ slot

module _ {slots : Slots} {tabs : Tabs} {nt nr : ℕ} (v : Linked slots tabs nt nr) where
  pub slot_of : (i : ℕ) (s : RendererSlot) → slots i ≡ some s → SlotOk tabs nr i (some s)
  slot_of i s e = subst (SlotOk tabs nr i) e (v.slot_ok i)

  pub slot-Names :
      (i : ℕ) (s : RendererSlot) (t : ℕ)
      → slots i ≡ some s
      → contains t s.tabs ≡ true
      → Names i (tabs t)
  slot-Names i s t e = (slot_of i s e).2 t
