-- ===== src/Identity/Scheduler/Sharing.antt =====
-- crates/pb-identity/src/scheduler.rs: what `schedule` decides, and when `attach_tab` succeeds.
use dev_browse.Prelude.{
  ℕ, ◌≡◌, refl, ◌⊎◌, inl, inr, false, List, [], ◌∷◌, arith, ok, Option, none, some, contains,
  ℕ_discrete,
}
use dev_browse.Prelude.Map.{lookup, insert, Distinct}
use dev_browse.Identity.Profile.{IdentityProfile, Mode, standard, strict}
use dev_browse.Identity.Scheduler.{
  RendererSlot, Scheduler, RendererDecision, reuse, spawn_new, find_reusable, schedule, attach_tab,
}

-- The slot is registered for the profile, in Standard mode.
abbrev pub Reusable : ℕ → Option RendererSlot → Type 0
Reusable pid none = ⊥
Reusable pid (some slot) = (slot.mode ≡ standard) × (slot.profile_id ≡ pid)

module _ (pid : ℕ) where
  find_reusable_sound :
      (m : List (ℕ × RendererSlot)) (i : ℕ)
      → Distinct ℕ_discrete m
      → find_reusable m pid ≡ reuse i
      → Reusable pid (lookup ℕ_discrete i m)
  unfolding find_reusable lookup
  find_reusable_sound [] i d h = cc
  find_reusable_sound ((j, slot) ∷ m) i d h = ground (arith, find_reusable_sound m i d.1)

  find_reusable_complete :
      (m : List (ℕ × RendererSlot)) (i : ℕ)
      → find_reusable m pid ≡ spawn_new
      → ¬ Reusable pid (lookup ℕ_discrete i m)
  unfolding find_reusable lookup
  find_reusable_complete [] i h k = k
  find_reusable_complete ((j, slot) ∷ m) i h k = ground (arith, find_reusable_complete m i)

-- What the decision promises of the slots.
abbrev pub Decides : Scheduler → IdentityProfile → RendererDecision → Type 0
Decides s p (reuse i) =
    (p.mode ≡ standard) × Reusable p.profile_id (lookup ℕ_discrete i s.renderers)
Decides s p spawn_new =
    (p.mode ≡ strict) ⊎ ((i : ℕ) → ¬ Reusable p.profile_id (lookup ℕ_discrete i s.renderers))

pub mode-cases : (m : Mode) → (m ≡ strict) ⊎ (m ≡ standard)
mode-cases strict = inl refl
mode-cases standard = inr refl

decide-Decides :
    (s : Scheduler) (p : IdentityProfile) (d : RendererDecision)
    → Distinct ℕ_discrete s.renderers
    → schedule s p ≡ d
    → Decides s p d
unfolding schedule
decide-Decides s p (reuse i) k h =
    (ground arith, find_reusable_sound p.profile_id s.renderers i k (ground arith))
decide-Decides s p spawn_new k h = elim (mode-cases p.mode) [
  | inl e ↦ inl e
  | inr e ↦ inr λ i. find_reusable_complete p.profile_id s.renderers i (ground arith)
]

-- Where no renderer is registered twice, a renderer is reused only for a Standard profile and one in
-- Standard mode for the same profile, and a fresh one is asked for only in Strict mode or where no
-- Standard renderer of the profile is registered.
pub schedule-Decides :
    (s : Scheduler) (p : IdentityProfile)
    → Distinct ℕ_discrete s.renderers
    → Decides s p (schedule s p)
schedule-Decides s p k = decide-Decides s p (schedule s p) k refl

-- The guards of `attach_tab` pass for a slot of the same identity that has room for the tab.
pub attach_tab-eq :
    (s : Scheduler) (i tab : ℕ) (p : IdentityProfile) (slot : RendererSlot)
    → lookup ℕ_discrete i s.renderers ≡ some slot
    → slot.profile_id ≡ p.profile_id
    → slot.mode ≡ p.mode
    → (slot.mode ≡ strict → slot.tabs ≡ [])
    → contains tab slot.tabs ≡ false
    → attach_tab s i tab p
      ≡ ok (record s {
        renderers = insert ℕ_discrete i (record slot { tabs = tab ∷ slot.tabs }) s.renderers;
      })
unfolding attach_tab
attach_tab-eq s i tab p slot h same mode room new = ground (arith, room)
