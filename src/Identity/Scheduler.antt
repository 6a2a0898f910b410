-- ===== src/Identity/Scheduler.antt =====
-- crates/pb-identity/src/scheduler.rs: which renderer a tab may use. A method that fails leaves
-- the scheduler as it was, so it returns the new scheduler or the error. A `HashSet` of tabs is a
-- list without repetition.
pub mod Sharing
use dev_browse.Prelude.{
  ℕ, ◌+◌, Bool, true, false, not, ◌&&◌, ◌||◌, List, [], ◌∷◌, Outcome, ok, err, panic, Option, none,
  some, ◌==◌, if◌then◌else◌, length, is_empty, contains, without, ℕ_discrete,
}
use dev_browse.Prelude.Map.{lookup, insert, erase, size}
use dev_browse.Identity.Profile.{IdentityProfile, Mode, standard, strict, is_strict, same_mode}

pub data RendererDecision : Type 0 where
  reuse : ℕ → RendererDecision
  spawn_new : RendererDecision

-- The tab of `tab_already_attached` and `tab_not_attached` is the second argument.
pub data SchedulerError : Type 0 where
  unknown_renderer duplicate_renderer : ℕ → SchedulerError
  tab_not_attached tab_already_attached : ℕ → ℕ → SchedulerError

pub record RendererSlot : Type 0 where
  pub profile_id : ℕ
  pub mode : Mode
  pub tabs : List ℕ

pub record Scheduler : Type 0 where
  pub renderers : List (ℕ × RendererSlot)

unfoldable pub new : Scheduler
new = record { renderers = [] }

-- The loop of `schedule`.
unfoldable pub find_reusable : List (ℕ × RendererSlot) → ℕ → RendererDecision
find_reusable [] pid = spawn_new
find_reusable ((id, slot) ∷ m) pid =
    if same_mode slot.mode standard && slot.profile_id == pid then reuse id else find_reusable m pid

unfoldable pub schedule : Scheduler → IdentityProfile → RendererDecision
unfolding find_reusable
schedule s p = if is_strict p.mode then spawn_new else find_reusable s.renderers p.profile_id

unfoldable pub register_renderer :
    Scheduler → ℕ → IdentityProfile → Outcome SchedulerError Scheduler
register_renderer s renderer p = elim (lookup ℕ_discrete renderer s.renderers) [
  | some _ ↦ err (duplicate_renderer renderer)
  | none ↦ ok (record s {
    renderers =
        insert ℕ_discrete renderer (record { profile_id = p.profile_id; mode = p.mode; tabs = [] })
          s.renderers;
  })
]

-- The tab that a Strict slot already holds.
unfoldable pub occupant : RendererSlot → Option ℕ
occupant slot = elim slot.tabs [ [] ↦ none | t ∷ _ ↦ if is_strict slot.mode then some t else none ]

-- `slot.tabs.insert(tab)` and its guards, on the slot that was found.
unfoldable pub attach_to_slot :
    ℕ → ℕ → RendererSlot → IdentityProfile → Outcome SchedulerError RendererSlot
unfolding occupant
attach_to_slot renderer tab slot p =
    if not (slot.profile_id == p.profile_id) || not (same_mode slot.mode p.mode)
    then err (unknown_renderer renderer)
    else elim (occupant slot) [
      | some t ↦ err (tab_already_attached renderer t)
      | none ↦
          if contains tab slot.tabs
          then err (tab_already_attached renderer tab)
          else ok (record slot { tabs = tab ∷ slot.tabs })
    ]

unfoldable pub attach_tab : Scheduler → ℕ → ℕ → IdentityProfile → Outcome SchedulerError Scheduler
unfolding attach_to_slot
attach_tab s renderer tab p = elim (lookup ℕ_discrete renderer s.renderers) [
  | none ↦ err (unknown_renderer renderer)
  | some slot ↦ elim (attach_to_slot renderer tab slot p) [
    | ok slot' ↦ ok (record s { renderers = insert ℕ_discrete renderer slot' s.renderers })
    | err e ↦ err e
    | panic ↦ panic
  ]
]

unfoldable pub detach_tab : Scheduler → ℕ → ℕ → Outcome SchedulerError Scheduler
detach_tab s renderer tab = elim (lookup ℕ_discrete renderer s.renderers) [
  | none ↦ err (unknown_renderer renderer)
  | some slot ↦
      if contains tab slot.tabs
      then ok (record s {
        renderers =
            insert ℕ_discrete renderer (record slot { tabs = without tab slot.tabs }) s.renderers;
      })
      else err (tab_not_attached renderer tab)
]

unfoldable pub retire_renderer : Scheduler → ℕ → Outcome SchedulerError (List ℕ × Scheduler)
retire_renderer s renderer = elim (lookup ℕ_discrete renderer s.renderers) [
  | none ↦ err (unknown_renderer renderer)
  | some slot ↦ ok (slot.tabs, record s { renderers = erase ℕ_discrete renderer s.renderers })
]

unfoldable pub tab_count : Scheduler → ℕ → Option ℕ
tab_count s renderer = elim (lookup ℕ_discrete renderer s.renderers) [
  | none ↦ none
  | some slot ↦ some (length slot.tabs)
]

unfoldable pub renderer_count : Scheduler → ℕ
renderer_count s = size ℕ_discrete s.renderers

unfoldable pub is_registered : Scheduler → ℕ → Bool
is_registered s renderer = elim (lookup ℕ_discrete renderer s.renderers) [
  | none ↦ false
  | some _ ↦ true
]
