-- ===== src/Identity/Lifecycle/Suspending.antt =====
-- `suspend_tab` and `resume_tab` of crates/pb-identity/src/lifecycle.rs.
use dev_browse.Prelude.{
  ℕ, ◌≡◌, refl, sym, subst, ◌⊎◌, inl, inr, arith, ok, err, none, some, Option-cases, ℕ_discrete,
}
use dev_browse.Prelude.Map.{insert, insert-Distinct}
use dev_browse.Identity.Suspension.{SuspendReason}
use dev_browse.Identity.Lifecycle.{
  LifecycleManager, TabRecord, TabState, active, suspended, suspend_tab, resume_tab, unknown_tab,
  no_state_change,
}
use dev_browse.Identity.Lifecycle.Linked.{Linked}
use dev_browse.Identity.Lifecycle.Close.{change-Linked}
use dev_browse.Identity.Lifecycle.Invariant.{Inv, slot_at, record_at, lookup-insert-update}

-- The state with the record of one tab changed.
abbrev pub with_record : LifecycleManager → ℕ → TabRecord → LifecycleManager
with_record l t q = record l { tabs = insert ℕ_discrete t q l.tabs }

-- A change of a record that keeps its profile and its renderer keeps the invariant.
pub with_record-Inv :
    (l : LifecycleManager) (t : ℕ) (r q : TabRecord)
    → Inv l
    → record_at l t ≡ some r
    → q.profile_id ≡ r.profile_id
    → q.renderer ≡ r.renderer
    → Inv (with_record l t q)
with_record-Inv l t r q v there same_profile same_renderer = record {
  keyed = v.keyed;
  linked =
      subst (λ g. Linked (slot_at l) g l.next_tab_id l.next_renderer_id)
        (sym (lookup-insert-update t q l.tabs))
        (change-Linked v.linked t r q there same_profile same_renderer);
  slots_distinct = v.slots_distinct;
  tabs_distinct = insert-Distinct ℕ_discrete t q l.tabs v.tabs_distinct;
}

abbrev pub asleep : TabRecord → SuspendReason → TabRecord
asleep r reason = record r { state = suspended; suspend_reason = some reason }

abbrev pub awake : TabRecord → TabRecord
awake r = record r { state = active; suspend_reason = none }

module _ (l : LifecycleManager) (t : ℕ) where
  -- What `suspend_tab` comes to.
  pub data Pause (reason : SuspendReason) : Type 0 where
    unknown :
        record_at l t ≡ none → suspend_tab t reason l ≡ (l, err (unknown_tab t)) → Pause reason
    already :
        (r : TabRecord)
        → record_at l t ≡ some r
        → r.state ≡ suspended
        → suspend_tab t reason l ≡ (l, err (no_state_change t))
        → Pause reason
    done :
        (r : TabRecord)
        → record_at l t ≡ some r
        → r.state ≡ active
        → suspend_tab t reason l ≡ (
          with_record l t (asleep r reason),
          ok (record { tab = t; renderer = r.renderer; reason = reason }),
        )
        → Pause reason

  -- What `resume_tab` comes to.
  pub data Resume : Type 0 where
    unknown : record_at l t ≡ none → resume_tab t l ≡ (l, err (unknown_tab t)) → Resume
    already :
        (r : TabRecord)
        → record_at l t ≡ some r
        → r.state ≡ active
        → resume_tab t l ≡ (l, err (no_state_change t))
        → Resume
    done :
        (r : TabRecord)
        → record_at l t ≡ some r
        → r.state ≡ suspended
        → resume_tab t l
          ≡ (with_record l t (awake r), ok (record { tab = t; renderer = r.renderer }))
        → Resume

  state-cases : (s : TabState) → (s ≡ active) ⊎ (s ≡ suspended)
  state-cases active = inl refl
  state-cases suspended = inr refl

  pub suspend_tab-Pause : (reason : SuspendReason) → Pause reason
  unfolding suspend_tab
  suspend_tab-Pause reason = elim (Option-cases (record_at l t)) [
    | inl e ↦ Pause.unknown e (ground arith)
    | inr (r, e) ↦ elim (state-cases r.state) [
      | inl on ↦ Pause.done r e on (ground arith)
      | inr off ↦ Pause.already r e off (ground arith)
    ]
  ]

  pub resume_tab-Resume : Resume
  unfolding resume_tab
  resume_tab-Resume = elim (Option-cases (record_at l t)) [
    | inl e ↦ Resume.unknown e (ground arith)
    | inr (r, e) ↦ elim (state-cases r.state) [
      | inl on ↦ Resume.already r e on (ground arith)
      | inr off ↦ Resume.done r e off (ground arith)
    ]
  ]

  pub suspend_tab-Inv : (reason : SuspendReason) → Inv l → Inv (suspend_tab t reason l).0
  suspend_tab-Inv reason v = elim (suspend_tab-Pause reason) [
    | Pause.unknown _ e ↦ rw e v
    | Pause.already _ _ _ e ↦ rw e v
    | Pause.done r there _ e ↦ rw e (with_record-Inv l t r (asleep r reason) v there refl refl)
  ]

  pub resume_tab-Inv : Inv l → Inv (resume_tab t l).0
  resume_tab-Inv v = elim resume_tab-Resume [
    | Resume.unknown _ e ↦ rw e v
    | Resume.already _ _ _ e ↦ rw e v
    | Resume.done r there _ e ↦ rw e (with_record-Inv l t r (awake r) v there refl refl)
  ]
