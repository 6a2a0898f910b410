-- ===== src/Identity/Lifecycle/Binding.antt =====
-- Architecture §3.1 in crates/pb-identity/src/lifecycle.rs: a tab's profile and renderer over its
-- life.
use dev_browse.Prelude.{
  ℕ, ◌+◌, ◌<◌, ◌≡◌, refl, sym, subst, List, [], ◌∷◌, arith, Option, none, some, ℕ_discrete,
}
use dev_browse.Prelude.Map.{lookup, insert, erase, lookup-insert, lookup-erase}
use dev_browse.Identity.Suspension.{SuspendReason}
use dev_browse.Identity.Scheduler.{RendererSlot}
use dev_browse.Identity.Lifecycle.{
  LifecycleManager, TabRecord, spawn_tab, close_tab, abort_spawn, suspend_tab, resume_tab,
}
use dev_browse.Identity.Lifecycle.Invariant.{Inv, record_at, placed, new_record, empty_slot}
use dev_browse.Identity.Lifecycle.Spawn.{Spawn, spawn-Spawn}
use dev_browse.Identity.Lifecycle.Closing.{Closing, close_tab-Closing}
use dev_browse.Identity.Lifecycle.Suspending.{
  Pause, Resume, suspend_tab-Pause, resume_tab-Resume, asleep, awake,
}
use dev_browse.Identity.Lifecycle.Runs.{
  Call, spawns, closes, aborts, resumes, removes, suspends, registers, step, run, step-Inv,
  register,
}

abbrev pub KeepsIdentity : TabRecord → Option TabRecord → Type 0
KeepsIdentity r none = Unit {0}
KeepsIdentity r (some q) = (q.profile_id ≡ r.profile_id) × (q.renderer ≡ r.renderer)

-- The identifier is given, and stands for the same profile and renderer, or for nothing.
abbrev Bound : ℕ → TabRecord → LifecycleManager → Type 0
Bound t r l = (t < l.next_tab_id) × KeepsIdentity r (record_at l t)

module _ (t : ℕ) (r : TabRecord) (l : LifecycleManager) (v : Inv l) (b : Bound t r l) where
  placed-Bound : (pid i : ℕ) (slot : RendererSlot) (nr : ℕ) → Bound t r (placed l pid i slot nr)
  placed-Bound pid i slot nr =
      ground (arith, b.1, lookup-insert ℕ_discrete l.next_tab_id t (new_record pid i) l.tabs)

  spawn-Bound : (pid : ℕ) → Bound t r (spawn_tab pid l).0
  spawn-Bound pid = elim (spawn-Spawn l v pid) [
    | Spawn.unknown _ e ↦ rw e b
    | Spawn.exhausted _ e ↦ rw e b
    | Spawn.renderers_exhausted _ e ↦ rw e (omega arith, b.1)
    | Spawn.joined i slot _ _ _ e ↦ rw e (placed-Bound pid i slot l.next_renderer_id)
    | Spawn.started p _ _ _ e ↦
        rw e (placed-Bound pid l.next_renderer_id (empty_slot p) (l.next_renderer_id + 1))
  ]

  erased : (u : ℕ) → KeepsIdentity r (lookup ℕ_discrete t (erase ℕ_discrete u l.tabs))
  erased u = ground (arith, b.1, lookup-erase ℕ_discrete u t l.tabs)

  close-Bound : (u : ℕ) → Bound t r (close_tab u l).0
  close-Bound u = elim (close_tab-Closing l v u) [
    | Closing.unknown _ e ↦ rw e b
    | Closing.last _ _ _ _ _ _ e ↦ rw e (b.0, erased u)
    | Closing.others _ _ _ _ _ _ e ↦ rw e (b.0, erased u)
  ]

  changed :
      (u : ℕ) (q w : TabRecord)
      → record_at l u ≡ some q
      → w.profile_id ≡ q.profile_id
      → w.renderer ≡ q.renderer
      → KeepsIdentity r (lookup ℕ_discrete t (insert ℕ_discrete u w l.tabs))
  changed u q w h same_profile same_renderer =
      ground (arith, b.1, lookup-insert ℕ_discrete u t w l.tabs)

  suspend-Bound : (u : ℕ) (reason : SuspendReason) → Bound t r (suspend_tab u reason l).0
  suspend-Bound u reason = elim (suspend_tab-Pause l u reason) [
    | Pause.unknown _ e ↦ rw e b
    | Pause.already _ _ _ e ↦ rw e b
    | Pause.done q h _ e ↦ rw e (b.0, changed u q (asleep q reason) h refl refl)
  ]

  resume-Bound : (u : ℕ) → Bound t r (resume_tab u l).0
  resume-Bound u = elim (resume_tab-Resume l u) [
    | Resume.unknown _ e ↦ rw e b
    | Resume.already _ _ _ e ↦ rw e b
    | Resume.done q h _ e ↦ rw e (b.0, changed u q (awake q) h refl refl)
  ]

step-Bound :
    (t : ℕ) (r : TabRecord) (l : LifecycleManager) (c : Call)
    → Inv l
    → Bound t r l
    → Bound t r (step l c)
unfolding step abort_spawn register
step-Bound t r l (spawns pid) v b = spawn-Bound t r l v b pid
step-Bound t r l (closes u) v b = close-Bound t r l v b u
step-Bound t r l (aborts u) v b = close-Bound t r l v b u
step-Bound t r l (resumes u) v b = resume-Bound t r l v b u
step-Bound t r l (removes id) v b = b
step-Bound t r l (suspends u reason) v b = suspend-Bound t r l v b u reason
step-Bound t r l (registers p) v b = ground arith

run-Bound :
    (t : ℕ) (r : TabRecord) (l : LifecycleManager) (cs : List Call)
    → Inv l
    → Bound t r l
    → Bound t r (run l cs)
unfolding run
run-Bound t r l [] v b = b
run-Bound t r l (c ∷ cs) v b = run-Bound t r (step l c) cs (step-Inv l c v) (step-Bound t r l c v b)

-- From a state of the invariant, no history of calls gives a recorded tab another profile or
-- another renderer, nor its identifier to another tab: after it the identifier stands for the same
-- profile and renderer, or for no tab.
pub run-KeepsIdentity :
    (l : LifecycleManager) (cs : List Call) (t : ℕ) (r : TabRecord)
    → Inv l
    → record_at l t ≡ some r
    → KeepsIdentity r (record_at (run l cs) t)
run-KeepsIdentity l cs t r v h =
    (run-Bound t r l cs v
      (ground (arith, v.linked.tab_ok t), subst (KeepsIdentity r) (sym h) (refl, refl))).1
