-- ===== src/Identity/Lifecycle/Pausing.antt =====
-- Suspension in crates/pb-identity/src/lifecycle.rs: the kept reason, and `resume_tab` after
-- `suspend_tab`.
use dev_browse.Prelude.{
  ℕ, ◌+◌, ◌≡◌, refl, ap, subst, List, [], ◌∷◌, arith, ok, err, Option, none, some, ℕ_discrete,
}
use dev_browse.Prelude.Map.{lookup, insert, erase, lookup-insert, lookup-erase, lookup-insert_self}
use dev_browse.Identity.Registry.{ProfileRegistry}
use dev_browse.Identity.Profile.{IdentityProfile}
use dev_browse.Identity.Suspension.{SuspendReason}
use dev_browse.Identity.Scheduler.{RendererSlot}
use dev_browse.Identity.Lifecycle.{
  LifecycleManager, TabRecord, TabState, active, suspended, new, spawn_tab, close_tab, abort_spawn,
  suspend_tab, resume_tab, no_state_change,
}
use dev_browse.Identity.Lifecycle.Invariant.{Inv, Keyed, record_at, placed, new_record, empty_slot}
use dev_browse.Identity.Lifecycle.Spawn.{Spawn, spawn-Spawn}
use dev_browse.Identity.Lifecycle.Closing.{Closing, close_tab-Closing}
use dev_browse.Identity.Lifecycle.Suspending.{
  Pause, Resume, suspend_tab-Pause, resume_tab-Resume, asleep, awake, with_record,
}
use dev_browse.Identity.Lifecycle.Abort.{SameTables}
use dev_browse.Identity.Lifecycle.Runs.{
  Call, spawns, closes, aborts, resumes, removes, suspends, registers, step, run, step-Inv,
  register, new-Inv,
}

abbrev Agree : TabState → Option SuspendReason → Type 0
Agree active none = Unit {0}
Agree active (some _) = ⊥
Agree suspended none = ⊥
Agree suspended (some _) = Unit {0}

abbrev Reasoned : Option TabRecord → Type 0
Reasoned none = Unit {0}
Reasoned (some r) = Agree r.state r.suspend_reason

abbrev AllReasoned : LifecycleManager → Type 0
AllReasoned l = (t : ℕ) → Reasoned (record_at l t)

module _ (l : LifecycleManager) (v : Inv l) (a : AllReasoned l) where
  placed-Reasoned :
      (pid i : ℕ) (slot : RendererSlot) (nr : ℕ) → AllReasoned (placed l pid i slot nr)
  placed-Reasoned pid i slot nr t =
      ground (arith, a t, lookup-insert ℕ_discrete l.next_tab_id t (new_record pid i) l.tabs)

  spawn-Reasoned : (pid : ℕ) → AllReasoned (spawn_tab pid l).0
  spawn-Reasoned pid = elim (spawn-Spawn l v pid) [
    | Spawn.unknown _ e ↦ rw e a
    | Spawn.exhausted _ e ↦ rw e a
    | Spawn.renderers_exhausted _ e ↦ rw e a
    | Spawn.joined i slot _ _ _ e ↦ rw e (placed-Reasoned pid i slot l.next_renderer_id)
    | Spawn.started p _ _ _ e ↦
        rw e (placed-Reasoned pid l.next_renderer_id (empty_slot p) (l.next_renderer_id + 1))
  ]

  erase-Reasoned : (u t : ℕ) → Reasoned (lookup ℕ_discrete t (erase ℕ_discrete u l.tabs))
  erase-Reasoned u t = ground (arith, a t, lookup-erase ℕ_discrete u t l.tabs)

  close-Reasoned : (u : ℕ) → AllReasoned (close_tab u l).0
  close-Reasoned u = elim (close_tab-Closing l v u) [
    | Closing.unknown _ e ↦ rw e a
    | Closing.last _ _ _ _ _ _ e ↦ rw e (erase-Reasoned u)
    | Closing.others _ _ _ _ _ _ e ↦ rw e (erase-Reasoned u)
  ]

  change-Reasoned :
      (u : ℕ) (q : TabRecord)
      → Reasoned (some q)
      → (t : ℕ) → Reasoned (lookup ℕ_discrete t (insert ℕ_discrete u q l.tabs))
  change-Reasoned u q h t = ground (arith, a t, h, lookup-insert ℕ_discrete u t q l.tabs)

  suspend-Reasoned : (u : ℕ) (reason : SuspendReason) → AllReasoned (suspend_tab u reason l).0
  suspend-Reasoned u reason = elim (suspend_tab-Pause l u reason) [
    | Pause.unknown _ e ↦ rw e a
    | Pause.already _ _ _ e ↦ rw e a
    | Pause.done q _ _ e ↦ rw e (change-Reasoned u (asleep q reason) tt)
  ]

  resume-Reasoned : (u : ℕ) → AllReasoned (resume_tab u l).0
  resume-Reasoned u = elim (resume_tab-Resume l u) [
    | Resume.unknown _ e ↦ rw e a
    | Resume.already _ _ _ e ↦ rw e a
    | Resume.done q _ _ e ↦ rw e (change-Reasoned u (awake q) tt)
  ]

  register-Reasoned : (p : IdentityProfile) → AllReasoned (register l p)
  unfolding register
  register-Reasoned p t = ground (arith, a t)

step-Reasoned : (l : LifecycleManager) (c : Call) → Inv l → AllReasoned l → AllReasoned (step l c)
unfolding step abort_spawn
step-Reasoned l (spawns pid) v a = spawn-Reasoned l v a pid
step-Reasoned l (closes u) v a = close-Reasoned l v a u
step-Reasoned l (aborts u) v a = close-Reasoned l v a u
step-Reasoned l (resumes u) v a = resume-Reasoned l v a u
step-Reasoned l (removes id) v a = a
step-Reasoned l (suspends u reason) v a = suspend-Reasoned l v a u reason
step-Reasoned l (registers p) v a = register-Reasoned l v a p

run-Reasoned :
    (l : LifecycleManager) (cs : List Call) → Inv l → AllReasoned l → AllReasoned (run l cs)
unfolding run
run-Reasoned l [] v a = a
run-Reasoned l (c ∷ cs) v a = run-Reasoned (step l c) cs (step-Inv l c v) (step-Reasoned l c v a)

new-Reasoned : (r : ProfileRegistry) → AllReasoned (new r)
unfolding new lookup
new-Reasoned r t = tt

module _ (l : LifecycleManager) (t : ℕ) (r : TabRecord) (reason : SuspendReason) where
  suspend-active :
      record_at l t ≡ some r
      → r.state ≡ active
      → suspend_tab t reason l ≡ (
        with_record l t (asleep r reason),
        ok (record { tab = t; renderer = r.renderer; reason = reason }),
      )
  unfolding suspend_tab
  suspend-active h on = ground arith

  resume-asleep : resume_tab t (with_record l t (asleep r reason)) ≡ (
    with_record (with_record l t (asleep r reason)) t (awake (asleep r reason)),
    ok (record { tab = t; renderer = r.renderer }),
  )
  unfolding resume_tab
  resume-asleep = ground (arith, lookup-insert_self ℕ_discrete t (asleep r reason) l.tabs)

  restored :
      record_at l t ≡ some r
      → r.state ≡ active
      → Reasoned (some r)
      → (u : ℕ)
      → record_at (with_record (with_record l t (asleep r reason)) t (awake (asleep r reason))) u
        ≡ record_at l u
  restored h on agree u = ground (
    arith,
    agree,
    lookup-insert ℕ_discrete t u (awake (asleep r reason))
        (insert ℕ_discrete t (asleep r reason) l.tabs),
    lookup-insert ℕ_discrete t u (asleep r reason) l.tabs,
  )

-- After any history from a registry that keeps its profiles under their own identifiers, suspending
-- an active tab succeeds with the tab, its renderer and the reason;
-- suspending it again is refused; resuming it then succeeds and brings back every tab record, every
-- slot and the registry.
pub resume_tab-suspend_tab :
    (g : ProfileRegistry) (cs : List Call) (t : ℕ) (r : TabRecord) (reason again : SuspendReason)
    → Keyed g
    → record_at (run (new g) cs) t ≡ some r
    → r.state ≡ active
    → let l = run (new g) cs in
      let m = (suspend_tab t reason l).0 in
      ((suspend_tab t reason l).1 ≡ ok (record { tab = t; renderer = r.renderer; reason = reason }))
      × ((suspend_tab t again m).1 ≡ err (no_state_change t))
      × ((resume_tab t m).1 ≡ ok (record { tab = t; renderer = r.renderer }))
      × SameTables (resume_tab t m).0 l
unfolding suspend_tab
resume_tab-suspend_tab g cs t r reason again k h on =
    let l = run (new g) cs in
    let agree : Reasoned (some r) =
      subst Reasoned h (run-Reasoned (new g) cs (new-Inv g k) (new-Reasoned g) t) in
    rw (suspend-active l t r reason h on) (
      refl,
      ground (arith, lookup-insert_self ℕ_discrete t (asleep r reason) l.tabs),
      ap (λ x. x.1) (resume-asleep l t r reason),
      rw (resume-asleep l t r reason) (record {
        same_records = restored l t r reason h on agree;
        same_slots = λ i. refl;
        same_registry = refl;
      }),
    )
