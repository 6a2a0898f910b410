-- ===== src/Identity/Lifecycle/Runs.antt =====
-- Histories of calls of crates/pb-identity/src/lifecycle.rs. The registry changes through
-- `registry_mut` by `insert` and `remove`.
use dev_browse.Prelude.{
  ℕ, ◌≡◌, refl, ◌⊎◌, inl, inr, List, [], ◌∷◌, arith, Outcome, ok, err, panic, ℕ_discrete,
}
use dev_browse.Prelude.Map.{lookup, lookup-insert, lookup-erase}
use dev_browse.Identity.Profile.{IdentityProfile}
use dev_browse.Identity.Registry.{ProfileRegistry, get, insert, remove}
use dev_browse.Identity.Suspension.{SuspendReason}
use dev_browse.Identity.Lifecycle.{
  LifecycleManager, new, spawn_tab, close_tab, abort_spawn, suspend_tab, resume_tab,
}
use dev_browse.Identity.Lifecycle.Invariant.{Inv, Keyed}
use dev_browse.Identity.Lifecycle.Spawn.{spawn_tab-Inv}
use dev_browse.Identity.Lifecycle.Closing.{close_tab-Inv}
use dev_browse.Identity.Lifecycle.Suspending.{suspend_tab-Inv, resume_tab-Inv}

pub data Call : Type 0 where
  spawns closes aborts resumes removes : ℕ → Call
  suspends : ℕ → SuspendReason → Call
  registers : IdentityProfile → Call

abbrev pub with_registry : LifecycleManager → ProfileRegistry → LifecycleManager
with_registry l r = record l { registry = r }

-- `registry_mut().insert(profile)`.
unfoldable pub register : LifecycleManager → IdentityProfile → LifecycleManager
register l p = elim (insert l.registry p) [ ok r ↦ with_registry l r | err e ↦ l | panic ↦ l ]

-- The state that a call leaves, also when it fails.
unfoldable pub step : LifecycleManager → Call → LifecycleManager
step l (spawns pid) = (spawn_tab pid l).0
step l (closes t) = (close_tab t l).0
step l (aborts t) = (abort_spawn t l).0
step l (resumes t) = (resume_tab t l).0
step l (removes id) = with_registry l (remove l.registry id).0
step l (suspends t reason) = (suspend_tab t reason l).0
step l (registers p) = register l p

unfoldable pub run : LifecycleManager → List Call → LifecycleManager
run l [] = l
run l (c ∷ cs) = run (step l c) cs

with_registry-Inv :
    (l : LifecycleManager) (r : ProfileRegistry) → Keyed r → Inv l → Inv (with_registry l r)
with_registry-Inv l r k v = record {
  keyed = k;
  linked = v.linked;
  slots_distinct = v.slots_distinct;
  tabs_distinct = v.tabs_distinct;
}

insert-Keyed : (r q : ProfileRegistry) (p : IdentityProfile) → Keyed r → insert r p ≡ ok q → Keyed q
unfolding insert get
insert-Keyed r q p k h id w e =
    ground (arith, lookup-insert ℕ_discrete p.profile_id id p r.profiles, k id w)

remove-Keyed : (r : ProfileRegistry) (id : ℕ) → Keyed r → Keyed (remove r id).0
unfolding remove get
remove-Keyed r id k j w e = ground (arith, lookup-erase ℕ_discrete id j r.profiles, k j w)

Outcome-cases :
    {E A : Type 0} (o : Outcome E A)
    → ((a : A) × (o ≡ ok a)) ⊎ (((e : E) × (o ≡ err e)) ⊎ (o ≡ panic))
Outcome-cases (ok a) = inl (a, refl)
Outcome-cases (err e) = inr (inl (e, refl))
Outcome-cases panic = inr (inr refl)

register-Inv : (l : LifecycleManager) (p : IdentityProfile) → Inv l → Inv (register l p)
unfolding register
register-Inv l p v = elim (Outcome-cases (insert l.registry p)) [
  | inl (r, e) ↦ rw (e, register) (with_registry-Inv l r (insert-Keyed l.registry r p v.keyed e) v)
  | inr (inl (_, e)) ↦ rw (e, register) v
  | inr (inr e) ↦ rw (e, register) v
]

-- Every call, on every branch, keeps the invariant.
pub step-Inv : (l : LifecycleManager) (c : Call) → Inv l → Inv (step l c)
unfolding step abort_spawn
step-Inv l (spawns pid) v = spawn_tab-Inv l v pid
step-Inv l (closes t) v = close_tab-Inv l v t
step-Inv l (aborts t) v = close_tab-Inv l v t
step-Inv l (resumes t) v = resume_tab-Inv l t v
step-Inv l (removes id) v = with_registry-Inv l _ (remove-Keyed l.registry id v.keyed) v
step-Inv l (suspends t reason) v = suspend_tab-Inv l t reason v
step-Inv l (registers p) v = register-Inv l p v

pub new-Inv : (r : ProfileRegistry) → Keyed r → Inv (new r)
unfolding new lookup
new-Inv r k = record {
  keyed = k;
  linked = record { tab_ok = λ t. tt; slot_ok = λ i. tt };
  slots_distinct = tt;
  tabs_distinct = tt;
}

run-Inv-from : (l : LifecycleManager) (cs : List Call) → Inv l → Inv (run l cs)
unfolding run
run-Inv-from l [] v = v
run-Inv-from l (c ∷ cs) v = run-Inv-from (step l c) cs (step-Inv l c v)

-- From a registry that keeps its profiles under their own identifiers, every history of calls,
-- failed ones included, leaves the tab table and the renderer slots tied to one another.
pub run-Inv : (r : ProfileRegistry) (cs : List Call) → Keyed r → Inv (run (new r) cs)
run-Inv r cs k = run-Inv-from (new r) cs (new-Inv r k)
