-- ===== src/Identity/Lifecycle/Isolation.antt =====
-- The security rules of crates/pb-identity/src/lifecycle.rs and scheduler.rs: who may share a
-- renderer, and when a renderer is killed.
use dev_browse.Prelude.{
  ℕ, ◌+◌, ◌≤◌, ◌<◌, ◌≡◌, refl, sym, ap, subst, ◌≢◌, inl, inr, true, false, List, [], ◌∷◌, arith,
  Outcome, ok, err, panic, none, some, ◌==◌, ==_iff, u64_end, length, is_empty, contains, without,
  contains-without, Bool-cases, Option-cases,
}
use dev_browse.Identity.Profile.{IdentityProfile, standard}
use dev_browse.Identity.Registry.{ProfileRegistry, get}
use dev_browse.Identity.Scheduler.{RendererSlot}
use dev_browse.Identity.Scheduler.Sharing.{mode-cases}
use dev_browse.Identity.Lifecycle.{
  LifecycleManager, TabRecord, new, spawn_tab, close_tab, attach_to_existing, spawn_renderer,
  unknown_profile, unknown_tab, detach_only, detach_and_kill_renderer, ProcessAction, CloseAction,
  LifecycleError,
}
use dev_browse.Identity.Lifecycle.Linked.{Names, slot_of, slot-Names}
use dev_browse.Identity.Lifecycle.Invariant.{Inv, Keyed, slot_at, record_at}
use dev_browse.Identity.Lifecycle.Spawn.{Spawn, spawn-Spawn}
use dev_browse.Identity.Lifecycle.Closing.{Closing, close_tab-Closing, home_of}
use dev_browse.Identity.Lifecycle.Runs.{Call, run, run-Inv}

two_members :
    (t u : ℕ) (xs : List ℕ)
    → contains t xs ≡ true
    → contains u xs ≡ true
    → t ≢ u
    → ¬ (length xs ≤ 1)
unfolding contains
two_members t u [] h k ne le = cc
two_members t u (x ∷ []) h k ne le = ground arith
two_members t u (x ∷ y ∷ xs) h k ne le = omega arith

module _ (l : LifecycleManager) (v : Inv l) where
  pub shared-standard :
      (t u : ℕ) (q w : TabRecord)
      → t ≢ u
      → record_at l t ≡ some q
      → record_at l u ≡ some w
      → q.renderer ≡ w.renderer
      → (slot : RendererSlot) × (slot_at l q.renderer ≡ some slot)
        × (slot.mode ≡ standard)
        × (slot.profile_id ≡ q.profile_id)
        × (q.profile_id ≡ w.profile_id)
  shared-standard t u q w ne ht hu same =
      let (slot, home, in_t, pt) = home_of l v t q ht in
      let (slot', home', in_u, pu) = home_of l v u w hu in
      let one : slot ≡ slot' = cc in
      elim (mode-cases slot.mode) [
        | inl e ↦ absurd (
            two_members t u slot.tabs in_t (subst (λ s. contains u s.tabs ≡ true) (sym one) in_u) ne
              ((slot_of v.linked q.renderer slot home).1.alone e))
        | inr e ↦ (slot, home, e, pt, cc (ap (λ s. s.profile_id) one))
      ]

-- Architecture §3.4: from a registry that keeps its profiles under their own identifiers, after any
-- history of calls, two tabs that share a renderer have the same profile, and the renderer is a
-- Standard one of that profile.
pub shared_renderer :
    (r : ProfileRegistry) (cs : List Call) (t u : ℕ) (q w : TabRecord)
    → Keyed r
    → t ≢ u
    → record_at (run (new r) cs) t ≡ some q
    → record_at (run (new r) cs) u ≡ some w
    → q.renderer ≡ w.renderer
    → (slot : RendererSlot) × (slot_at (run (new r) cs) q.renderer ≡ some slot)
      × (slot.mode ≡ standard)
      × (slot.profile_id ≡ q.profile_id)
      × (q.profile_id ≡ w.profile_id)
shared_renderer r cs t u q w k = shared-standard (run (new r) cs) (run-Inv r cs k) t u q w

-- The outcomes that `spawn_tab` may have on a state with room in both counters.
abbrev pub SpawnOutcome : LifecycleManager → ℕ → Outcome LifecycleError ProcessAction → Type 0
SpawnOutcome l pid (ok (attach_to_existing i t id)) =
    (t ≡ l.next_tab_id)
    × (id ≡ pid)
    × ((slot : RendererSlot) × (slot_at l i ≡ some slot)
        × (slot.mode ≡ standard)
        × (slot.profile_id ≡ pid))
SpawnOutcome l pid (ok (spawn_renderer i t id m)) =
    (t ≡ l.next_tab_id)
    × (id ≡ pid)
    × (i ≡ l.next_renderer_id)
    × (slot_at l i ≡ none)
    × ((p : IdentityProfile) × (get l.registry pid ≡ some p) × (p.mode ≡ m))
SpawnOutcome l pid (err e) = (e ≡ unknown_profile pid) × (get l.registry pid ≡ none)
SpawnOutcome l pid panic = ⊥

-- On a state of the invariant with room in both counters `spawn_tab` never panics and fails only
-- for an unknown profile: it names a registered Standard renderer of the profile, or a fresh
-- renderer for the profile's mode, and the minted tab.
pub spawn_tab-SpawnOutcome :
    (l : LifecycleManager) (pid : ℕ)
    → Inv l
    → l.next_tab_id + 1 < u64_end
    → l.next_renderer_id + 1 < u64_end
    → SpawnOutcome l pid (spawn_tab pid l).1
spawn_tab-SpawnOutcome l pid v room more = elim (spawn-Spawn l v pid) [
  | Spawn.unknown h e ↦ rw e (refl, h)
  | Spawn.exhausted full _ ↦ absurd (ground arith)
  | Spawn.renderers_exhausted full _ ↦ absurd (ground arith)
  | Spawn.joined i slot there std same e ↦ rw e (refl, refl, (slot, there, std, same))
  | Spawn.started p known same free e ↦ rw e (refl, refl, refl, free, (p, known, refl))
]

contains_head : (x : ℕ) (xs : List ℕ) → contains x (x ∷ xs) ≡ true
unfolding contains
contains_head x xs = ground arith

-- Nothing is left of a slot without `t` exactly when it holds no other tab.
none_left : (t u : ℕ) (xs : List ℕ) → is_empty (without t xs) ≡ true → contains u xs ≡ true → u ≡ t
unfolding contains
none_left t u xs h k = elim (Bool-cases (t == u)) [
  | inl e ↦ sym ((==_iff t u).0 e)
  | inr e ↦ absurd (ground (arith, contains-without t u xs))
]

some_left :
    (t : ℕ) (ys xs : List ℕ)
    → without t xs ≡ ys
    → is_empty ys ≡ false
    → (u : ℕ) × (contains u xs ≡ true) × (u ≢ t)
some_left t [] xs e h = cc
some_left t (u ∷ ys) xs e h = (
  u,
  ground (arith, contains-without t u xs, contains_head u ys, ap (contains u) e),
  λ k. ground (arith, contains-without t u xs, contains_head u ys, ap (contains u) e),
)

-- Some other tab stands under the renderer.
abbrev pub Crowded : LifecycleManager → ℕ → ℕ → Type 0
Crowded l t i = (u : ℕ) × (w : TabRecord) × (record_at l u ≡ some w) × (u ≢ t) × (w.renderer ≡ i)

-- The tab stands under the renderer.
abbrev pub Stands : LifecycleManager → ℕ → ℕ → Type 0
Stands l t i = (r : TabRecord) × (record_at l t ≡ some r) × (r.renderer ≡ i)

-- The outcomes that `close_tab` may have.
abbrev pub CloseOutcome : LifecycleManager → ℕ → Outcome LifecycleError CloseAction → Type 0
CloseOutcome l t (ok (detach_only i u)) = (u ≡ t) × Stands l t i × Crowded l t i
CloseOutcome l t (ok (detach_and_kill_renderer i u)) = (u ≡ t) × Stands l t i × (¬ Crowded l t i)
CloseOutcome l t (err e) = (e ≡ unknown_tab t) × (record_at l t ≡ none)
CloseOutcome l t panic = ⊥

module _ (l : LifecycleManager) (t : ℕ) (v : Inv l) where
  crowded :
      (i : ℕ) (slot : RendererSlot)
      → slot_at l i ≡ some slot
      → is_empty (without t slot.tabs) ≡ false
      → Crowded l t i
  crowded i slot home h =
      let (u, member, ne) = some_left t (without t slot.tabs) slot.tabs refl h in
      elim (Option-cases (record_at l u)) [
        | inl e ↦ absurd (subst (Names i) e (slot-Names v.linked i slot u home member))
        | inr (w, e) ↦ (u, w, e, ne, subst (Names i) e (slot-Names v.linked i slot u home member))
      ]

  not-Crowded :
      (r : TabRecord) (slot : RendererSlot)
      → slot_at l r.renderer ≡ some slot
      → is_empty (without t slot.tabs) ≡ true
      → ¬ Crowded l t r.renderer
  not-Crowded r slot home h (u, w, there, ne, same) =
      let (slot', home', member, _) = home_of l v u w there in
      let one : slot' ≡ slot = cc in
      ne (none_left t u slot.tabs h (subst (λ s. contains u s.tabs ≡ true) one member))

  -- On a state of the invariant `close_tab` never panics (its `expect` holds) and fails only for an
  -- unknown tab: it names the tab and its renderer, and asks for the renderer to be killed exactly
  -- when no other tab stands in it.
  pub close_tab-CloseOutcome : CloseOutcome l t (close_tab t l).1
  close_tab-CloseOutcome = elim (close_tab-Closing l v t) [
    | Closing.unknown h e ↦ rw e (refl, h)
    | Closing.last r slot there home member h e ↦
        rw e (refl, (r, there, refl), not-Crowded r slot home h)
    | Closing.others r slot there home member h e ↦
        rw e (refl, (r, there, refl), crowded r.renderer slot home h)
  ]
