-- ===== src/Tests/Identity.antt =====
-- The theorems on crates/pb-identity at concrete registries, states and histories.
use dev_browse.Prelude.{
  ℕ, ◌≡◌, refl, ap, subst, Option, List, [], ◌∷◌, arith, ok, err, none, some, contains, without,
  ℕ_discrete,
}
use dev_browse.Prelude.Map.{lookup, insert}
use dev_browse.Identity.Profile.{IdentityProfile, standard, strict, byte_len, char_len}
use dev_browse.Identity.Suspension.{user_requested, background_idle}
use dev_browse.Identity.Registry.{ProfileRegistry, RegistryFile, get, load_profiles, load_file}
use dev_browse.Identity.Registry.Loading.{Valid, Holds, load_file-Valid}
use dev_browse.Identity.Scheduler.{
  RendererSlot, find_reusable, schedule, attach_to_slot, attach_tab, occupant, register_renderer,
  detach_tab, tab_count, retire_renderer,
}
use dev_browse.Identity.Lifecycle.{
  LifecycleManager, TabRecord, active, new, spawn_tab, mint_tab, mint_renderer, spawn_decided,
  spawn_fresh, spawn_reused, on_scheduler, record_tab, close_tab, abort_spawn, suspend_tab,
  resume_tab, no_state_change, attach_to_existing, spawn_renderer, detach_only,
  detach_and_kill_renderer,
}
use dev_browse.Identity.Lifecycle.Invariant.{Inv, Keyed, slot_at, record_at}
use dev_browse.Identity.Lifecycle.Runs.{Call, spawns, closes, run, step, run-Inv}
use dev_browse.Identity.Lifecycle.Isolation.{
  SpawnOutcome, CloseOutcome, shared_renderer, spawn_tab-SpawnOutcome, close_tab-CloseOutcome,
}
use dev_browse.Identity.Lifecycle.Binding.{KeepsIdentity, run-KeepsIdentity}
use dev_browse.Identity.Lifecycle.Abort.{SameTables, abort_spawn-spawn_tab}
use dev_browse.Identity.Lifecycle.Pausing.{resume_tab-suspend_tab}

abbrev personal : IdentityProfile
personal = record { profile_id = 7; name = 80 ∷ []; mode = standard }

abbrev secret : IdentityProfile
secret = record { profile_id = 8; name = 83 ∷ []; mode = strict }

abbrev book : ProfileRegistry
book = record { profiles = (7, personal) ∷ (8, secret) ∷ []; path = none }

book-Keyed : Keyed book
unfolding get lookup
book-Keyed id p h = ground arith

-- Two Standard tabs of one profile and a Strict one.
abbrev calls : List Call
calls = spawns 7 ∷ spawns 7 ∷ spawns 8 ∷ []

abbrev record_in : ℕ → ℕ → TabRecord
record_in pid i = record { profile_id = pid; renderer = i; state = active; suspend_reason = none }

abbrev three_tabs : LifecycleManager
three_tabs = record {
  registry = book;
  scheduler = record {
    renderers =
        (1, record { profile_id = 7; mode = standard; tabs = 2 ∷ 1 ∷ [] })
        ∷ (2, record { profile_id = 8; mode = strict; tabs = 3 ∷ [] })
        ∷ [];
  };
  tabs = (1, record_in 7 1) ∷ (2, record_in 7 1) ∷ (3, record_in 8 2) ∷ [];
  next_tab_id = 4;
  next_renderer_id = 3;
}

three_tabs-run : run (new book) calls ≡ three_tabs
unfolding run step new spawn_tab mint_tab spawn_decided spawn_fresh spawn_reused mint_renderer
    on_scheduler record_tab get lookup insert schedule find_reusable register_renderer attach_tab
    attach_to_slot occupant ℕ_discrete contains
three_tabs-run = refl

three_tabs-Inv : Inv three_tabs
three_tabs-Inv = subst Inv three_tabs-run (run-Inv book calls book-Keyed)

run-Inv_example : Inv (run (new book) calls)
run-Inv_example = run-Inv book calls book-Keyed

shared_renderer_example :
    (slot : RendererSlot) × (slot_at (run (new book) calls) 1 ≡ some slot)
    × (slot.mode ≡ standard)
    × (slot.profile_id ≡ 7)
    × (◌≡◌ {A = ℕ} 7 7)
unfolding lookup ℕ_discrete
shared_renderer_example =
    shared_renderer book calls 1 2 (record_in 7 1) (record_in 7 1) book-Keyed (λ e. omega arith)
      (ap (λ l. record_at l 1) three_tabs-run) (ap (λ l. record_at l 2) three_tabs-run) refl

-- A second tab of the Standard profile joins its renderer.
spawn_tab-SpawnOutcome_example : SpawnOutcome three_tabs 7 (spawn_tab 7 three_tabs).1
spawn_tab-SpawnOutcome_example =
    spawn_tab-SpawnOutcome three_tabs 7 three_tabs-Inv (omega arith) (omega arith)

spawn_tab-joins : (spawn_tab 7 three_tabs).1 ≡ ok (attach_to_existing 1 4 7)
unfolding spawn_tab get lookup ℕ_discrete schedule spawn_reused attach_tab contains
spawn_tab-joins = refl

-- The Strict renderer goes with its only tab, the shared one stays.
close_tab-CloseOutcome_example : CloseOutcome three_tabs 3 (close_tab 3 three_tabs).1
close_tab-CloseOutcome_example = close_tab-CloseOutcome three_tabs 3 three_tabs-Inv

close_tab-kills : (close_tab 3 three_tabs).1 ≡ ok (detach_and_kill_renderer 2 3)
unfolding close_tab lookup ℕ_discrete detach_tab contains tab_count insert without retire_renderer
close_tab-kills = refl

close_tab-keeps : (close_tab 1 three_tabs).1 ≡ ok (detach_only 1 1)
unfolding close_tab lookup ℕ_discrete detach_tab contains tab_count insert without
close_tab-keeps = refl

run-KeepsIdentity_example :
    KeepsIdentity (record_in 7 1) (record_at (run three_tabs (closes 2 ∷ spawns 8 ∷ [])) 1)
unfolding lookup ℕ_discrete
run-KeepsIdentity_example =
    run-KeepsIdentity three_tabs (closes 2 ∷ spawns 8 ∷ []) 1 (record_in 7 1) three_tabs-Inv refl

abort_spawn-spawn_tab_example : SameTables (abort_spawn 4 (spawn_tab 8 three_tabs).0).0 three_tabs
unfolding spawn_tab get lookup ℕ_discrete schedule spawn_fresh register_renderer attach_tab insert
    contains
abort_spawn-spawn_tab_example =
    abort_spawn-spawn_tab three_tabs 8 {a = spawn_renderer 3 4 8 strict} three_tabs-Inv refl

resume_tab-suspend_tab_example :
    let l = run (new book) calls in
    let m = (suspend_tab 2 user_requested l).0 in
    ((suspend_tab 2 user_requested l).1
      ≡ ok (record { tab = 2; renderer = 1; reason = user_requested }))
    × ((suspend_tab 2 background_idle m).1 ≡ err (no_state_change 2))
    × ((resume_tab 2 m).1 ≡ ok (record { tab = 2; renderer = 1 }))
    × SameTables (resume_tab 2 m).0 l
unfolding lookup ℕ_discrete
resume_tab-suspend_tab_example =
    resume_tab-suspend_tab book calls 2 (record_in 7 1) user_requested background_idle book-Keyed
      (ap (λ l. record_at l 2) three_tabs-run) refl

-- A file with the two profiles loads.
abbrev file : RegistryFile
file = record { version = 1; profiles = personal ∷ secret ∷ [] }

load_file-Valid_example :
    (◌≡◌ {A = ℕ} 1 1)
    × (◌≡◌ {A = Option (List ℕ)} (some []) (some []))
    × Valid book.profiles
    × Holds book.profiles file.profiles
unfolding load_file load_profiles byte_len char_len lookup insert ℕ_discrete
load_file-Valid_example = load_file-Valid [] file (record book { path = some [] }) refl
