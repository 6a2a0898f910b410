-- ===== src/Identity/Registry/Loading.antt =====
-- What `load` of crates/pb-identity/src/registry.rs accepts, and what it gives.
use dev_browse.Prelude.{
  ℕ, ◌≤◌, ◌≡◌, refl, sym, subst, List, [], ◌∷◌, arith, Outcome, ok, err, panic, none, some, false,
  is_empty, inl, inr, ◌⊎◌, ℕ_discrete,
}
use dev_browse.Prelude.Map.{lookup, insert, lookup-insert, lookup-insert_self}
use dev_browse.Identity.Profile.{IdentityProfile, byte_len}
use dev_browse.Identity.Registry.{RegistryFile, ProfileRegistry, get, load_profiles, load_file}

-- The name is one that the registry accepts.
abbrev pub Named : IdentityProfile → Type 0
Named p = (is_empty p.name ≡ false) × (byte_len p.name ≤ 64)

-- Every entry stands under its own identifier and has an accepted name.
abbrev pub Valid : List (ℕ × IdentityProfile) → Type 0
Valid m =
    (id : ℕ) (p : IdentityProfile) → lookup ℕ_discrete id m ≡ some p → (p.profile_id ≡ id) × Named p

-- The profiles of the file are in the map.
abbrev pub Holds : List (ℕ × IdentityProfile) → List IdentityProfile → Type 0
Holds m [] = Unit {0}
Holds m (p ∷ ps) = (lookup ℕ_discrete p.profile_id m ≡ some p) × Holds m ps

insert-Valid :
    (p : IdentityProfile) (m : List (ℕ × IdentityProfile))
    → Named p
    → Valid m
    → Valid (insert ℕ_discrete p.profile_id p m)
insert-Valid p m n v id q h =
    ground (arith, n.0, n.1, lookup-insert ℕ_discrete p.profile_id id p m, v id q)

-- The loop keeps what it has and adds the file's profiles.
record Loaded (ps : List IdentityProfile) (m m' : List (ℕ × IdentityProfile)) : Type 0 where
  valid : Valid m'
  holds : Holds m' ps
  kept :
      (id : ℕ) (p : IdentityProfile)
      → lookup ℕ_discrete id m ≡ some p
      → lookup ℕ_discrete id m' ≡ some p

module _ (p : IdentityProfile) (ps : List IdentityProfile) (m m' : List (ℕ × IdentityProfile)) where
  grown : List (ℕ × IdentityProfile)
  grown = insert ℕ_discrete p.profile_id p m

  -- The guards that a profile has passed where the loop succeeds.
  passed :
      load_profiles (p ∷ ps) m ≡ ok m'
      → Named p × (lookup ℕ_discrete p.profile_id m ≡ none) × (load_profiles ps grown ≡ ok m')
  unfolding load_profiles grown
  passed h = ground arith

  cons-Loaded :
      Named p → lookup ℕ_discrete p.profile_id m ≡ none → Loaded ps grown m' → Loaded (p ∷ ps) m m'
  unfolding grown
  cons-Loaded n new l = record {
    valid = l.valid;
    holds = (l.kept p.profile_id p (lookup-insert_self ℕ_discrete p.profile_id p m), l.holds);
    kept = λ id q h. l.kept id q (ground (arith, lookup-insert ℕ_discrete p.profile_id id p m));
  }

load_profiles-Loaded :
    (ps : List IdentityProfile) (m m' : List (ℕ × IdentityProfile))
    → Valid m
    → load_profiles ps m ≡ ok m'
    → Loaded ps m m'
unfolding load_profiles grown
load_profiles-Loaded [] m m' v h =
    let same : m ≡ m' = cc in
    record {
      valid = subst Valid same v;
      holds = tt;
      kept = λ id p e. subst (λ x. lookup ℕ_discrete id x ≡ some p) same e;
    }
load_profiles-Loaded (p ∷ ps) m m' v h =
    let (named, new, rest) = passed p ps m m' h in
    cons-Loaded p ps m m' named new
      (load_profiles-Loaded ps (grown p ps m m') m' (insert-Valid p m named v) rest)

-- A file that loads has the supported version, and the registry keeps its path, holds every
-- profile of the file, and only profiles under their own identifier with a name of 1 to 64 bytes.
pub load_file-Valid :
    (path : List ℕ) (f : RegistryFile) (r : ProfileRegistry)
    → load_file path f ≡ ok r
    → (f.version ≡ 1) × (r.path ≡ some path) × Valid r.profiles × Holds r.profiles f.profiles
unfolding load_file lookup
load_file-Valid path f r h = elim (Outcome-cases (load_profiles f.profiles [])) [
  | inl (m, e) ↦
      let l = load_profiles-Loaded f.profiles [] m (λ id p k. absurd cc) e in
      let same : r.profiles ≡ m = ground arith in
      (
        ground arith,
        ground arith,
        subst Valid (sym same) l.valid,
        subst (λ x. Holds x f.profiles) (sym same) l.holds,
      )
  | inr (inl (x, e)) ↦ absurd (ground arith)
  | inr (inr e) ↦ absurd (ground arith)
]
  where
    Outcome-cases :
        {E A : Type 0} (o : Outcome E A)
        → ((a : A) × (o ≡ ok a)) ⊎ (((e : E) × (o ≡ err e)) ⊎ (o ≡ panic))
    Outcome-cases (ok a) = inl (a, refl)
    Outcome-cases (err e) = inr (inl (e, refl))
    Outcome-cases panic = inr (inr refl)

-- A registry that was loaded starts every history of the lifecycle in its invariant.
pub load_file-Keyed :
    (path : List ℕ) (f : RegistryFile) (r : ProfileRegistry)
    → load_file path f ≡ ok r
    → (id : ℕ) (p : IdentityProfile) → get r id ≡ some p
    → p.profile_id ≡ id
unfolding get
load_file-Keyed path f r h id p e = ((load_file-Valid path f r h).2 id p e).0
