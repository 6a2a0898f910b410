-- ===== src/Identity/Registry.antt =====
-- crates/pb-identity/src/registry.rs, in memory: profiles keyed by `profile_id`, and the checks of
-- `load` on the parsed file. The file system, the permissions and TOML are outside.
pub mod Loading
use dev_browse.Prelude.{
  ℕ, List, [], ◌∷◌, Outcome, ok, err, panic, Option, none, some, ltb, ◌==◌, true, false,
  if◌then◌else◌, is_empty, map, ℕ_discrete,
}
use dev_browse.Prelude.Map.{lookup, insert as insert_entry, erase, size}
use dev_browse.Identity.Profile.{IdentityProfile, byte_len, max_name_len}

pub data RegistryError : Type 0 where
  schema_version : ℕ → ℕ → RegistryError
  duplicate_profile_id : ℕ → RegistryError
  validation_empty_name validation_name_too_long validation_duplicate : RegistryError

pub record ProfileRegistry : Type 0 where
  pub profiles : List (ℕ × IdentityProfile)
  pub path : Option (List ℕ)

pub record RegistryFile : Type 0 where
  pub version : ℕ
  pub profiles : List IdentityProfile

abbrev pub registry_schema_version : ℕ
registry_schema_version = 1

unfoldable pub new_in_memory : ProfileRegistry
new_in_memory = record { profiles = []; path = none }

unfoldable pub get : ProfileRegistry → ℕ → Option IdentityProfile
get r id = lookup ℕ_discrete id r.profiles

unfoldable pub insert : ProfileRegistry → IdentityProfile → Outcome RegistryError ProfileRegistry
insert r p = elim (lookup ℕ_discrete p.profile_id r.profiles) [
  | some _ ↦ err (duplicate_profile_id p.profile_id)
  | none ↦ ok (record r { profiles = insert_entry ℕ_discrete p.profile_id p r.profiles })
]

unfoldable pub remove : ProfileRegistry → ℕ → ProfileRegistry × Option IdentityProfile
remove r id =
    (record r { profiles = erase ℕ_discrete id r.profiles }, lookup ℕ_discrete id r.profiles)

unfoldable pub list : ProfileRegistry → List IdentityProfile
list r = map (λ e. e.1) r.profiles

unfoldable pub len : ProfileRegistry → ℕ
len r = size ℕ_discrete r.profiles

-- The loop of `load` over the parsed profiles.
unfoldable pub load_profiles :
    List IdentityProfile
    → List (ℕ × IdentityProfile)
    → Outcome RegistryError (List (ℕ × IdentityProfile))
load_profiles [] m = ok m
load_profiles (p ∷ ps) m =
    let rest = load_profiles ps (insert_entry ℕ_discrete p.profile_id p m) in
    if is_empty p.name
    then err validation_empty_name
    else if ltb max_name_len (byte_len p.name)
    then err validation_name_too_long
    else elim (lookup ℕ_discrete p.profile_id m) [ some _ ↦ err validation_duplicate | none ↦ rest ]

-- `load` after the file is read and parsed.
unfoldable pub load_file : List ℕ → RegistryFile → Outcome RegistryError ProfileRegistry
load_file path f = elim (f.version == registry_schema_version) [
  | true ↦ elim (load_profiles f.profiles []) [
    | ok m ↦ ok (record { profiles = m; path = some path })
    | err e ↦ err e
    | panic ↦ panic
  ]
  | false ↦ err (schema_version f.version registry_schema_version)
]
