-- ===== src/Identity/Profile.antt =====
-- crates/pb-identity/src/profile.rs: the identity profile and its builder. A name is the list of
-- its code points, and its `len()` is the number of bytes of their UTF-8 encoding. A `Uuid` is a
-- number; `Uuid::new_v4()` is the argument `fresh_id` of `build`.
use mathlib.Core.List.{reverse}
use dev_browse.Prelude.{
  ℕ, ◌+◌, Bool, true, false, ◌&&◌, ◌||◌, List, [], ◌∷◌, Outcome, ok, err, Option, none, some, ltb,
  leb, ◌==◌, if◌then◌else◌, is_empty,
}

pub data Mode : Type 0 where
  standard strict : Mode

abbrev pub is_strict : Mode → Bool
is_strict standard = false
is_strict strict = true

abbrev pub same_mode : Mode → Mode → Bool
same_mode standard standard = true
same_mode strict strict = true
same_mode _ _ = false

pub data ProfileError : Type 0 where
  empty_name name_too_long : ProfileError

pub record IdentityProfile : Type 0 where
  pub profile_id : ℕ
  pub name : List ℕ
  pub mode : Mode

abbrev pub max_name_len : ℕ
max_name_len = 64

-- `char::is_whitespace`: the Unicode property White_Space.
unfoldable pub is_whitespace : ℕ → Bool
is_whitespace c =
    (leb 0x9 c && leb c 0xd)
    || c == 0x20
    || c == 0x85
    || c == 0xa0
    || c == 0x1680
    || (leb 0x2000 c && leb c 0x200a)
    || c == 0x2028
    || c == 0x2029
    || c == 0x202f
    || c == 0x205f
    || c == 0x3000

-- `char::len_utf8`.
unfoldable pub char_len : ℕ → ℕ
char_len c = if ltb c 0x80 then 1 else if ltb c 0x800 then 2 else if ltb c 0x10000 then 3 else 4

-- `str::len`.
unfoldable pub byte_len : List ℕ → ℕ
byte_len [] = 0
byte_len (c ∷ cs) = char_len c + byte_len cs

unfoldable pub trim_start : List ℕ → List ℕ
trim_start [] = []
trim_start (c ∷ cs) = if is_whitespace c then trim_start cs else c ∷ cs

-- `str::trim`.
unfoldable pub trim : List ℕ → List ℕ
unfolding trim_start
trim s = reverse (trim_start (reverse (trim_start s)))

pub record IdentityProfileBuilder : Type 0 where
  pub name : Option (List ℕ)
  pub mode : Mode

unfoldable pub builder : IdentityProfileBuilder
builder = record { name = none; mode = standard }

unfoldable pub with_name : IdentityProfileBuilder → List ℕ → IdentityProfileBuilder
with_name b n = record b { name = some n }

unfoldable pub with_mode : IdentityProfileBuilder → Mode → IdentityProfileBuilder
with_mode b m = record b { mode = m }

abbrev unwrap_or_default : Option (List ℕ) → List ℕ
unwrap_or_default none = []
unwrap_or_default (some s) = s

unfoldable pub build : IdentityProfileBuilder → ℕ → Outcome ProfileError IdentityProfile
build b fresh_id =
    let trimmed = trim (unwrap_or_default b.name) in
    if is_empty trimmed
    then err empty_name
    else if ltb max_name_len (byte_len trimmed)
    then err name_too_long
    else ok (record { profile_id = fresh_id; name = trimmed; mode = b.mode })
