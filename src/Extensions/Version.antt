-- ===== src/Extensions/Version.antt =====
-- crates/pb-extensions/src/allowlist.rs: versions and version constraints. A text is the list of its
-- bytes; `u32::from_str`, `trim` (of ASCII white space) and the printing of numbers are written out.
pub mod RoundTrip
use dev_browse.Prelude.{
  ℕ, zero, suc, ◌+◌, ◌-◌, ◌*◌, ◌/◌, ◌%◌, ◌^◌, Bool, true, false, ◌&&◌, ◌||◌, List, [], ◌∷◌, ◌++◌,
  Option, none, some, Outcome, ok, err, panic, ltb, leb, ◌==◌, if◌then◌else◌, is_empty,
}
use mathlib.Core.List.{reverse}
use dev_browse.Prelude.Fallible.{◌>>=◌, drop}
use dev_browse.Prelude.Text.{bytes, split_on}
use dev_browse.Config.Loader.{starts_with}

pub record Version : Type 0 where
  pub major : ℕ
  pub minor : ℕ
  pub patch : ℕ

-- `VersionParseError`, and `VersionConstraintParseError` too.
pub data VersionParseError : Type 0 where
  version_parse_error : VersionParseError

abbrev pub u32_end : ℕ
u32_end = 4_294_967_296

-- A digit in the loop of `u32::from_str`, with the checks of the multiplication and the addition.
unfoldable pub parse_digits : ℕ → List ℕ → Outcome VersionParseError ℕ
parse_digits acc [] = ok acc
parse_digits acc (c ∷ s) =
    let rest = parse_digits (acc * 10 + (c - 48)) s in
    if leb 48 c && leb c 57
    then (if ltb (acc * 10 + (c - 48)) u32_end then rest else err version_parse_error)
    else err version_parse_error

-- `u32::from_str`: a sign `+` is accepted, and the text without it must not be empty.
unfoldable pub parse_unsigned : List ℕ → Outcome VersionParseError ℕ
parse_unsigned [] = err version_parse_error
parse_unsigned (c ∷ s) =
    if c == 43
    then (if is_empty s then err version_parse_error else parse_digits 0 s)
    else parse_digits 0 (c ∷ s)

-- The parts that the text is split into, of which the missing ones are 0.
unfoldable pub from_parts : List (List ℕ) → Outcome VersionParseError Version
from_parts (p ∷ []) = do
  major ← parse_unsigned p
  ok (record { major = major; minor = 0; patch = 0 })
from_parts (p ∷ q ∷ []) = do
  major ← parse_unsigned p
  minor ← parse_unsigned q
  ok (record { major = major; minor = minor; patch = 0 })
from_parts (p ∷ q ∷ r ∷ []) = do
  major ← parse_unsigned p
  minor ← parse_unsigned q
  patch ← parse_unsigned r
  ok (record { major = major; minor = minor; patch = patch })
from_parts _ = err version_parse_error

unfoldable pub parse : List ℕ → Outcome VersionParseError Version
parse s = from_parts (split_on 46 s)

-- The decimal digits of a number below 10 ^ (n + 1).
unfoldable pub digits : ℕ → ℕ → List ℕ
digits zero v = (48 + v) ∷ []
digits (suc n) v =
    let high = digits n (v / 10) in if ltb v 10 then (48 + v) ∷ [] else high ++ (48 + v % 10) ∷ []

-- `Display`; a `u32` has at most ten digits.
unfoldable pub print : Version → List ℕ
print v = digits 9 v.major ++ 46 ∷ (digits 9 v.minor ++ 46 ∷ digits 9 v.patch)

pub data VersionConstraint : Type 0 where
  exact at_least : Version → VersionConstraint

unfoldable pub same_version : Version → Version → Bool
same_version v w = v.major == w.major && v.minor == w.minor && v.patch == w.patch

-- `v >= floor` of the derived order, field by field.
unfoldable pub at_or_above : Version → Version → Bool
at_or_above v floor =
    if v.major == floor.major
    then (if v.minor == floor.minor then leb floor.patch v.patch else leb floor.minor v.minor)
    else leb floor.major v.major

unfoldable pub satisfies : VersionConstraint → Version → Bool
satisfies (exact want) v = same_version v want
satisfies (at_least floor) v = at_or_above v floor

abbrev white_space : ℕ → Bool
white_space c = (leb 9 c && leb c 13) || c == 32

unfoldable pub trim_start : List ℕ → List ℕ
trim_start [] = []
trim_start (c ∷ s) = let rest = trim_start s in if white_space c then rest else c ∷ s

unfoldable pub trim : List ℕ → List ℕ
trim s = reverse (trim_start (reverse (trim_start s)))

unfoldable pub parse_constraint : List ℕ → Outcome VersionParseError VersionConstraint
parse_constraint text =
    let s = trim text in
    if starts_with (bytes ">=") s
    then (parse (trim (drop 2 s)) >>= (λ v. ok (at_least v)))
    else if starts_with (bytes "=") s
    then (parse (trim (drop 1 s)) >>= (λ v. ok (exact v)))
    else err version_parse_error

unfoldable pub print_constraint : VersionConstraint → List ℕ
print_constraint (exact v) = bytes "=" ++ print v
print_constraint (at_least v) = bytes ">=" ++ print v
