-- ===== src/Extensions/Version/RoundTrip.antt =====
-- `Version::parse` and `VersionConstraint::parse` on what `Display` writes.
use dev_browse.Prelude.{
  ℕ, zero, suc, ◌+◌, ◌-◌, ◌*◌, ◌/◌, ◌%◌, ◌^◌, ◌<◌, ◌≤◌, ◌≡◌, refl, false, List, [], ◌∷◌, ◌++◌,
  Outcome, ok, err, arith, contains, contains-append, ltb, leb, ◌==◌, if◌then◌else◌, ◌&&◌,
  Bool-cases, inl, inr,
}
use dev_browse.Prelude.Fallible.{◌>>=◌}
use dev_browse.Prelude.Text.{split_on-append, split_on_part}
use dev_browse.Extensions.Version.{
  Version, VersionParseError, version_parse_error, u32_end, parse_digits, parse_unsigned,
  from_parts, parse, digits, print,
}

-- One digit more.
abbrev one_more : ℕ → ℕ → Outcome VersionParseError ℕ
one_more c acc =
    if leb 48 c && leb c 57
    then (if ltb (acc * 10 + (c - 48)) u32_end
        then ok (acc * 10 + (c - 48))
        else err version_parse_error)
    else err version_parse_error

parse_digits-append_last :
    (acc c : ℕ) (s : List ℕ) → parse_digits acc (s ++ c ∷ []) ≡ (parse_digits acc s >>= one_more c)
unfolding parse_digits
parse_digits-append_last acc c [] = refl
parse_digits-append_last acc c (x ∷ s) =
    ground (arith, parse_digits-append_last (acc * 10 + (x - 48)) c s)

parse_digits-digits : (n v : ℕ) → v < 10 ^ suc n → v < u32_end → parse_digits 0 (digits n v) ≡ ok v
unfolding digits
parse_digits-digits zero v h b = unfold parse_digits in ground arith
parse_digits-digits (suc n) v h b = elim (Bool-cases (ltb v 10)) [
  | inl e ↦ rw e (unfold parse_digits in ground arith)
  | inr e ↦
      rw
        (
          e,
          parse_digits-append_last 0 (48 + v % 10) (digits n (v / 10)),
          parse_digits-digits n (v / 10) (omega arith) (omega arith),
        )
        (ground arith)
]

contains-digits : (n v : ℕ) → v < 10 ^ suc n → contains 46 (digits n v) ≡ false
unfolding digits contains
contains-digits zero v h = ground arith
contains-digits (suc n) v h = ground (
  arith,
  contains-digits n (v / 10) (omega arith),
  contains-append 46 (digits n (v / 10)) ((48 + v % 10) ∷ []),
)

-- The text of a number does not begin with a sign.
first_digit : (n v : ℕ) → (c : ℕ) × (s : List ℕ) × (digits n v ≡ c ∷ s) × (48 ≤ c)
unfolding digits
first_digit zero v = (48 + v, [], refl, omega arith)
first_digit (suc n) v = elim (Bool-cases (ltb v 10)) [
  | inl e ↦ (48 + v, [], rw e refl, omega arith)
  | inr e ↦
      let (c, s, shape, h) = first_digit n (v / 10) in
      (c, s ++ (48 + v % 10) ∷ [], rw (e, shape) refl, h)
]

parse_unsigned-digits : (v : ℕ) → v < u32_end → parse_unsigned (digits 9 v) ≡ ok v
unfolding parse_unsigned
parse_unsigned-digits v h =
    let (c, s, shape, high) = first_digit 9 v in
    let sign : (c == 43) ≡ false = ground arith in
    rw (shape, sign) (rw shape at (parse_digits-digits 9 v (omega arith) h))

abbrev pub IsU32 : ℕ → Type 0
IsU32 n = n < u32_end

-- A version of three `u32` fields is read back from the text that it is printed as.
pub parse-print :
    (v : Version) → IsU32 v.major → IsU32 v.minor → IsU32 v.patch → parse (print v) ≡ ok v
unfolding parse print from_parts
parse-print v h1 h2 h3 =
    rw
      (
        split_on-append 46 (digits 9 v.major) _ (contains-digits 9 v.major (omega arith)),
        split_on-append 46 (digits 9 v.minor) _ (contains-digits 9 v.minor (omega arith)),
        split_on_part 46 (digits 9 v.patch) (contains-digits 9 v.patch (omega arith)),
        parse_unsigned-digits v.major h1,
        parse_unsigned-digits v.minor h2,
        parse_unsigned-digits v.patch h3,
      )
      refl
