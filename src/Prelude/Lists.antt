-- ===== src/Prelude/Lists.antt =====
-- Lists measured by native numbers, and lists of numbers as sets and queues.
use Prim.Native.Nat.{ℕ, suc, ◌+◌, ◌≤◌}
use mathlib.Core.Path.{◌≡◌, refl}
use mathlib.Core.Bool.{Bool, true, false}
use mathlib.Core.List.{List, [], ◌∷◌, ◌++◌}
use native.Mathlib.Omega.{arith}
use dev_browse.Prelude.Tests.{◌==◌, if◌then◌else◌}

module _ {ℓ} {A : Type ℓ} where
  abbrev pub length : List A → ℕ
  length [] = 0
  length (x ∷ xs) = suc (length xs)

  pub length-append : (xs ys : List A) → length (xs ++ ys) ≡ length xs + length ys
  length-append [] ys = omega arith
  length-append (x ∷ xs) ys = omega (arith, length-append xs ys)

  abbrev pub is_empty : List A → Bool
  is_empty [] = true
  is_empty (x ∷ xs) = false

  -- A predicate at every element.
  abbrev pub All {κ} : (A → Type κ) → List A → Type κ
  All P [] = Unit
  All P (x ∷ xs) = P x × All P xs

  pub All-append {κ} : (P : A → Type κ) (xs ys : List A) → All P xs → All P ys → All P (xs ++ ys)
  All-append P [] ys hx hy = hy
  All-append P (x ∷ xs) ys hx hy = (hx.0, All-append P xs ys hx.1 hy)

  pub All-map {κ κ'} :
      (P : A → Type κ) (Q : A → Type κ')
      → ((x : A) → P x → Q x)
      → (xs : List A) → All P xs
      → All Q xs
  All-map P Q f [] h = tt
  All-map P Q f (x ∷ xs) h = (f x h.0, All-map P Q f xs h.1)

-- Membership of a number, as the program's `contains` and as a test in statements.
unfoldable pub contains : ℕ → List ℕ → Bool
contains a [] = false
contains a (x ∷ xs) = if x == a then true else contains a xs

-- The list without every occurrence of the number.
unfoldable pub without : ℕ → List ℕ → List ℕ
without a [] = []
without a (x ∷ xs) = if x == a then without a xs else x ∷ without a xs

-- No number stands twice.
abbrev pub NoRepeat : List ℕ → Type 0
NoRepeat [] = Unit {0}
NoRepeat (x ∷ xs) = (contains x xs ≡ false) × NoRepeat xs

pub contains-without :
    (a b : ℕ) (xs : List ℕ) → contains b (without a xs) ≡ (if a == b then false else contains b xs)
unfolding contains without
contains-without a b [] = ground arith
contains-without a b (x ∷ xs) = ground (arith, contains-without a b xs)

pub contains-append :
    (a : ℕ) (xs ys : List ℕ)
    → contains a (xs ++ ys) ≡ (if contains a xs then true else contains a ys)
unfolding contains
contains-append a [] ys = refl
contains-append a (x ∷ xs) ys = ground (arith, contains-append a xs ys)

pub contains-append_last :
    (a b : ℕ) (xs : List ℕ) → contains a (xs ++ b ∷ []) ≡ (if b == a then true else contains a xs)
unfolding contains
contains-append_last a b [] = refl
contains-append_last a b (x ∷ xs) = ground (arith, contains-append_last a b xs)

pub NoRepeat-append_last :
    (a : ℕ) (xs : List ℕ) → NoRepeat xs → contains a xs ≡ false → NoRepeat (xs ++ a ∷ [])
unfolding contains
NoRepeat-append_last a [] h k = (refl, tt)
NoRepeat-append_last a (x ∷ xs) h k =
    (ground (arith, contains-append_last x a xs), NoRepeat-append_last a xs h.1 (ground arith))

pub NoRepeat-without : (a : ℕ) (xs : List ℕ) → NoRepeat xs → NoRepeat (without a xs)
unfolding without
NoRepeat-without a [] h = tt
NoRepeat-without a (x ∷ xs) h = ground (arith, NoRepeat-without a xs h.1, contains-without a x xs)

pub without_absent : (a : ℕ) (xs : List ℕ) → contains a xs ≡ false → without a xs ≡ xs
unfolding contains without
without_absent a [] h = refl
without_absent a (x ∷ xs) h = ground (arith, without_absent a xs)

pub length-without-le : (a : ℕ) (xs : List ℕ) → length (without a xs) ≤ length xs
unfolding without
length-without-le a [] = omega arith
length-without-le a (x ∷ xs) = ground (arith, length-without-le a xs)

-- `position` and `remove` of the first occurrence.
unfoldable pub remove_first : ℕ → List ℕ → List ℕ
remove_first a [] = []
remove_first a (x ∷ xs) = if x == a then xs else x ∷ remove_first a xs

pub remove_first-eq : (a : ℕ) (xs : List ℕ) → NoRepeat xs → remove_first a xs ≡ without a xs
unfolding remove_first without
remove_first-eq a [] h = refl
remove_first-eq a (x ∷ xs) h = ground (arith, remove_first-eq a xs h.1, without_absent a xs)

-- `Iterator::filter` and `Iterator::any`.
unfoldable pub filter {ℓ} : {A : Type ℓ} → (A → Bool) → List A → List A
filter f [] = []
filter f (x ∷ xs) = let rest = filter f xs in if f x then x ∷ rest else rest

unfoldable pub any {ℓ} : {A : Type ℓ} → (A → Bool) → List A → Bool
any f [] = false
any f (x ∷ xs) = if f x then true else any f xs

pub length-without :
    (a : ℕ) (xs : List ℕ)
    → NoRepeat xs
    → contains a xs ≡ true
    → suc (length (without a xs)) ≡ length xs
unfolding contains without
length-without a [] h k = cc
length-without a (x ∷ xs) h k = ground (arith, length-without a xs h.1, without_absent a xs)
