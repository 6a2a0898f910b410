-- ===== src/Prelude/Keys.antt =====
-- Lists of keys with a decidable equality: membership, the first occurrence, no repetition.
use mathlib.Core.Path.{◌≡◌, refl}
use mathlib.Core.Bool.{Bool, true, false}
use mathlib.Core.List.{List, [], ◌∷◌, ◌++◌}
use native.Mathlib.Omega.{arith}

module _ {ℓ} {K : Type ℓ} (dec : Discrete K) where
  unfoldable pub listed : K → List K → Bool
  listed k [] = false
  listed k (x ∷ xs) = elim (dec x k) [ yes _ ↦ true | no _ ↦ listed k xs ]

  -- `position` and `remove` of the first occurrence.
  unfoldable pub remove_key : K → List K → List K
  remove_key k [] = []
  remove_key k (x ∷ xs) = elim (dec x k) [ yes _ ↦ xs | no _ ↦ x ∷ remove_key k xs ]

  abbrev pub Once : List K → Type 0
  Once [] = Unit {0}
  Once (x ∷ xs) = (listed x xs ≡ false) × Once xs

  pub listed-append_last :
      (k j : K) (xs : List K)
      → listed k (xs ++ j ∷ []) ≡ elim (dec j k) [ yes _ ↦ true | no _ ↦ listed k xs ]
  unfolding listed
  listed-append_last k j [] = refl
  listed-append_last k j (x ∷ xs) = ground (arith, listed-append_last k j xs)

  pub listed-remove_key :
      (k j : K) (xs : List K)
      → Once xs
      → listed j (remove_key k xs) ≡ elim (dec k j) [ yes _ ↦ false | no _ ↦ listed j xs ]
  unfolding listed remove_key
  listed-remove_key k j [] h = ground arith
  listed-remove_key k j (x ∷ xs) h = ground (arith, listed-remove_key k j xs h.1, h.0)

  pub Once-append_last : (k : K) (xs : List K) → Once xs → listed k xs ≡ false → Once (xs ++ k ∷ [])
  unfolding listed
  Once-append_last k [] h n = (refl, tt)
  Once-append_last k (x ∷ xs) h n =
      (ground (arith, h.0, listed-append_last x k xs), Once-append_last k xs h.1 (ground arith))

  pub Once-remove_key : (k : K) (xs : List K) → Once xs → Once (remove_key k xs)
  unfolding remove_key
  Once-remove_key k [] h = tt
  Once-remove_key k (x ∷ xs) h =
      ground (arith, Once-remove_key k xs h.1, listed-remove_key k x xs h.1, h.0)
