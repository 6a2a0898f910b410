-- ===== src/Prelude/Map.antt =====
-- `HashMap` as an association list. The order of the list stands for the iteration order of the
-- map; `lookup`, `insert` and `erase` meet at a key by its decidable equality. A map that the
-- program builds has distinct keys (`Distinct`).
use Prim.Native.Nat.{ℕ, ◌+◌}
use mathlib.Core.Path.{◌≡◌, refl, subst}
use mathlib.Core.Logic.{ite, if_pos}
use mathlib.Core.Option.{Option, none, some}
use mathlib.Core.List.{List, [], ◌∷◌}
use native.Mathlib.Omega.{arith}
use dev_browse.Prelude.Lists.{All}

module _ {ℓ} {K V : Type ℓ} (dec : Discrete K) where
  unfoldable pub lookup : K → List (K × V) → Option V
  lookup k [] = none
  lookup k ((j, v) ∷ m) = ite (dec j k) (some v) (lookup k m)

  -- A new key goes to the end, an old one keeps its place.
  unfoldable pub insert : K → V → List (K × V) → List (K × V)
  insert k v [] = (k, v) ∷ []
  insert k v ((j, w) ∷ m) = ite (dec j k) ((j, v) ∷ m) ((j, w) ∷ insert k v m)

  unfoldable pub erase : K → List (K × V) → List (K × V)
  erase k [] = []
  erase k ((j, w) ∷ m) = ite (dec j k) (erase k m) ((j, w) ∷ erase k m)

  abbrev pub Distinct : List (K × V) → Type ℓ
  Distinct [] = Unit
  Distinct ((k, v) ∷ m) = (lookup k m ≡ none) × Distinct m

  pub lookup-insert :
      (k j : K) (v : V) (m : List (K × V))
      → lookup j (insert k v m) ≡ ite (dec k j) (some v) (lookup j m)
  unfolding lookup insert
  lookup-insert k j v [] = refl
  lookup-insert k j v ((i, w) ∷ m) = ground (arith, lookup-insert k j v m)

  pub lookup-erase :
      (k j : K) (m : List (K × V)) → lookup j (erase k m) ≡ ite (dec k j) none (lookup j m)
  unfolding lookup erase
  lookup-erase k j [] = ground arith
  lookup-erase k j ((i, w) ∷ m) = ground (arith, lookup-erase k j m)

  pub insert-Distinct : (k : K) (v : V) (m : List (K × V)) → Distinct m → Distinct (insert k v m)
  unfolding lookup insert
  insert-Distinct k v [] h = (refl, tt)
  insert-Distinct k v ((j, w) ∷ m) h =
      ground (arith, insert-Distinct k v m h.1, lookup-insert k j v m)

  pub erase-Distinct : (k : K) (m : List (K × V)) → Distinct m → Distinct (erase k m)
  unfolding lookup erase
  erase-Distinct k [] h = tt
  erase-Distinct k ((j, w) ∷ m) h = ground (arith, erase-Distinct k m h.1, lookup-erase k j m)

  -- Every value has the property.
  abbrev pub AllValues {κ} : (V → Type κ) → List (K × V) → Type κ
  AllValues P m = All (λ e. P e.1) m

  pub insert-AllValues {κ} :
      (P : V → Type κ) (k : K) (v : V) (m : List (K × V))
      → P v
      → AllValues P m
      → AllValues P (insert k v m)
  unfolding insert
  insert-AllValues P k v [] p h = (p, tt)
  insert-AllValues P k v ((j, w) ∷ m) p h =
      elim (dec j k) as (λ d. AllValues P (ite d ((j, v) ∷ m) ((j, w) ∷ insert k v m))) [
        | yes _ ↦ (p, h.1)
        | no _ ↦ (h.0, insert-AllValues P k v m p h.1)
      ]

  pub erase-AllValues {κ} :
      (P : V → Type κ) (k : K) (m : List (K × V)) → AllValues P m → AllValues P (erase k m)
  unfolding erase
  erase-AllValues P k [] h = tt
  erase-AllValues P k ((j, w) ∷ m) h =
      elim (dec j k) as (λ d. AllValues P (ite d (erase k m) ((j, w) ∷ erase k m))) [
        | yes _ ↦ erase-AllValues P k m h.1
        | no _ ↦ (h.0, erase-AllValues P k m h.1)
      ]

  some_value {κ} : (P : V → Type κ) (v w : V) → some w ≡ some v → P w → P v
  some_value P v w e p = subst P (cc e) p

  pub lookup-AllValues {κ} :
      (P : V → Type κ) (k : K) (v : V) (m : List (K × V))
      → AllValues P m
      → lookup k m ≡ some v
      → P v
  unfolding lookup
  lookup-AllValues P k v [] h = λ e. cc
  lookup-AllValues P k v ((j, w) ∷ m) h =
      elim (dec j k) as (λ d. ite d (some w) (lookup k m) ≡ some v → P v) [
        | yes _ ↦ (λ e. some_value P v w e h.0)
        | no _ ↦ lookup-AllValues P k v m h.1
      ]

  pub erase_absent : (k : K) (m : List (K × V)) → lookup k m ≡ none → erase k m ≡ m
  unfolding lookup erase
  erase_absent k [] h = refl
  erase_absent k ((j, w) ∷ m) h = ground (arith, erase_absent k m)

  -- The sum of a measure over the entries; with `λ _. 1` it is the size.
  unfoldable pub total : (V → ℕ) → List (K × V) → ℕ
  total f [] = 0
  total f ((k, v) ∷ m) = f v + total f m

  pub total-insert_new :
      (f : V → ℕ) (k : K) (v : V) (m : List (K × V))
      → lookup k m ≡ none
      → total f (insert k v m) ≡ total f m + f v
  unfolding lookup insert total
  total-insert_new f k v [] h = omega arith
  total-insert_new f k v ((j, w) ∷ m) h = ground (arith, total-insert_new f k v m)

  pub total-insert_old :
      (f : V → ℕ) (k : K) (v w : V) (m : List (K × V))
      → lookup k m ≡ some w
      → total f (insert k v m) + f w ≡ total f m + f v
  unfolding lookup insert total
  total-insert_old f k v w [] h = cc
  total-insert_old f k v w ((j, u) ∷ m) h = ground (arith, total-insert_old f k v w m)

  pub total-erase :
      (f : V → ℕ) (k : K) (v : V) (m : List (K × V))
      → Distinct m
      → lookup k m ≡ some v
      → total f (erase k m) + f v ≡ total f m
  unfolding lookup erase total
  total-erase f k v [] d h = cc
  total-erase f k v ((j, w) ∷ m) d h = ground (arith, total-erase f k v m d.1, erase_absent k m)

  unfoldable pub size : List (K × V) → ℕ
  size m = total (λ _. 1) m

  pub lookup-insert_self : (k : K) (v : V) (m : List (K × V)) → lookup k (insert k v m) ≡ some v
  lookup-insert_self k v m = rw lookup-insert (if_pos (dec k k) refl _ _)

  pub lookup-erase_self : (k : K) (m : List (K × V)) → lookup k (erase k m) ≡ none
  lookup-erase_self k m = rw lookup-erase (if_pos (dec k k) refl _ _)

  pub erase-insert_self : (k : K) (v : V) (m : List (K × V)) → erase k (insert k v m) ≡ erase k m
  unfolding insert erase
  erase-insert_self k v [] = ground arith
  erase-insert_self k v ((j, w) ∷ m) = ground (arith, erase-insert_self k v m)
