-- ===== src/Prelude/Text.antt =====
-- Text as the list of its bytes: literals, equality, and the searches and splits of `str`.
use Prim.Native.Nat.{ℕ}
use Prim.Native.Char.{code}
use Prim.Native.String.{String}
use mathlib.Core.Path.{◌≡◌, refl, subst}
use mathlib.Core.Logic.{◌⊎◌, inl, inr}
use mathlib.Core.Bool.{Bool, true, false}
use mathlib.Core.Option.{Option, none, some}
use mathlib.Core.List.{List, [], ◌∷◌, ◌++◌}
use native.Mathlib.Omega.{arith}
use dev_browse.Prelude.Tests.{◌==◌, if◌then◌else◌, Bool-cases}
use dev_browse.Prelude.Lists.{contains}

-- The bytes of an ASCII literal.
abbrev pub bytes : String → List ℕ
bytes String.[] = []
bytes (String.◌∷◌ c s) = code c ∷ bytes s

unfoldable pub same_text : List ℕ → List ℕ → Bool
same_text [] [] = true
same_text [] (y ∷ ys) = false
same_text (x ∷ xs) [] = false
same_text (x ∷ xs) (y ∷ ys) = if x == y then same_text xs ys else false

-- `contains` on a list or a set of texts.
unfoldable pub any_same : List ℕ → List (List ℕ) → Bool
any_same s [] = false
any_same s (t ∷ ts) = if same_text t s then true else any_same s ts

abbrev pub prepend : ℕ → Option (List ℕ × List ℕ) → Option (List ℕ × List ℕ)
prepend x none = none
prepend x (some (before, after)) = some (x ∷ before, after)

-- `find(c)`, with what stands before the first `c` and what stands behind it.
unfoldable pub cut_at : ℕ → List ℕ → Option (List ℕ × List ℕ)
cut_at c [] = none
cut_at c (x ∷ s) = if x == c then some ([], s) else prepend x (cut_at c s)

abbrev pub onto_first : ℕ → List (List ℕ) → List (List ℕ)
onto_first c [] = (c ∷ []) ∷ []
onto_first c (l ∷ ls) = (c ∷ l) ∷ ls

-- `split(c)`.
unfoldable pub split_on : ℕ → List ℕ → List (List ℕ)
split_on c [] = [] ∷ []
split_on c (x ∷ s) = if x == c then [] ∷ split_on c s else onto_first x (split_on c s)

-- `join` with one byte between.
unfoldable pub join : ℕ → List (List ℕ) → List ℕ
join c [] = []
join c (p ∷ []) = p
join c (p ∷ q ∷ ps) = p ++ c ∷ join c (q ∷ ps)

pub cut_at-append :
    (c : ℕ) (before after : List ℕ)
    → contains c before ≡ false
    → cut_at c (before ++ c ∷ after) ≡ some (before, after)
unfolding cut_at contains
cut_at-append c [] after h = ground arith
cut_at-append c (x ∷ before) after h = ground (arith, cut_at-append c before after)

pub cut_at-none : (c : ℕ) (s : List ℕ) → contains c s ≡ false → cut_at c s ≡ none
unfolding cut_at contains
cut_at-none c [] h = refl
cut_at-none c (x ∷ s) h = ground (arith, cut_at-none c s)

-- None of the parts holds the separator.
abbrev pub Free : ℕ → List (List ℕ) → Type 0
Free c [] = Unit {0}
Free c (p ∷ ps) = (contains c p ≡ false) × Free c ps

pub split_on_part : (c : ℕ) (p : List ℕ) → contains c p ≡ false → split_on c p ≡ p ∷ []
unfolding split_on contains
split_on_part c [] h = refl
split_on_part c (x ∷ p) h = ground (arith, split_on_part c p)

pub split_on-append :
    (c : ℕ) (p s : List ℕ) → contains c p ≡ false → split_on c (p ++ c ∷ s) ≡ p ∷ split_on c s
unfolding split_on contains
split_on-append c [] s h = ground arith
split_on-append c (x ∷ p) s h = ground (arith, split_on-append c p s)

-- `split` undoes `join` on parts that do not hold the separator.
pub split_on-join :
    (c : ℕ) (p : List ℕ) (ps : List (List ℕ))
    → Free c (p ∷ ps)
    → split_on c (join c (p ∷ ps)) ≡ p ∷ ps
unfolding join
split_on-join c p [] h = split_on_part c p h.0
split_on-join c p (q ∷ ps) h =
    ground (arith, split_on-append c p (join c (q ∷ ps)) h.0, split_on-join c q ps h.1)

pub same_text_eq : (a b : List ℕ) → same_text a b ≡ true → a ≡ b
unfolding same_text
same_text_eq [] [] h = refl
same_text_eq [] (y ∷ b) h = cc
same_text_eq (x ∷ a) [] h = cc
same_text_eq (x ∷ a) (y ∷ b) h = ground (arith, same_text_eq a b)

pub same_text_self : (a : List ℕ) → same_text a a ≡ true
unfolding same_text
same_text_self [] = refl
same_text_self (x ∷ a) = ground (arith, same_text_self a)

-- The decidable equality of texts, by the Boolean test.
abbrev text_by : (a b : List ℕ) → (same_text a b ≡ true) ⊎ (same_text a b ≡ false) → Dec (a ≡ b)
text_by a b (inl e) = yes (same_text_eq a b e)
text_by a b (inr e) = no (λ p. cc (subst (λ t. same_text a t ≡ true) p (same_text_self a), e))

unfoldable pub text_discrete : Discrete (List ℕ)
text_discrete a b = text_by a b (Bool-cases (same_text a b))
