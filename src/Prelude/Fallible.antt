-- ===== src/Prelude/Fallible.antt =====
-- Rust functions that return a `Result` and touch no state: `?` is the bind of `Outcome`.
use Prim.Native.Nat.{ℕ, zero, suc, ◌<◌, ◌≤◌, ◌-◌}
use mathlib.Core.Path.{◌≡◌, refl, subst}
use mathlib.Core.Logic.{◌≢◌, ◌⊎◌, inl, inr}
use mathlib.Core.List.{List, [], ◌∷◌, ◌++◌}
use native.Mathlib.Omega.{arith}
use mathlib.Core.Bool.{Bool, true, false}
use dev_browse.Prelude.Tests.{if◌then◌else◌, ltb}
use dev_browse.Prelude.Lists.{length}
use dev_browse.Prelude.Results.{Outcome, ok, err, panic}

infixl 5 ◌>>=◌ ◌>>◌
abbrev pub ◌>>=◌ : {E A B : Type 0} → Outcome E A → (A → Outcome E B) → Outcome E B
ok a >>= f = f a
err e >>= f = err e
panic >>= f = panic

abbrev pub ◌>>◌ : {E B : Type 0} → Outcome E (Unit {0}) → Outcome E B → Outcome E B
m >> k = m >>= (λ _. k)

-- `xs[i]` on a slice: an index past the end panics.
unfoldable pub index : {E A : Type 0} → List A → ℕ → Outcome E A
index [] i = panic
index (x ∷ xs) zero = ok x
index (x ∷ xs) (suc i) = index xs i

unfoldable pub take : {A : Type 0} → ℕ → List A → List A
take zero xs = []
take (suc n) [] = []
take (suc n) (x ∷ xs) = x ∷ take n xs

unfoldable pub drop : {A : Type 0} → ℕ → List A → List A
drop zero xs = xs
drop (suc n) [] = []
drop (suc n) (x ∷ xs) = drop n xs

-- `&xs[from..to]`: a range that is reversed or ends past the slice panics.
unfoldable pub slice : {E A : Type 0} → List A → ℕ → ℕ → Outcome E (List A)
slice xs from to =
    if ltb to from
    then panic
    else if ltb (length xs) to
    then panic
    else ok (take (to - from) (drop from xs))

-- The result meets the predicate; a failure may be anything but a panic.
abbrev pub Post : {E A : Type 0} → (A → Type 0) → Outcome E A → Type 0
Post P (ok a) = P a
Post P (err e) = Unit
Post P panic = ⊥

pub Post-bind :
    {E A B : Type 0} (P : A → Type 0) (Q : B → Type 0) (o : Outcome E A) (f : A → Outcome E B)
    → Post P o
    → ((a : A) → P a → Post Q (f a))
    → Post Q (o >>= f)
Post-bind P Q (ok a) f h k = k a h
Post-bind P Q (err e) f h k = tt
Post-bind P Q panic f h k = absurd h

pub Post-if :
    {E A : Type 0} (Q : A → Type 0) (b : Bool) (x y : Outcome E A)
    → (b ≡ true → Post Q x)
    → (b ≡ false → Post Q y)
    → Post Q (if b then x else y)
Post-if Q true x y h k = h refl
Post-if Q false x y h k = k refl

pub Post_ok : {E A : Type 0} (P : A → Type 0) (o : Outcome E A) (a : A) → Post P o → o ≡ ok a → P a
Post_ok P o a h e = subst (Post P) e h

pub index-Post :
    (E : Type 0) {A : Type 0} (xs : List A) (i : ℕ)
    → i < length xs
    → Post {E = E} (λ _. Unit) (index xs i)
unfolding index
index-Post E [] i h = omega arith
index-Post E (x ∷ xs) zero h = tt
index-Post E (x ∷ xs) (suc i) h = index-Post E xs i (omega arith)

pub length-take-le : {A : Type 0} (n : ℕ) (xs : List A) → length (take n xs) ≤ n
unfolding take
length-take-le zero xs = omega arith
length-take-le (suc n) [] = omega arith
length-take-le (suc n) (x ∷ xs) = omega (arith, length-take-le n xs)

pub slice-Post :
    (E : Type 0) {A : Type 0} (xs : List A) (from to : ℕ)
    → from ≤ to
    → to ≤ length xs
    → Post {E = E} (λ ys. length ys ≤ to - from) (slice xs from to)
unfolding slice
slice-Post E xs from to h k =
    Post-if _ (ltb to from) _ _ (λ e. absurd (ground arith))
      (λ e.
        Post-if _ (ltb (length xs) to) _ _ (λ e'. absurd (ground arith))
          (λ e'. length-take-le (to - from) (drop from xs)))

pub index_within :
    {E A : Type 0} (xs : List A) (i : ℕ) → i < length xs → (a : A) × (index {E = E} xs i ≡ ok a)
unfolding index
index_within [] i h = absurd (omega arith)
index_within (x ∷ xs) zero h = (x, refl)
index_within (x ∷ xs) (suc i) h = index_within xs i (omega arith)

pub index-append :
    {E A : Type 0} (xs ys : List A) (x : A) → index {E = E} (xs ++ x ∷ ys) (length xs) ≡ ok x
unfolding index
index-append [] ys x = refl
index-append (y ∷ xs) ys x = index-append xs ys x

pub Outcome-cases :
    {E A : Type 0} (o : Outcome E A) → o ≢ panic → ((a : A) × (o ≡ ok a)) ⊎ ((e : E) × (o ≡ err e))
Outcome-cases (ok a) h = inl (a, refl)
Outcome-cases (err e) h = inr (e, refl)
Outcome-cases panic h = absurd (h refl)

-- A result behind a guard that returns an error early.
pub guard_ok :
    {E A : Type 0} (b : Bool) (x : E) (y : Outcome E A) (a : A)
    → (if b then err x else y) ≡ ok a
    → (b ≡ false) × (y ≡ ok a)
guard_ok true x y a e = cc
guard_ok false x y a e = (refl, e)

pub bind_ok :
    {E A B : Type 0} (o : Outcome E A) (f : A → Outcome E B) (b : B)
    → (o >>= f) ≡ ok b
    → (a : A) × (o ≡ ok a) × (f a ≡ ok b)
bind_ok (ok a) f b e = (a, refl, e)
bind_ok (err x) f b e = cc
bind_ok panic f b e = cc
