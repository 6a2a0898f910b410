-- ===== src/Prelude/Results.antt =====
-- What a fallible Rust call comes to: `Ok`, `Err`, or a panic (`expect` on `None`, or an addition
-- that overflows; Cargo.toml keeps overflow checks on in every profile), and methods on `&mut self`
-- that may fail half way.
use Prim.Native.Nat.{ℕ, ◌^◌}

pub data Outcome {ℓ κ} (E : Type κ) (A : Type ℓ) : Type (ℓ ⊔ κ) where
  ok : A → Outcome E A
  err : E → Outcome E A
  panic : Outcome E A

-- A method on a state `S`: the state that it leaves, also when it fails, and its outcome.
abbrev pub Method : Type 0 → Type 0 → Type 0 → Type 0
Method S E A = S → S × Outcome E A

abbrev pub next : {S E A B : Type 0} → S × Outcome E A → (A → Method S E B) → S × Outcome E B
next (s, ok a) f = f a s
next (s, err e) f = (s, err e)
next (s, panic) f = (s, panic)

infixl 5 ◌>>=◌ ◌>>◌
abbrev pub ◌>>=◌ : {S E A B : Type 0} → Method S E A → (A → Method S E B) → Method S E B
◌>>=◌ m f s = next (m s) f

abbrev pub ◌>>◌ : {S E B : Type 0} → Method S E (Unit {0}) → Method S E B → Method S E B
◌>>◌ m k s = next (m s) (λ _. k)

-- One past the largest `u64`.
abbrev pub u64_end : ℕ
u64_end = 2 ^ 64
