-- ===== src/Base/Panic.antt =====
-- How a Rust call ends: with a value, with an error value, or with a panic (a failed assertion, an
-- `unwrap` of an error, an index out of bounds).
use mathlib.Core.Path.{◌≡◌, refl}
use mathlib.Core.Bool.{Bool, true, false}
use mathlib.Core.Option.{Option, none, some}
use mathlib.Core.List.{List}
use Prim.Native.Nat.{ℕ}
use xfuse.Base.Lists.{get_elem?}

pub data Outcome (E A : Type 0) : Type 0 where
  ok : A → Outcome E A
  err : E → Outcome E A
  panic : Outcome E A

module _ {E : Type 0} where
  infixl 5 ◌>>=◌ ◌>>◌
  abbrev pub ◌>>=◌ : {A B : Type 0} → Outcome E A → (A → Outcome E B) → Outcome E B
  ok a >>= f = f a
  err e >>= f = err e
  panic >>= f = panic

  abbrev pub ◌>>◌ : {B : Type 0} → Outcome E (Unit {0}) → Outcome E B → Outcome E B
  m >> k = m >>= λ _. k

  -- `assert!(b)`.
  abbrev pub assert : Bool → Outcome E (Unit {0})
  assert true = ok tt
  assert false = panic

  -- `v[i]`: out of bounds is a panic.
  abbrev pub index : {A : Type 0} → List A → ℕ → Outcome E A
  index xs i = elim (get_elem? xs i) [ none ↦ panic | some a ↦ ok a ]

  -- `o.unwrap()` and `o.ok_or(e)` of an Option.
  abbrev pub expect_some : {A : Type 0} → Option A → Outcome E A
  expect_some none = panic
  expect_some (some a) = ok a

  abbrev pub ok_or : {A : Type 0} → Option A → E → Outcome E A
  ok_or none e = err e
  ok_or (some a) e = ok a

-- `r.unwrap()` of a Result, and `r.map_err(f)`.
abbrev pub unwrap : {E F A : Type 0} → Outcome E A → Outcome F A
unwrap (ok a) = ok a
unwrap (err e) = panic
unwrap panic = panic

abbrev pub map_err : {E F A : Type 0} → (E → F) → Outcome E A → Outcome F A
map_err f (ok a) = ok a
map_err f (err e) = err (f e)
map_err f panic = panic

-- `r.map(f)`.
abbrev pub map_ok : {E A B : Type 0} → (A → B) → Outcome E A → Outcome E B
map_ok f (ok a) = ok (f a)
map_ok f (err e) = err e
map_ok f panic = panic

pub bind_ok : {E A B : Type 0} (o : Outcome E A) (f : A → B) → (o >>= λ a. ok (f a)) ≡ map_ok f o
bind_ok (ok a) f = refl
bind_ok (err e) f = refl
bind_ok panic f = refl

-- What a chain that ends in a value has gone through.
pub bind_inv :
    {E A B : Type 0} (o : Outcome E A) (f : A → Outcome E B) (b : B)
    → (o >>= f) ≡ ok b
    → (a : A) × (o ≡ ok a) × (f a ≡ ok b)
bind_inv (ok a) f b e = (a, refl, e)
bind_inv (err x) f b e = cc
bind_inv panic f b e = cc
