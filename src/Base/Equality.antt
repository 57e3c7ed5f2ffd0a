-- ===== src/Base/Equality.antt =====
-- Python's `==` decides equality.
use mathlib.Core.Path.{◌≡◌, ap}
use mathlib.Core.Bool.{true, false}
use native.Mathlib.Omega.{arith}
use aiotruenas.Base.Tests.{Eq, ◌==◌}

module _ {ℓ} {A : Type ℓ} ⦃e : Eq A⦄ where
  pub ==-eq : (a b : A) → a == b ≡ true → a ≡ b
  ==-eq a b h = ground arith

  pub ==-ne : (a b : A) → a == b ≡ false → ¬ (a ≡ b)
  ==-ne a b h same = ground arith

  pub ==-sym : (a b : A) → (a == b) ≡ (b == a)
  ==-sym a b = ground arith

  pub ==-refl : (a : A) → a == a ≡ true
  ==-refl a = ground arith

-- An injective function keeps the test.
module _ {ℓ κ} {A : Type ℓ} {B : Type κ} ⦃e : Eq A⦄ ⦃d : Eq B⦄ where
  pub ==-ap : (f : A → B) (a b : A) → (f a ≡ f b → a ≡ b) → (f a == f b) ≡ (a == b)
  ==-ap f a b injective = ground (arith, ap f)
