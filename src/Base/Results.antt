-- ===== src/Base/Results.antt =====
-- Code that returns or raises.
use mathlib.Core.Path.{◌≡◌, refl}

pub data Result {ℓ κ} (E : Type ℓ) (A : Type κ) : Type (ℓ ⊔ κ) where
  ok : A → Result E A
  raise : E → Result E A

module _ {ℓ κ μ} {E : Type ℓ} {A : Type κ} {B : Type μ} where
  infixl 5 ◌>>=◌
  abbrev pub ◌>>=◌ : Result E A → (A → Result E B) → Result E B
  ok a >>= next = next a
  raise why >>= next = raise why

  -- A bind that returns: both of its parts return.
  pub >>=-eq-ok :
      (first : Result E A) (next : A → Result E B) {b : B}
      → (first >>= next) ≡ ok b
      → (a : A) × (first ≡ ok a) × (next a ≡ ok b)
  >>=-eq-ok (ok a) next both = (a, refl, both)
  >>=-eq-ok (raise why) next both = cc
