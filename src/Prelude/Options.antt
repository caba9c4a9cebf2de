-- ===== src/Prelude/Options.antt =====
-- Optional results in sequence. The operator is that of results, so it is named from here.
use mathlib.Core.Option.{Option, none, some}
use mathlib.Core.Path.{◌≡◌, refl}

module _ {ℓ κ} {A : Type ℓ} {B : Type κ} where
  infixl 5 ◌>>=◌
  abbrev pub ◌>>=◌ : (found : Option A) (next : A → Option B) → Option B
  none >>= next = none
  some value >>= next = next value

  -- A bind that has a value: the first part has one, and so has the second on it.
  pub >>=-eq-some :
      (found : Option A) (next : A → Option B) {b : B}
      → (found >>= next) ≡ some b
      → (a : A) × (found ≡ some a) × (next a ≡ some b)
  >>=-eq-some none next h = cc
  >>=-eq-some (some a) next h = (a, refl, h)
