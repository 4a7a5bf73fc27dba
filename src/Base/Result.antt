-- ===== src/Base/Result.antt =====
-- A computation that may throw an error of type `E`, and running one after another.
use mathlib.Core.Path.{◌≡◌, refl}
use mathlib.Core.List.{List, [], ◌∷◌}

pub data Result {ℓ κ} (E : Type ℓ) (A : Type κ) : Type (ℓ ⊔ κ) where
  err : E → Result E A
  ok : A → Result E A

module _ {ℓ κ ν} {E : Type ℓ} {A : Type κ} {B : Type ν} where
  infixl 4 ◌>>=◌
  abbrev pub ◌>>=◌ : Result E A → (A → Result E B) → Result E B
  ◌>>=◌ r next = elim r [ err e ↦ err e | ok a ↦ next a ]

  -- A chain that succeeds passed through its first step.
  pub ok_of_bind :
      {next : A → Result E B} {b : B} (r : Result E A)
      → (r >>= next) ≡ ok b
      → (a : A) × (r ≡ ok a) × (next a ≡ ok b)
  ok_of_bind (err e) h = cc
  ok_of_bind (ok a) h = (a, refl, h)

  -- The array's `map` with a callback that may throw.
  unfoldable pub try_map : (A → Result E B) → List A → Result E (List B)
  try_map f [] = ok []
  try_map f (x ∷ xs) =
      let rest = try_map f xs in
      elim (f x) [ err e ↦ err e | ok y ↦ elim rest [ err e ↦ err e | ok ys ↦ ok (y ∷ ys) ] ]
