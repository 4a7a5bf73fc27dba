-- ===== src/Base/Parts.antt =====
-- A list with some of its items left out, in order.
use mathlib.Core.List.{List, [], ◌∷◌, ◌++◌}

-- `xs` is what is left of `ys` where some items are taken out.
pub data IsPart {ℓ} {A : Type ℓ} : List A → List A → Type ℓ where
  nothing : IsPart [] []
  left_out : {xs ys : List A} (y : A) → IsPart xs ys → IsPart xs (y ∷ ys)
  taken : {xs ys : List A} (y : A) → IsPart xs ys → IsPart (y ∷ xs) (y ∷ ys)

pub IsPart-append {ℓ} :
    {A : Type ℓ} {xs ys zs ws : List A} → IsPart xs ys → IsPart zs ws → IsPart (xs ++ zs) (ys ++ ws)
IsPart-append nothing k = k
IsPart-append (left_out y h) k = left_out y (IsPart-append h k)
IsPart-append (taken y h) k = taken y (IsPart-append h k)

-- Everything left out.
pub IsPart-nil {ℓ} : {A : Type ℓ} (ys : List A) → IsPart [] ys
IsPart-nil [] = nothing
IsPart-nil (y ∷ ys) = left_out y (IsPart-nil ys)
