-- ===== src/Base/Ensures.antt =====
-- What a computation that may throw ensures of its result, with a rule for each way to build one.
use mathlib.Core.Path.{◌≡◌, refl}
use mathlib.Core.Bool.{Bool, true, false}
use mathlib.Core.List.{List, [], ◌∷◌}
use mcprelay.Base.Tests.{if◌then◌else◌}
use mcprelay.Base.Lists.{All}
use mcprelay.Base.Result.{Result, err, ok, ◌>>=◌, try_map}

pub data Ensures {ℓ κ ν} {E : Type ℓ} {A : Type κ} (P : A → Type ν)
    : Result E A → Type (ℓ ⊔ κ ⊔ ν) where
  threw : (e : E) → Ensures P (err e)
  gave : (a : A) → P a → Ensures P (ok a)

module _ {ℓ κ ν} {E : Type ℓ} {A : Type κ} {P : A → Type ν} where
  pub of_ok : {r : Result E A} {a : A} → Ensures P r → r ≡ ok a → P a
  of_ok {a = b} (gave a p) h = let same : a ≡ b = cc in rw (← same) p
  of_ok (threw e) h = absurd cc

  pub to_ensures : (r : Result E A) → ((a : A) → r ≡ ok a → P a) → Ensures P r
  to_ensures (err e) h = threw e
  to_ensures (ok a) h = gave a (h a refl)

  pub Ensures-if :
      (b : Bool) {x y : Result E A}
      → (b ≡ true → Ensures P x)
      → (b ≡ false → Ensures P y)
      → Ensures P (if b then x else y)
  Ensures-if true h k = h refl
  Ensures-if false h k = k refl

module _ {ℓ κ ν μ ξ} {E : Type ℓ} {A : Type κ} {B : Type ν} {Q : A → Type μ} {P : B → Type ξ} where
  pub Ensures-bind :
      {m : Result E A} {f : A → Result E B}
      → Ensures Q m
      → ((a : A) → Q a → Ensures P (f a))
      → Ensures P (m >>= f)
  Ensures-bind (threw e) k = threw e
  Ensures-bind (gave a q) k = k a q

module _ {ℓ κ ν ξ} {E : Type ℓ} {A : Type κ} {B : Type ν} {P : B → Type ξ} where
  -- A first step of which nothing is needed.
  pub Ensures-after :
      (m : Result E A) {f : A → Result E B} → ((a : A) → Ensures P (f a)) → Ensures P (m >>= f)
  Ensures-after (err e) k = threw e
  Ensures-after (ok a) k = k a

  pub Ensures-try_map :
      {f : A → Result E B}
      → ((a : A) → Ensures P (f a))
      → (xs : List A) → Ensures (All P) (try_map f xs)
  unfolding try_map
  Ensures-try_map k [] = gave [] tt
  Ensures-try_map k (x ∷ xs) =
      Ensures-bind (k x)
        (λ y p. Ensures-bind (Ensures-try_map k xs) (λ ys ps. gave (y ∷ ys) (p, ps)))
