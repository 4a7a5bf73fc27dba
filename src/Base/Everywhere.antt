-- ===== src/Base/Everywhere.antt =====
-- Predicates that hold of every item of a list, under the list functions.
use Prim.Native.Nat.{ℕ, zero, suc, ◌≤◌}
use mathlib.Core.Path.{◌≡◌, refl, ap}
use mathlib.Core.Logic.{inl, inr}
use mathlib.Core.Bool.{Bool, true}
use mathlib.Core.List.{List, [], ◌∷◌, map}
use native.Mathlib.Omega.{arith}
use mcprelay.Base.Tests.{Bool-cases}
use mcprelay.Base.Lists.{length, take, filter, All}
use mcprelay.Base.Sort.{insert_by, sort_by, IsSorted, StartsAbove}

module _ {ℓ κ} {A : Type ℓ} (P : A → Type κ) where
  pub All-take : (n : ℕ) (xs : List A) → All P xs → All P (take n xs)
  All-take zero xs h = tt
  All-take (suc n) [] h = tt
  All-take (suc n) (x ∷ xs) h = (h.0, All-take n xs h.1)

  pub All-filter :
      (p : A → Bool) (xs : List A) → All P xs → All (λ x. P x × (p x ≡ true)) (filter p xs)
  All-filter p [] h = tt
  All-filter p (x ∷ xs) h = elim (Bool-cases (p x)) [
    | inl hit ↦ rw (hit, filter) ((h.0, hit), All-filter p xs h.1)
    | inr miss ↦ rw (miss, filter) (All-filter p xs h.1)
  ]

  All-insert_by :
      (leb : A → A → Bool) (x : A) (xs : List A) → P x → All P xs → All P (insert_by leb x xs)
  unfolding insert_by
  All-insert_by leb x [] p h = (p, tt)
  All-insert_by leb x (y ∷ ys) p h = elim (Bool-cases (leb x y)) [
    | inl below ↦ rw (below, insert_by) (p, h)
    | inr above ↦ rw (above, insert_by) (h.0, All-insert_by leb x ys p h.1)
  ]

  pub All-sort_by : (leb : A → A → Bool) (xs : List A) → All P xs → All P (sort_by leb xs)
  unfolding sort_by
  All-sort_by leb [] h = tt
  All-sort_by leb (x ∷ xs) h = All-insert_by leb x (sort_by leb xs) h.0 (All-sort_by leb xs h.1)

module _ {ℓ κ ν} {A : Type ℓ} (P : A → Type κ) (Q : A → Type ν) where
  pub All-imp : ((x : A) → P x → Q x) → (xs : List A) → All P xs → All Q xs
  All-imp f [] h = tt
  All-imp f (x ∷ xs) h = (f x h.0, All-imp f xs h.1)

module _ {ℓ κ ν} {A : Type ℓ} {B : Type κ} (P : B → Type ν) (f : A → B) where
  pub All-map : (xs : List A) → All (λ x. P (f x)) xs → All P (map f xs)
  All-map [] h = tt
  All-map (x ∷ xs) h = (h.0, All-map xs h.1)

module _ {ℓ} {A : Type ℓ} where
  pub take_all : (n : ℕ) (xs : List A) → length xs ≤ n → take n xs ≡ xs
  take_all zero [] h = refl
  take_all zero (x ∷ xs) h = absurd (omega arith)
  take_all (suc n) [] h = refl
  take_all (suc n) (x ∷ xs) h = ap (λ (ys : List A). x ∷ ys) (take_all n xs (omega arith))

module _ {ℓ} {A : Type ℓ} (leb : A → A → Bool) where
  length-insert_by : (x : A) (xs : List A) → length (insert_by leb x xs) ≡ suc (length xs)
  unfolding insert_by
  length-insert_by x [] = refl
  length-insert_by x (y ∷ ys) = ground (arith, length-insert_by x ys)

  pub length-sort_by : (xs : List A) → length (sort_by leb xs) ≡ length xs
  unfolding sort_by
  length-sort_by [] = refl
  length-sort_by (x ∷ xs) = omega (arith, length-insert_by x (sort_by leb xs), length-sort_by xs)

  StartsAbove-take :
      (n : ℕ) (x : A) (xs : List A) → StartsAbove leb x xs → StartsAbove leb x (take n xs)
  StartsAbove-take zero x xs h = tt
  StartsAbove-take (suc n) x [] h = tt
  StartsAbove-take (suc n) x (y ∷ ys) h = h

  pub IsSorted-take : (n : ℕ) (xs : List A) → IsSorted leb xs → IsSorted leb (take n xs)
  IsSorted-take zero xs h = tt
  IsSorted-take (suc n) [] h = tt
  IsSorted-take (suc n) (x ∷ xs) h = (StartsAbove-take n x xs h.0, IsSorted-take n xs h.1)

module _ {ℓ κ} {A : Type ℓ} {B : Type κ} (leb : B → B → Bool) (f : A → B) where
  StartsAbove-map :
      (x : A) (xs : List A)
      → StartsAbove (λ a b. leb (f a) (f b)) x xs
      → StartsAbove leb (f x) (map f xs)
  StartsAbove-map x [] h = tt
  StartsAbove-map x (y ∷ ys) h = h

  pub IsSorted-map : (xs : List A) → IsSorted (λ a b. leb (f a) (f b)) xs → IsSorted leb (map f xs)
  IsSorted-map [] h = tt
  IsSorted-map (x ∷ xs) h = (StartsAbove-map x xs h.0, IsSorted-map xs h.1)
