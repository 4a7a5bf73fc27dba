-- ===== src/Base/Sort.antt =====
-- Stable insertion sort by a Boolean order.
use mathlib.Core.Path.{◌≡◌}
use mathlib.Core.Bool.{Bool, true, false}
use mathlib.Core.List.{List, [], ◌∷◌, Perm}
use mathlib.Core.List.Perm
use native.Mathlib.Omega.{arith}
use mcprelay.Base.Tests.{Bool-cases}
use mathlib.Core.Logic.{inl, inr}

module _ {ℓ} {A : Type ℓ} (leb : A → A → Bool) where
  unfoldable pub insert_by : A → List A → List A
  insert_by x [] = x ∷ []
  insert_by x (y ∷ ys) = elim (leb x y) [ true ↦ x ∷ y ∷ ys | false ↦ y ∷ insert_by x ys ]

  unfoldable pub sort_by : List A → List A
  unfolding insert_by
  sort_by [] = []
  sort_by (x ∷ xs) = insert_by x (sort_by xs)

  abbrev pub StartsAbove : A → List A → Type 0
  StartsAbove x [] = Unit
  StartsAbove x (y ∷ ys) = leb x y ≡ true

  abbrev pub IsSorted : List A → Type 0
  IsSorted [] = Unit
  IsSorted (x ∷ xs) = StartsAbove x xs × IsSorted xs

module _ {ℓ} {A : Type ℓ} (leb : A → A → Bool)
    (total : (x y : A) → leb x y ≡ false → leb y x ≡ true) where
  StartsAbove-insert_by :
      (x z : A) (ys : List A)
      → leb z x ≡ true
      → StartsAbove leb z ys
      → StartsAbove leb z (insert_by leb x ys)
  unfolding insert_by
  StartsAbove-insert_by x z [] h k = h
  StartsAbove-insert_by x z (y ∷ ys) h k = ground arith

  insert_by-IsSorted : (x : A) (ys : List A) → IsSorted leb ys → IsSorted leb (insert_by leb x ys)
  unfolding insert_by
  insert_by-IsSorted x [] h = (tt, tt)
  insert_by-IsSorted x (y ∷ ys) h = elim (Bool-cases (leb x y)) [
    | inl below ↦ rw (below, insert_by) (below, h)
    | inr above ↦
        rw (above, insert_by)
          (StartsAbove-insert_by x y ys (total x y above) h.0, insert_by-IsSorted x ys h.1)
  ]

  pub sort_by-IsSorted : (xs : List A) → IsSorted leb (sort_by leb xs)
  unfolding sort_by
  sort_by-IsSorted [] = tt
  sort_by-IsSorted (x ∷ xs) = insert_by-IsSorted x (sort_by leb xs) (sort_by-IsSorted xs)

module _ {ℓ} {A : Type ℓ} (leb : A → A → Bool) where
  insert_by-perm : (x : A) (ys : List A) → Perm (insert_by leb x ys) (x ∷ ys)
  unfolding insert_by
  insert_by-perm x [] = Perm.refl _
  insert_by-perm x (y ∷ ys) = elim (Bool-cases (leb x y)) [
    | inl below ↦ rw (below, insert_by) (Perm.refl _)
    | inr above ↦
        rw (above, insert_by) (Perm.trans (Perm.cons y (insert_by-perm x ys)) (Perm.swap x y ys))
  ]

  pub sort_by-perm : (xs : List A) → Perm (sort_by leb xs) xs
  unfolding sort_by
  sort_by-perm [] = Perm.refl _
  sort_by-perm (x ∷ xs) =
      Perm.trans (insert_by-perm x (sort_by leb xs)) (Perm.cons x (sort_by-perm xs))
