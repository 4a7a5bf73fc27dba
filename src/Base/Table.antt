-- ===== src/Base/Table.antt =====
-- A database table with a text primary key: its rows in order of insertion, and the statements
-- SELECT, INSERT, UPDATE and DELETE as the program uses them.
pub mod Keyed
use Prim.Native.Nat.{ℕ}
use Prim.Native.String.{String}
use mathlib.Core.Path.{◌≡◌}
use mathlib.Core.Bool.{Bool, not}
use mathlib.Core.Option.{Option, none, some}
use mathlib.Core.List.{List, [], ◌∷◌, ◌++◌}
use text.Mathlib.Text.{◌==◌}
use mcprelay.Base.Tests.{if◌then◌else◌, is_some}
use mcprelay.Base.Lists.{length, filter}

module _ {ℓ} {A : Type ℓ} (key : A → String) where
  -- SELECT * WHERE key = ?
  unfoldable pub select : String → List A → Option A
  select k [] = none
  select k (x ∷ xs) = if key x == k then some x else select k xs

  -- UPDATE … SET f WHERE p
  unfoldable pub update : (A → Bool) → (A → A) → List A → List A
  update p f [] = []
  update p f (x ∷ xs) = (if p x then f x else x) ∷ update p f xs

  -- The number of rows that WHERE p touches.
  unfoldable pub changes : (A → Bool) → List A → ℕ
  changes p xs = length (filter p xs)

  -- DELETE WHERE p
  unfoldable pub delete : (A → Bool) → List A → List A
  delete p xs = filter (λ x. not (p x)) xs

  -- INSERT, which fails where the primary key is taken.
  unfoldable pub insert : A → List A → Option (List A)
  insert x xs = if is_some (select (key x) xs) then none else some (xs ++ x ∷ [])

  -- The primary key is unique.
  abbrev pub IsKeyed : List A → Type ℓ
  IsKeyed [] = Unit
  IsKeyed (x ∷ xs) = (select (key x) xs ≡ none) × IsKeyed xs
