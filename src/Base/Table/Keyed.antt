-- ===== src/Base/Table/Keyed.antt =====
-- What the statements do to the row of each key.
use Prim.Native.String.{String}
use mathlib.Core.Path.{◌≡◌, refl}
use mathlib.Core.Logic.{inl, inr}
use mathlib.Core.Bool.{Bool, false, ◌&&◌}
use mathlib.Core.Option.{Option, none, some}
use mathlib.Core.List.{List, [], ◌∷◌, ◌++◌}
use native.Mathlib.Omega.{arith}
use text.Mathlib.Text.{◌==◌}
use text.Mathlib.TextEquality.{eq_iff}
use mcprelay.Base.Tests.{if◌then◌else◌, is_some, Bool-cases}
use mcprelay.Base.Lists.{All}
use mcprelay.Base.Everywhere.{All-imp}
use text.Mathlib.TextPositions.{eq_refl}
use mcprelay.Base.Table.{select, update, changes, delete, IsKeyed}

abbrev pub map_option {ℓ} : {A : Type ℓ} → (A → A) → Option A → Option A
map_option f none = none
map_option f (some x) = some (f x)

-- The row is there and satisfies `c`.
abbrev pub holds {ℓ} : {A : Type ℓ} → (A → Bool) → Option A → Bool
holds c none = false
holds c (some x) = c x

module _ {ℓ} {A : Type ℓ} (key : A → String) where
  abbrev pub key_of : Option A → Option String
  key_of none = none
  key_of (some x) = some (key x)

  -- The row found under `k`, if any, has the key `k`.
  pub key_of-select :
      (k : String) (xs : List A)
      → key_of (select key k xs) ≡ (if is_some (select key k xs) then some k else none)
  unfolding select
  key_of-select k [] = refl
  key_of-select k (y ∷ ys) = ground (arith, key_of-select k ys, eq_iff (key y) k)

  pub select-key : (k : String) (xs : List A) (x : A) → select key k xs ≡ some x → key x ≡ k
  unfolding select
  select-key k [] x h = cc
  select-key k (y ∷ ys) x h = ground (arith, eq_iff (key y) k, select-key k ys x)

  select-cons :
      (x y : A) (xs : List A)
      → select key (key x) xs ≡ none
      → select key (key y) xs ≡ some y
      → select key (key y) (x ∷ xs) ≡ some y
  unfolding select
  select-cons x y xs fresh found = ground (arith, eq_iff (key x) (key y))

  -- The row that an UPDATE leaves under `k`.
  pub select-update :
      (p : A → Bool) (f : A → A) (k : String) (xs : List A)
      → ((x : A) → key (f x) ≡ key x)
      → select key k (update key p f xs)
        ≡ map_option (λ x. if p x then f x else x) (select key k xs)
  unfolding select update
  select-update p f k [] same = refl
  select-update p f k (x ∷ xs) same = ground (arith, same x, select-update p f k xs same)

  IsFresh-update :
      (p : A → Bool) (f : A → A) (k : String) (xs : List A)
      → ((x : A) → key (f x) ≡ key x)
      → select key k xs ≡ none
      → select key k (update key p f xs) ≡ none
  IsFresh-update p f k xs same h = rw (select-update p f k xs same, h)

  pub IsKeyed-update :
      (p : A → Bool) (f : A → A) (xs : List A)
      → ((x : A) → key (f x) ≡ key x)
      → IsKeyed key xs
      → IsKeyed key (update key p f xs)
  unfolding update
  IsKeyed-update p f [] same h = tt
  IsKeyed-update p f (x ∷ xs) same h = (
    elim (Bool-cases (p x)) [
      | inl hit ↦ rw (hit, same x) (IsFresh-update p f (key x) xs same h.0)
      | inr miss ↦ rw miss (IsFresh-update p f (key x) xs same h.0)
    ],
    IsKeyed-update p f xs same h.1,
  )

  pub select-delete :
      (p : A → Bool) (k : String) (xs : List A)
      → IsKeyed key xs
      → select key k (delete key p xs)
        ≡ (if holds p (select key k xs) then none else select key k xs)
  unfolding select delete
  select-delete p k [] h = refl
  select-delete p k (x ∷ xs) h = ground (arith, select-delete p k xs h.1, eq_iff (key x) k)

  pub IsKeyed-delete : (p : A → Bool) (xs : List A) → IsKeyed key xs → IsKeyed key (delete key p xs)
  unfolding delete
  IsKeyed-delete p [] h = tt
  IsKeyed-delete p (x ∷ xs) h =
      ground (arith, IsKeyed-delete p xs h.1, select-delete p (key x) xs h.1)

  pub select-append :
      (k : String) (xs : List A) (x : A)
      → select key k (xs ++ x ∷ []) ≡ (
          if is_some (select key k xs)
          then select key k xs
          else if key x == k
          then some x
          else none)
  unfolding select
  select-append k [] x = refl
  select-append k (y ∷ ys) x = ground (arith, select-append k ys x)

  pub IsKeyed-append :
      (xs : List A) (x : A)
      → IsKeyed key xs
      → select key (key x) xs ≡ none
      → IsKeyed key (xs ++ x ∷ [])
  unfolding select
  IsKeyed-append [] x h fresh = (refl, tt)
  IsKeyed-append (y ∷ ys) x h fresh = (
    ground (arith, h.0, select-append (key y) ys x, eq_iff (key y) (key x), eq_iff (key x) (key y)),
    IsKeyed-append ys x h.1 (ground (arith, fresh)),
  )

  -- An UPDATE of the row `k` under a condition changes one row if it holds of that row, else none.
  pub changes-select :
      (k : String) (c : A → Bool) (xs : List A)
      → IsKeyed key xs
      → changes key (λ x. key x == k && c x) xs ≡ (if holds c (select key k xs) then 1 else 0)
  unfolding select changes
  changes-select k c [] h = refl
  changes-select k c (x ∷ xs) h = ground (arith, changes-select k c xs h.1, eq_iff (key x) k)

  -- Each row is the one found under its own key.
  pub All-select : (xs : List A) → IsKeyed key xs → All (λ x. select key (key x) xs ≡ some x) xs
  All-select [] h = tt
  All-select (x ∷ xs) h = (
    unfold select in rw (eq_refl (key x)) refl,
    All-imp _ _ (λ y found. select-cons x y xs h.0 found) xs (All-select xs h.1),
  )
