-- ===== src/Redaction/Places.antt =====
-- The places of a value: what stands at the end of a path of keys and indices.
use mcprelay.Base.{ℕ, zero, suc, String, ◌≡◌, refl, Option, none, some, List, [], ◌∷◌, ◌++◌}
use mcprelay.Json.{Value, obj, arr, Fields, Items, no_item, item, get}

-- The steps from a value to one that it holds.
pub data Step : Type 0 where
  at_key : String → Step
  at_index : ℕ → Step

abbrev pub nth : ℕ → Items → Option Value
nth n no_item = none
nth zero (item value vs) = some value
nth (suc n) (item value vs) = nth n vs

abbrev pub step : Step → Value → Option Value
step (at_key key) (obj fs) = get key fs
step (at_index n) (arr vs) = nth n vs
step s value = none

abbrev pub follow : Option Value → List Step → Option Value
follow none path = none
follow (some value) [] = some value
follow (some value) (s ∷ path) = follow (step s value) path

-- The value at the end of a path, if there is one.
abbrev pub value_at : List Step → Value → Option Value
value_at path value = follow (some value) path

-- An object for an object, an array for an array, and any other value for itself.
abbrev pub IsLike : Value → Value → Type 0
IsLike (obj fs) v = (gs : Fields) × (v ≡ obj gs)
IsLike (arr vs) v = (ws : Items) × (v ≡ arr ws)
IsLike value v = v ≡ value

pub follow-nil : (found : Option Value) → follow found [] ≡ found
follow-nil none = refl
follow-nil (some value) = refl

pub follow-append :
    (found : Option Value) (path more : List Step)
    → follow found (path ++ more) ≡ follow (follow found path) more
follow-append none path more = refl
follow-append (some value) [] more = refl
follow-append (some value) (s ∷ path) more = follow-append (step s value) path more
