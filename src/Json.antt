-- ===== src/Json.antt =====
-- The values that the program calls `unknown`: what JSON and YAML documents hold, and `undefined`.
-- A number is a dyadic rational (every finite double is one), an infinity or NaN.
use mcprelay.Base.{
  ℕ, ◌%◌, ◌^◌, String, Bool, true, false, Option, none, some, List, [], ◌∷◌, ◌==◌, nat_eq,
  if◌then◌else◌,
}
use mcprelay.Base.Int.{ℤ, pos, int_leb, int_eq, scale, abs}

pub data Number : Type 0 where
  -- m / 2 ^ k
  dyadic : ℤ → ℕ → Number
  infinity : Bool → Number
  nan : Number

-- x === y on numbers
abbrev pub num_eq : Number → Number → Bool
num_eq (dyadic m k) (dyadic n l) = int_eq (scale m l) (scale n k)
num_eq (infinity true) (infinity true) = true
num_eq (infinity false) (infinity false) = true
num_eq _ _ = false

-- x <= y on finite numbers; false where one is not finite (the callers test that first)
abbrev pub num_leb : Number → Number → Bool
num_leb (dyadic m k) (dyadic n l) = int_leb (scale m l) (scale n k)
num_leb _ _ = false

-- Number.isFinite
abbrev pub is_finite : Number → Bool
is_finite (dyadic m k) = true
is_finite _ = false

-- Number.isInteger
abbrev pub is_integer : Number → Bool
is_integer (dyadic m k) = nat_eq (abs m % 2 ^ k) 0
is_integer _ = false

abbrev pub of_nat : ℕ → Number
of_nat n = dyadic (pos n) 0

mutual
  -- What `typeof` tells apart, with `null` and arrays told from other objects.
  pub data Value : Type 0 where
    undefined null : Value
    str : String → Value
    bool : Bool → Value
    num : Number → Value
    obj : Fields → Value
    arr : Items → Value

  pub data Fields : Type 0 where
    no_prop : Fields
    prop : String → Value → Fields → Fields

  pub data Items : Type 0 where
    no_item : Items
    item : Value → Items → Items

abbrev pub items : Items → List Value
items no_item = []
items (item v vs) = v ∷ items vs

-- Object.entries
abbrev pub entries : Fields → List (String × Value)
entries no_prop = []
entries (prop k v fs) = (k, v) ∷ entries fs

-- Object.keys
abbrev pub keys : Fields → List String
keys no_prop = []
keys (prop k v fs) = k ∷ keys fs

-- The own property `k`: `none` where `'k' in o` is false.
unfoldable pub get : String → Fields → Option Value
get k no_prop = none
get k (prop j v fs) = if j == k then some v else get k fs

-- o.k, `undefined` where there is no such property
abbrev pub get_value : String → Fields → Value
get_value k fs = elim (get k fs) [ none ↦ undefined | some v ↦ v ]

-- JSON.parse(JSON.stringify(v)): `undefined` properties are left out, and `undefined` in an array
-- (or at the top, where the program writes `?? null`), NaN and infinities become null.
unfoldable mutual
  pub through_json : Value → Value
  through_json undefined = null
  through_json null = null
  through_json (str s) = str s
  through_json (bool b) = bool b
  through_json (num (dyadic m k)) = num (dyadic m k)
  through_json (num n) = null
  through_json (obj fs) = obj (through_json_fields fs)
  through_json (arr vs) = arr (through_json_items vs)

  pub through_json_fields : Fields → Fields
  through_json_fields no_prop = no_prop
  through_json_fields (prop k undefined fs) = through_json_fields fs
  through_json_fields (prop k v fs) = prop k (through_json v) (through_json_fields fs)

  pub through_json_items : Items → Items
  through_json_items no_item = no_item
  through_json_items (item v vs) = item (through_json v) (through_json_items vs)
