-- ===== src/Policy/Matchers.antt =====
-- src/policy/matchers.ts: the matchers of a policy, the path into a call's arguments, and whether a
-- matcher accepts a value. The two sides of a deep comparison are distinct objects, so `===` decides
-- only on primitive values; lengths count UTF-16 code units.
use Prim.Native.Char.{code}
use Prim.Native.String
use mcprelay.Base.{
  ℕ, ◌/◌, ◌%◌, ◌^◌, String, Bool, true, false, ◌&&◌, Option, none, some, List, [], ◌∷◌, ◌==◌,
  nat_eq, leb, length, get_elem?, any, units, if◌then◌else◌,
}
use mcprelay.Base.Int.{pos}
use mcprelay.Json.{
  Number, dyadic, num_eq, num_leb, is_finite, of_nat, Value, undefined, null, str, bool, num, obj,
  arr, Fields, no_prop, prop, Items, no_item, item, items, keys, get,
}
use mcprelay.Runtime.{Runtime}

abbrev pub max_match_input_length : ℕ
max_match_input_length = 4096

-- A regular expression is its source.
pub data Matcher : Type 0 where
  equals : Value → Matcher
  one_of : List Value → Matcher
  prefix : String → Matcher
  regex : String → Matcher
  max_length : Number → Matcher
  at_least at_most : Number → Matcher

unfoldable mutual
  pub deep_equal : Value → Value → Bool
  deep_equal undefined undefined = true
  deep_equal null null = true
  deep_equal (str s) (str t) = s == t
  deep_equal (bool true) (bool c) = c
  deep_equal (bool false) (bool true) = false
  deep_equal (bool false) (bool false) = true
  deep_equal (num m) (num n) = num_eq m n
  deep_equal (arr xs) (arr ys) = items_equal xs ys
  deep_equal (obj fs) (obj gs) =
      let within = fields_within fs gs in nat_eq (length (keys fs)) (length (keys gs)) && within
  deep_equal _ _ = false

  -- every entry equal to the one at its index, and equal lengths
  pub items_equal : Items → Items → Bool
  items_equal no_item no_item = true
  items_equal (item x xs) (item y ys) = let rest = items_equal xs ys in deep_equal x y && rest
  items_equal _ _ = false

  -- every own key of the left, with an equal value at the right
  pub fields_within : Fields → Fields → Bool
  fields_within no_prop gs = true
  fields_within (prop k v fs) gs =
      let rest = fields_within fs gs in
      elim (get k gs) [ none ↦ false | some w ↦ deep_equal v w && rest ]

abbrev on_first : String → List String → List String
on_first c [] = c ∷ []
on_first c (s ∷ ss) = String.◌++◌ c s ∷ ss

-- path.split('.')
unfoldable pub split_dot : String → List String
split_dot String.[] = "" ∷ []
split_dot (String.◌∷◌ c s) =
    let rest = split_dot s in
    if nat_eq (code c) b'.' then "" ∷ rest else on_first (String.◌∷◌ c String.[]) rest

-- The non-negative integer that a number is.
abbrev pub as_index : Number → Option ℕ
as_index (dyadic (pos m) k) = if nat_eq (m % 2 ^ k) 0 then some (m / 2 ^ k) else none
as_index _ = none

-- One segment of a path: `none` where the value has no such place.
unfoldable pub child : Runtime → Value → String → Option Value
child rt (arr vs) segment = elim (as_index (rt.number_of segment)) [
  | none ↦ none
  | some index ↦ get_elem? (items vs) index
]
child rt (obj fs) segment = get segment fs
child rt _ segment = none

unfoldable pub walk : Runtime → Value → List String → Option Value
unfolding child
walk rt current [] = some current
walk rt current (segment ∷ segments) = elim (child rt current segment) [
  | none ↦ none
  | some next ↦ walk rt next segments
]

unfoldable pub get_path : Runtime → Value → String → Option Value
unfolding walk split_dot
get_path rt root path = walk rt root (split_dot path)

-- text.startsWith(prefix), on code units
unfoldable pub starts_with : List ℕ → List ℕ → Bool
starts_with us [] = true
starts_with [] (p ∷ ps) = false
starts_with (u ∷ us) (p ∷ ps) = let rest = starts_with us ps in nat_eq u p && rest

abbrev length_leb : ℕ → Number → Bool
length_leb n limit = num_leb (of_nat n) limit

unfoldable pub matcher_matches : Runtime → Matcher → Value → Bool
unfolding deep_equal items_equal fields_within starts_with
matcher_matches rt (equals v) value = deep_equal value v
matcher_matches rt (one_of vs) value = any (deep_equal value) vs
matcher_matches rt (prefix p) (str s) =
    leb (length (units s)) max_match_input_length && starts_with (units s) (units p)
matcher_matches rt (regex source) (str s) =
    leb (length (units s)) max_match_input_length && rt.regex_test source s
matcher_matches rt (max_length n) (str s) = length_leb (length (units s)) n
matcher_matches rt (max_length n) (arr vs) = length_leb (length (items vs)) n
matcher_matches rt (at_least n) (num m) = is_finite m && num_leb n m
matcher_matches rt (at_most n) (num m) = is_finite m && num_leb m n
matcher_matches rt _ value = false
