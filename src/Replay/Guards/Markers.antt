-- ===== src/Replay/Guards/Markers.antt =====
-- The markers that stop a replay, and the names that its message gives.
use mcprelay.Base.{
  ℕ, suc, String, ◌≡◌, refl, Bool, ◌||◌, List, [], ◌∷◌, ◌++◌, ltb, length, length-append, arith,
  concat,
}
use mcprelay.Json.{
  Value, undefined, null, str, bool, num, obj, arr, Fields, no_prop, prop, Items, no_item, item,
}
use mcprelay.Runtime.{Runtime}
use mcprelay.Replay.Guards.{
  contains_redacted_markers, field_has_marker, item_has_marker, redacted_marker_keys,
  field_marker_keys, item_marker_keys, field_name,
}

is_filled : List String → Bool
is_filled names = ltb 0 (length names)

is_filled-append : (xs ys : List String) → is_filled (xs ++ ys) ≡ (is_filled xs || is_filled ys)
unfolding is_filled
is_filled-append xs ys = ground (arith, length-append xs ys)

module _ (rt : Runtime) where
  mutual
    unfolding contains_redacted_markers redacted_marker_keys is_filled

    value_marked :
        (prefix : String) (value : Value)
        → contains_redacted_markers value ≡ is_filled (redacted_marker_keys rt prefix value)
    value_marked prefix undefined = refl
    value_marked prefix null = refl
    value_marked prefix (str s) = ground arith
    value_marked prefix (bool b) = refl
    value_marked prefix (num n) = refl
    value_marked prefix (obj fs) = fields_marked prefix fs
    value_marked prefix (arr vs) = items_marked prefix 0 vs

    fields_marked :
        (prefix : String) (fs : Fields)
        → field_has_marker fs ≡ is_filled (field_marker_keys rt prefix fs)
    fields_marked prefix no_prop = refl
    fields_marked prefix (prop key value fs) = ground (
      arith,
      value_marked (field_name prefix key) value,
      fields_marked prefix fs,
      is_filled-append (redacted_marker_keys rt (field_name prefix key) value)
          (field_marker_keys rt prefix fs),
    )

    items_marked :
        (prefix : String) (index : ℕ) (vs : Items)
        → item_has_marker vs ≡ is_filled (item_marker_keys rt prefix index vs)
    items_marked prefix index no_item = refl
    items_marked prefix index (item value vs) =
        let place = concat (prefix ∷ "[" ∷ rt.text_of_nat index ∷ "]" ∷ []) in
        ground (
          arith,
          value_marked place value,
          items_marked prefix (suc index) vs,
          is_filled-append (redacted_marker_keys rt place value)
              (item_marker_keys rt prefix (suc index) vs),
        )

-- A value holds a redaction marker, however deep, exactly if the list of places that the run would
-- name is not empty: no replay is stopped without naming what to supply, and none goes on with a
-- marker left.
pub redacted_marker_keys_complete :
    (rt : Runtime) (prefix : String) (value : Value)
    → contains_redacted_markers value ≡ ltb 0 (length (redacted_marker_keys rt prefix value))
unfolding is_filled
redacted_marker_keys_complete rt prefix value = value_marked rt prefix value
