-- ===== src/Pipeline/Idempotency.antt =====
-- src/pipeline/idempotency.ts: the idempotency key of a call.
use mcprelay.Base.{String, Option, none, some, List, [], ◌∷◌}
use mcprelay.Json.{Number, Value, Fields, num, str, obj, get_value}

-- `String(n)` of a number is the runtime's.
module _ (string_of_number : Number → String) where
  -- `typeof value === 'string' || typeof value === 'number'`, then `String(value)`
  abbrev key_text : Value → Option String
  key_text (str s) = some s
  key_text (num n) = some (string_of_number n)
  key_text _ = none

  -- the loop over the field names
  first_key : List String → Fields → Option String
  first_key [] fs = none
  first_key (name ∷ names) fs = elim (key_text (get_value name fs)) [
    | some k ↦ some k
    | none ↦ first_key names fs
  ]

  from_arguments : Value → Option String
  unfolding first_key
  from_arguments (obj fs) = first_key ("idempotency_key" ∷ "idempotencyKey" ∷ []) fs
  from_arguments _ = none

  from_meta : Value → Option String
  from_meta (obj fs) = key_text (get_value "idempotencyKey" fs)
  from_meta _ = none

  unfoldable pub extract_idempotency_key : Value → Value → Option String
  unfolding from_meta from_arguments
  extract_idempotency_key meta arguments = elim (from_meta meta) [
    | some k ↦ some k
    | none ↦ from_arguments arguments
  ]
