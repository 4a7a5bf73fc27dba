-- ===== src/Redaction/Settled.antt =====
-- A value that is redacted stays as it is.
use mcprelay.Base.{String, ◌≡◌, refl, ap, arith, List}
use mcprelay.Json.{
  Value, undefined, null, str, bool, num, obj, arr, Fields, no_prop, prop, Items, no_item, item,
}
use mcprelay.Runtime.{Runtime}
use mcprelay.Redaction.{matches_pattern, put_redacted, redact_value, redact_fields, redact_items}

module _ (rt : Runtime) (patterns : List String) where
  put_redacted-twice :
      (key : String) (value : Value) (fs : Fields)
      → redact_value rt patterns value ≡ value
      → redact_fields rt patterns fs ≡ fs
      → redact_fields rt patterns (put_redacted (matches_pattern rt patterns key) key value fs)
        ≡ put_redacted (matches_pattern rt patterns key) key value fs
  unfolding redact_value redact_fields
  put_redacted-twice key value fs h k = ground (arith, h, k)

  mutual
    unfolding redact_value redact_fields redact_items

    pub redact_value-twice :
        (value : Value)
        → redact_value rt patterns (redact_value rt patterns value) ≡ redact_value rt patterns value
    redact_value-twice undefined = refl
    redact_value-twice null = refl
    redact_value-twice (str s) = refl
    redact_value-twice (bool b) = refl
    redact_value-twice (num n) = refl
    redact_value-twice (obj fs) = ap (λ (gs : Fields). obj gs) (redact_fields-twice fs)
    redact_value-twice (arr vs) = ap (λ (ws : Items). arr ws) (redact_items-twice vs)

    redact_fields-twice :
        (fs : Fields)
        → redact_fields rt patterns (redact_fields rt patterns fs) ≡ redact_fields rt patterns fs
    redact_fields-twice no_prop = refl
    redact_fields-twice (prop key value fs) =
        put_redacted-twice key (redact_value rt patterns value) (redact_fields rt patterns fs)
          (redact_value-twice value) (redact_fields-twice fs)

    redact_items-twice :
        (vs : Items)
        → redact_items rt patterns (redact_items rt patterns vs) ≡ redact_items rt patterns vs
    redact_items-twice no_item = refl
    redact_items-twice (item value vs) =
        ground (arith, redact_value-twice value, redact_items-twice vs)
