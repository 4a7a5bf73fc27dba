-- ===== src/Redaction/Laws.antt =====
-- What redaction leaves, at every place of a value.
use mcprelay.Base.{
  ℕ, zero, suc, String, ◌≡◌, refl, sym, ap, ◌∙◌, inl, inr, true, false, Option, none, some, List,
  [], ◌∷◌, ◌++◌, ◌==◌, eq_iff, arith, All, Bool-cases,
}
use mcprelay.Json.{
  Value, undefined, null, str, bool, num, obj, arr, Fields, no_prop, prop, Items, no_item, item,
  get,
}
use mcprelay.Runtime.{Runtime}
use mcprelay.Redaction.Places.{
  Step, at_key, at_index, nth, step, follow, value_at, IsLike, follow-nil, follow-append,
}
use mcprelay.Redaction.Settled.{redact_value-twice}
use mcprelay.Redaction.Patterns.{IsSecret, matches_pattern_iff}
use mcprelay.Redaction.{redacted, matches_pattern, redact_value, redact_fields, redact_items}

module _ (rt : Runtime) (patterns : List String) where
  abbrev then_redacted : Option Value → Option Value
  then_redacted none = none
  then_redacted (some value) = some (redact_value rt patterns value)

  abbrev then_masked : Option Value → Option Value
  then_masked none = none
  then_masked (some value) = some (str redacted)

  -- A step that meets no secret: not by a secret name, nor by `__proto__`.
  abbrev pub IsClear : Step → Type 0
  IsClear (at_key key) = ((key == "__proto__") ≡ false) × ¬ IsSecret rt patterns key
  IsClear (at_index n) = Unit

  not_secret : (key : String) → ¬ IsSecret rt patterns key → matches_pattern rt patterns key ≡ false
  not_secret key unsecret = elim (Bool-cases (matches_pattern rt patterns key)) [
    | inl matches ↦ absurd (unsecret ((matches_pattern_iff rt patterns key).0 matches))
    | inr other ↦ other
  ]

  get-redact_fields :
      (key : String) (fs : Fields)
      → (key == "__proto__") ≡ false
      → matches_pattern rt patterns key ≡ false
      → get key (redact_fields rt patterns fs) ≡ then_redacted (get key fs)
  unfolding get redact_fields
  get-redact_fields key no_prop h k = refl
  get-redact_fields key (prop j value fs) h k =
      ground (arith, h, k, eq_iff j key, get-redact_fields key fs h k)

  get-masked :
      (key : String) (fs : Fields)
      → (key == "__proto__") ≡ false
      → matches_pattern rt patterns key ≡ true
      → get key (redact_fields rt patterns fs) ≡ then_masked (get key fs)
  unfolding get redact_fields
  get-masked key no_prop h k = refl
  get-masked key (prop j value fs) h k = ground (arith, h, k, eq_iff j key, get-masked key fs h k)

  get-proto : (fs : Fields) → get "__proto__" (redact_fields rt patterns fs) ≡ none
  unfolding get redact_fields
  get-proto no_prop = refl
  get-proto (prop j value fs) = ground (arith, get-proto fs)

  nth-redact_items :
      (n : ℕ) (vs : Items) → nth n (redact_items rt patterns vs) ≡ then_redacted (nth n vs)
  unfolding redact_items
  nth-redact_items n no_item = refl
  nth-redact_items zero (item value vs) = refl
  nth-redact_items (suc n) (item value vs) = nth-redact_items n vs

  step-redact_value :
      (s : Step) (value : Value)
      → IsClear s
      → step s (redact_value rt patterns value) ≡ then_redacted (step s value)
  unfolding redact_value
  step-redact_value (at_key key) undefined h = refl
  step-redact_value (at_index n) undefined h = refl
  step-redact_value (at_key key) null h = refl
  step-redact_value (at_index n) null h = refl
  step-redact_value (at_key key) (str t) h = refl
  step-redact_value (at_index n) (str t) h = refl
  step-redact_value (at_key key) (bool b) h = refl
  step-redact_value (at_index n) (bool b) h = refl
  step-redact_value (at_key key) (num m) h = refl
  step-redact_value (at_index n) (num m) h = refl
  step-redact_value (at_key key) (obj fs) (plain, unsecret) =
      get-redact_fields key fs plain (not_secret key unsecret)
  step-redact_value (at_key key) (arr vs) h = refl
  step-redact_value (at_index n) (obj fs) h = refl
  step-redact_value (at_index n) (arr vs) h = nth-redact_items n vs

  follow-redact_value :
      (found : Option Value) (path : List Step)
      → All IsClear path
      → follow (then_redacted found) path ≡ then_redacted (follow found path)
  follow-redact_value none path h = refl
  follow-redact_value (some value) [] h = refl
  follow-redact_value (some value) (s ∷ path) (h, clear) =
      ap (λ found. follow found path) (step-redact_value s value h)
      ∙ follow-redact_value (step s value) path clear

  -- The value of a redacted value at one step from a path that meets no secret.
  last_step :
      (path : List Step) (s : Step) (value : Value)
      → All IsClear path
      → value_at (path ++ s ∷ []) (redact_value rt patterns value)
        ≡ follow (then_redacted (value_at path value)) (s ∷ [])
  last_step path s value clear =
      follow-append (some (redact_value rt patterns value)) path (s ∷ [])
      ∙ ap (λ found. follow found (s ∷ [])) (follow-redact_value (some value) path clear)

  -- What redaction makes of a value.
  pub record IsRedaction (value value' : Value) : Type 0 where
    -- What is no secret is kept.
    pub kept :
        (path : List Step) (v : Value)
        → All IsClear path
        → value_at path value ≡ some v
        → (v' : Value) × (value_at path value' ≡ some v') × IsLike v v'
    -- Each place that is there was there.
    pub nothing_new :
        (path : List Step)
        → All IsClear path
        → value_at path value ≡ none
        → value_at path value' ≡ none
    -- A secret is masked, whatever it is.
    pub masked :
        (path : List Step) (key : String) (v : Value)
        → All IsClear path
        → (key == "__proto__") ≡ false
        → IsSecret rt patterns key
        → value_at (path ++ at_key key ∷ []) value ≡ some v
        → value_at (path ++ at_key key ∷ []) value' ≡ some (str redacted)
    pub no_proto :
        (path : List Step)
        → All IsClear path
        → value_at (path ++ at_key "__proto__" ∷ []) value' ≡ none
    pub settled : redact_value rt patterns value' ≡ value'

  redact_value-IsLike : (v : Value) → IsLike v (redact_value rt patterns v)
  unfolding redact_value
  redact_value-IsLike undefined = refl
  redact_value-IsLike null = refl
  redact_value-IsLike (str s) = refl
  redact_value-IsLike (bool b) = refl
  redact_value-IsLike (num n) = refl
  redact_value-IsLike (obj fs) = (redact_fields rt patterns fs, refl)
  redact_value-IsLike (arr vs) = (redact_items rt patterns vs, refl)

  -- The field of a secret name, and that of `__proto__`, of a redacted value.
  masked_field :
      (key : String) (found : Option Value)
      → (key == "__proto__") ≡ false
      → matches_pattern rt patterns key ≡ true
      → follow (then_redacted found) (at_key key ∷ [])
        ≡ then_masked (follow found (at_key key ∷ []))
  unfolding redact_value
  masked_field key none h k = refl
  masked_field key (some undefined) h k = refl
  masked_field key (some null) h k = refl
  masked_field key (some (str s)) h k = refl
  masked_field key (some (bool b)) h k = refl
  masked_field key (some (num n)) h k = refl
  masked_field key (some (obj fs)) h k =
      follow-nil _ ∙ get-masked key fs h k ∙ ap then_masked (sym (follow-nil _))
  masked_field key (some (arr vs)) h k = refl

  no_proto_field :
      (found : Option Value) → follow (then_redacted found) (at_key "__proto__" ∷ []) ≡ none
  unfolding redact_value
  no_proto_field none = refl
  no_proto_field (some undefined) = refl
  no_proto_field (some null) = refl
  no_proto_field (some (str s)) = refl
  no_proto_field (some (bool b)) = refl
  no_proto_field (some (num n)) = refl
  no_proto_field (some (obj fs)) = ap (λ found. follow found []) (get-proto fs)
  no_proto_field (some (arr vs)) = refl

-- Redaction masks what it has to and only that, at every depth. What a path reaches that meets no
-- secret name and no `__proto__` is kept: an object for an object, an array for an array, any other
-- value as it is; and there is nothing new. What stands there under a secret name (one in which a
-- pattern stands, whatever the case of either) is the marker, whatever it was. A field `__proto__` is
-- lost. A value that is redacted already stays as it is.
pub redact_value-exact :
    (rt : Runtime) (patterns : List String) (value : Value)
    → IsRedaction rt patterns value (redact_value rt patterns value)
redact_value-exact rt patterns value = record {
  kept = λ path v clear found. (
    redact_value rt patterns v,
    follow-redact_value rt patterns (some value) path clear ∙ ap (then_redacted rt patterns) found,
    redact_value-IsLike rt patterns v,
  );
  nothing_new = λ path clear missing.
      follow-redact_value rt patterns (some value) path clear
      ∙ ap (then_redacted rt patterns) missing;
  masked = λ path key v clear plain secret found.
      last_step rt patterns path (at_key key) value clear
      ∙ masked_field rt patterns key (value_at path value) plain
          ((matches_pattern_iff rt patterns key).1 secret)
      ∙ ap (then_masked rt patterns)
          (sym (follow-append (some value) path (at_key key ∷ [])) ∙ found);
  no_proto = λ path clear.
      last_step rt patterns path (at_key "__proto__") value clear
      ∙ no_proto_field rt patterns (value_at path value);
  settled = redact_value-twice rt patterns value;
}
