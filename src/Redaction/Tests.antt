-- ===== src/Redaction/Tests.antt =====
-- Redaction of a concrete document.
use mcprelay.Base.{◌≡◌, refl, lex_leb}
use mcprelay.Base.Sort.{sort_by}
use mcprelay.Json.{Fields, str, null, obj, prop, no_prop}
use mcprelay.Runtime.Sample.{sample}
use mcprelay.Redaction.{
  default_redaction_patterns, includes, matches_pattern, redact_value, canonical_json,
}
use mcprelay.Redaction.Laws.{IsRedaction, redact_value-exact}

redaction_code : Unit {0}
unfolding includes matches_pattern redact_value canonical_json sort_by lex_leb
redaction_code = tt

abbrev account : Fields
account = prop "user" (str "ann") (prop "my_token" (str "t") no_prop)

hides :
    redact_value sample default_redaction_patterns (obj account)
    ≡ obj (prop "user" (str "ann") (prop "my_token" (str "[REDACTED]") no_prop))
unfolding redaction_code
hides = refl

sorts :
    canonical_json sample (obj (prop "b" null (prop "a" null no_prop)))
    ≡ "{value:value,value:value}"
unfolding redaction_code
sorts = refl

redact_value-exact_example :
    IsRedaction sample default_redaction_patterns
      (obj account)
      (redact_value sample default_redaction_patterns (obj account))
redact_value-exact_example = redact_value-exact sample default_redaction_patterns (obj account)
