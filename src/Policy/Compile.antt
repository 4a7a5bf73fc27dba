-- ===== src/Policy/Compile.antt =====
-- src/policy/matchers.ts, compileRegex and compilePathMatchers: from the mapping under an argument's
-- path to its matchers. The error is the message of the PolicyError.
pub mod Safe
use mcprelay.Base.{
  ℕ, String, Bool, not, ◌||◌, ◌&&◌, Option, none, some, List, [], ◌∷◌, ◌==◌, leb, length, concat,
  units, if◌then◌else◌,
}
use mcprelay.Base.Int.{pos}
use mcprelay.Base.Result.{Result, err, ok, try_map}
use mcprelay.Json.{
  Number, dyadic, num_leb, is_finite, is_integer, of_nat, Value, str, num, obj, arr, items, Fields,
  entries,
}
use mcprelay.Runtime.{Runtime}
use mcprelay.Policy.Redos.{Risk, nested_quantifier, ambiguous_alternation, find_redos_risk}
use mcprelay.Policy.Matchers.{Matcher, equals, one_of, prefix, regex, max_length, at_least, at_most}

abbrev pub max_pattern_length : ℕ
max_pattern_length = 200

abbrev risk_text : Risk → String
risk_text nested_quantifier = "nested quantifier"
risk_text ambiguous_alternation = "ambiguous alternation"

unfoldable pub compile_regex : Runtime → String → String → Result String String
unfolding find_redos_risk
compile_regex rt pattern label =
    if not (leb (length (units pattern)) max_pattern_length)
    then err (concat (label ∷ ".regex: pattern exceeds 200 characters (FR-Y6)" ∷ []))
    else elim (find_redos_risk (units pattern)) [
      | some risk ↦ err (
          concat (
            label
            ∷ ".regex: pattern rejected ("
            ∷ risk_text risk
            ∷ "); rewrite it without repetition"
            ∷ []))
      | none ↦ elim (rt.regex_error pattern) [
        | some message ↦ err (concat (label ∷ ".regex: invalid pattern: " ∷ message ∷ []))
        | none ↦ ok pattern
      ]
    ]

abbrev pub compile_in : String → Value → Result String Matcher
compile_in label (arr vs) = elim (items vs) [
  | [] ↦ err (concat (label ∷ ".in: expected a non-empty array" ∷ []))
  | v ∷ vs' ↦ ok (one_of (v ∷ vs'))
]
compile_in label value = err (concat (label ∷ ".in: expected a non-empty array" ∷ []))

abbrev pub compile_prefix : String → Value → Result String Matcher
compile_prefix label (str s) =
    if s == ""
    then err (concat (label ∷ ".prefix: expected a non-empty string" ∷ []))
    else ok (prefix s)
compile_prefix label value = err (concat (label ∷ ".prefix: expected a non-empty string" ∷ []))

unfoldable pub compile_pattern : Runtime → String → Value → Result String Matcher
unfolding compile_regex
compile_pattern rt label (str s) =
    if s == ""
    then err (concat (label ∷ ".regex: expected a non-empty string" ∷ []))
    else elim (compile_regex rt s label) [ err e ↦ err e | ok source ↦ ok (regex source) ]
compile_pattern rt label value = err (concat (label ∷ ".regex: expected a non-empty string" ∷ []))

abbrev pub compile_max_length : String → Value → Result String Matcher
compile_max_length label (num n) =
    if is_integer n && num_leb (of_nat 0) n
    then ok (max_length n)
    else err (concat (label ∷ ".max_length: expected an integer >= 0" ∷ []))
compile_max_length label value = err (concat (label ∷ ".max_length: expected an integer >= 0" ∷ []))

abbrev pub compile_bound : String → String → (Number → Matcher) → Value → Result String Matcher
compile_bound label key matcher (num n) =
    if is_finite n
    then ok (matcher n)
    else err (concat (label ∷ "." ∷ key ∷ ": expected a finite number" ∷ []))
compile_bound label key matcher value =
    err (concat (label ∷ "." ∷ key ∷ ": expected a finite number" ∷ []))

-- One key of the mapping.
unfoldable pub compile_matcher : Runtime → String → String × Value → Result String Matcher
unfolding compile_pattern
compile_matcher rt label (key, value) =
    if key == "equals"
    then ok (equals value)
    else if key == "in"
    then compile_in label value
    else if key == "prefix"
    then compile_prefix label value
    else if key == "regex"
    then compile_pattern rt label value
    else if key == "max_length"
    then compile_max_length label value
    else if key == "min"
    then compile_bound label key at_least value
    else if key == "max"
    then compile_bound label key at_most value
    else err (concat (label ∷ "." ∷ key ∷ ": not a recognized matcher" ∷ []))

compile_entries : Runtime → String → List (String × Value) → Result String (List Matcher)
unfolding compile_matcher try_map
compile_entries rt label [] = err (concat (label ∷ ": expected at least one matcher" ∷ []))
compile_entries rt label (e ∷ es) = try_map (compile_matcher rt label) (e ∷ es)

unfoldable pub compile_path_matchers : Runtime → Value → String → Result String (List Matcher)
unfolding compile_entries
compile_path_matchers rt (obj fs) label = compile_entries rt label (entries fs)
compile_path_matchers rt raw label = err (concat (label ∷ ": expected a mapping of matchers" ∷ []))
