-- ===== src/Policy/Rules.antt =====
-- src/policy/policy.ts: the rules of a policy, how they are read from the configuration, and the
-- decision on a call. The error is the message of the PolicyError.
pub mod Choice
pub mod Accepted
use Prim.Native.Char.{code}
use Prim.Native.String
use mcprelay.Base.{
  ℕ, suc, ◌+◌, String, Bool, true, false, not, ◌||◌, ◌&&◌, Option, none, some, List, [], ◌∷◌, ◌==◌,
  nat_eq, ltb, length, all, find, is_some, or_default, concat, codes, any, if◌then◌else◌,
}
use mcprelay.Base.Result.{Result, err, ok, ◌>>=◌, try_map}
use mcprelay.Json.{Value, undefined, str, obj, arr, items, Fields, keys, entries, get, get_value}
use mcprelay.Runtime.{Runtime}
use mcprelay.Policy.Glob.{Atom, glob_to_regex, regex_matches, glob_matches}
use mcprelay.Policy.Matchers.{Matcher, get_path, matcher_matches}
use mcprelay.Policy.Compile.{compile_path_matchers}

pub data PolicyAction : Type 0 where
  allow deny : PolicyAction

pub record ArgumentRule : Type 0 where
  pub path : String
  pub matchers : List Matcher

-- `toolRegex` is the glob `tool` compiled, kept as the glob.
pub record CompiledRule : Type 0 where
  pub tool : String
  pub caller : Option String
  pub args : List ArgumentRule
  pub action : PolicyAction
  pub specificity : ℕ

pub record PolicyConfig : Type 0 where
  pub default_action : PolicyAction
  pub rules : List CompiledRule

pub record PolicyCall : Type 0 where
  pub tool : String
  pub arguments : Value
  pub caller : Option String

pub record PolicyDecision : Type 0 where
  pub action : PolicyAction
  pub rule : Option ℕ
  pub reason : String

abbrev pub default_policy_config : PolicyConfig
default_policy_config = record { default_action = allow; rules = [] }

abbrev pub parse_action : Runtime → Value → String → Result String PolicyAction
parse_action rt (str s) label =
    if s == "allow"
    then ok allow
    else if s == "deny"
    then ok deny
    else err (concat (label ∷ ": expected 'allow' or 'deny', got " ∷ rt.stringify (str s) ∷ []))
parse_action rt value label =
    err (concat (label ∷ ": expected 'allow' or 'deny', got " ∷ rt.stringify value ∷ []))

-- One entry of a rule's `args`.
unfoldable pub parse_argument : Runtime → String → String × Value → Result String ArgumentRule
unfolding compile_path_matchers
parse_argument rt label (path, spec) =
    if path == ""
    then err (concat (label ∷ ": argument path must not be empty" ∷ []))
    else elim (compile_path_matchers rt spec (concat (label ∷ "." ∷ path ∷ []))) [
      | err e ↦ err e
      | ok matchers ↦ ok (record { path = path; matchers = matchers })
    ]

unfoldable pub parse_rule_args : Runtime → Value → String → Result String (List ArgumentRule)
unfolding parse_argument try_map
parse_rule_args rt (obj fs) label = try_map (parse_argument rt label) (entries fs)
parse_rule_args rt raw label = err (concat (label ∷ ": expected a mapping of argument paths" ∷ []))

abbrev pub is_rule_key : String → Bool
is_rule_key key = key == "tool" || key == "caller" || key == "args" || key == "action"

-- A field that must be a non-empty string.
abbrev pub non_empty : String → String → Value → Result String String
non_empty label field (str s) =
    if s == ""
    then err (concat (label ∷ "." ∷ field ∷ ": expected a non-empty string" ∷ []))
    else ok s
non_empty label field value =
    err (concat (label ∷ "." ∷ field ∷ ": expected a non-empty string" ∷ []))

abbrev pub matcher_count : List ArgumentRule → ℕ
matcher_count [] = 0
matcher_count (entry ∷ args) = length entry.matchers + matcher_count args

abbrev pub tool_score : String → ℕ
tool_score tool = if any (λ c. nat_eq c b'*' || nat_eq c b'?') (codes tool) then 1 else 2

abbrev pub caller_score : Option String → ℕ
caller_score caller = if is_some caller then 1 else 0

abbrev pub parse_caller : Fields → String → Result String (Option String)
parse_caller fs label = elim (get "caller" fs) [
  | none ↦ ok none
  | some value ↦ elim (non_empty label "caller" value) [ err e ↦ err e | ok s ↦ ok (some s) ]
]

unfoldable pub parse_args : Runtime → Fields → String → Result String (List ArgumentRule)
unfolding parse_rule_args
parse_args rt fs label = elim (get "args" fs) [
  | none ↦ ok []
  | some value ↦ parse_rule_args rt value (concat (label ∷ ".args" ∷ []))
]

abbrev pub compiled_rule : String → Option String → List ArgumentRule → PolicyAction → CompiledRule
compiled_rule tool caller args action = record {
  tool = tool;
  caller = caller;
  args = args;
  action = action;
  specificity = tool_score tool + caller_score caller + matcher_count args;
}

unfoldable pub parse_rule_action : Runtime → Fields → String → Result String PolicyAction
parse_rule_action rt fs label = elim (get "action" fs) [
  | none ↦ err (concat (label ∷ ".action: expected 'allow' or 'deny'" ∷ []))
  | some value ↦ parse_action rt value (concat (label ∷ ".action" ∷ []))
]

unfoldable pub parse_rule_fields : Runtime → Fields → String → Result String CompiledRule
unfolding parse_rule_action parse_args
parse_rule_fields rt fs label = non_empty label "tool" (get_value "tool" fs) >>= λ tool.
    parse_rule_action rt fs label >>= λ action. parse_caller fs label >>= λ caller.
    parse_args rt fs label >>= λ args. ok (compiled_rule tool caller args action)

unfoldable pub parse_rule : Runtime → Value → String → Result String CompiledRule
unfolding parse_rule_fields
parse_rule rt (obj fs) label = elim (find (λ key. not (is_rule_key key)) (keys fs)) [
  | some key ↦ err (concat (label ∷ "." ∷ key ∷ ": not a recognized rule field" ∷ []))
  | none ↦ parse_rule_fields rt fs label
]
parse_rule rt raw label = err (concat (label ∷ ": expected a mapping" ∷ []))

-- rules.map with the index of each entry in its label
unfoldable pub parse_rules : Runtime → String → ℕ → List Value → Result String (List CompiledRule)
unfolding parse_rule
parse_rules rt label index [] = ok []
parse_rules rt label index (raw ∷ raws) =
    let rest = parse_rules rt label (suc index) raws in
    parse_rule rt raw (concat (label ∷ ".rules[" ∷ rt.text_of_nat index ∷ "]" ∷ [])) >>= λ rule.
    rest >>= λ rules. ok (rule ∷ rules)

abbrev pub is_policy_key : String → Bool
is_policy_key key = key == "default" || key == "rules"

unfoldable pub parse_rule_list : Runtime → String → Option Value → Result String (List CompiledRule)
unfolding parse_rules
parse_rule_list rt label none = ok []
parse_rule_list rt label (some (arr vs)) = parse_rules rt label 0 (items vs)
parse_rule_list rt label (some value) = err (concat (label ∷ ".rules: expected a list" ∷ []))

abbrev pub parse_default : Runtime → Fields → String → Result String PolicyAction
parse_default rt fs label = elim (get "default" fs) [
  | none ↦ ok allow
  | some value ↦ parse_action rt value (concat (label ∷ ".default" ∷ []))
]

unfoldable pub parse_fields : Runtime → Fields → String → Result String PolicyConfig
unfolding parse_rule_list
parse_fields rt fs label = parse_default rt fs label >>= λ action.
    parse_rule_list rt label (get "rules" fs) >>= λ rules.
    ok (record { default_action = action; rules = rules })

unfoldable pub parse_policy_config : Runtime → Value → String → Result String PolicyConfig
unfolding parse_fields
parse_policy_config rt (obj fs) label = elim (find (λ key. not (is_policy_key key)) (keys fs)) [
  | some key ↦ err (concat (label ∷ "." ∷ key ∷ ": not a recognized setting" ∷ []))
  | none ↦ parse_fields rt fs label
]
parse_policy_config rt raw label = err (concat (label ∷ ": expected a mapping" ∷ []))

unfoldable pub argument_matches : Runtime → Value → ArgumentRule → Bool
unfolding get_path matcher_matches
argument_matches rt arguments entry = elim (get_path rt arguments entry.path) [
  | none ↦ false
  | some value ↦ all (λ matcher. matcher_matches rt matcher value) entry.matchers
]

abbrev caller_matches : Option String → String → Bool
caller_matches none caller = true
caller_matches (some expected) caller = expected == caller

unfoldable pub rule_matches : Runtime → CompiledRule → PolicyCall → String → Bool
unfolding glob_matches argument_matches
rule_matches rt rule call caller =
    glob_matches rule.tool call.tool
    && caller_matches rule.caller caller
    && all (argument_matches rt call.arguments) rule.args

-- The best rule so far, with its index.
abbrev pub Best : Type 0
Best = Option (CompiledRule × ℕ)

abbrev pub better : CompiledRule → Best → Bool
better rule none = true
better rule (some (best, index)) = ltb best.specificity rule.specificity

-- One round of the loop: a strictly more specific rule takes the place of the best so far.
abbrev pub keep_better : (CompiledRule → Bool) → CompiledRule → ℕ → Best → Best
keep_better matches rule index best =
    if matches rule && better rule best then some (rule, index) else best

-- The loop over the rules from the given index on.
unfoldable pub select_rule : (CompiledRule → Bool) → ℕ → List CompiledRule → Best → Best
select_rule matches index [] best = best
select_rule matches index (rule ∷ rules) best =
    select_rule matches (suc index) rules (keep_better matches rule index best)

abbrev action_text : PolicyAction → String
action_text allow = "allow"
action_text deny = "deny"

abbrev pub decide : Runtime → PolicyConfig → Best → PolicyDecision
decide rt policy (some (rule, index)) = record {
  action = rule.action;
  rule = some (suc index);
  reason =
      concat ("matched rule #" ∷ rt.text_of_nat (suc index) ∷ " (tool '" ∷ rule.tool ∷ "')" ∷ []);
}
decide rt policy none = record {
  action = policy.default_action;
  rule = none;
  reason =
      concat ("no rule matched; default action '" ∷ action_text policy.default_action ∷ "'" ∷ []);
}

unfoldable pub evaluate_call : Runtime → PolicyConfig → PolicyCall → PolicyDecision
unfolding rule_matches select_rule
evaluate_call rt policy call = decide rt policy (
    select_rule (λ rule. rule_matches rt rule call (or_default call.caller "local")) 0 policy.rules
      none)
