-- ===== src/Policy/Rules/Accepted.antt =====
-- What the reader of the policy accepts.
use mathlib.Core.Path.{subst}
use mcprelay.Base.{
  ℕ, suc, ◌+◌, ◌≡◌, ◌≢◌, refl, inl, inr, String, not, Option, none, some, List, [], ◌∷◌, ◌==◌,
  eq_iff, arith, All, find, Option-cases, concat,
}
use mcprelay.Base.Result.{ok, ok_of_bind}
use mcprelay.Json.{Value, str, obj, arr, Fields, items, entries, get, get_value, keys}
use mcprelay.Runtime.{Runtime}
use mcprelay.Policy.Compile.{compile_path_matchers}
use mcprelay.Policy.Compile.Safe.{
  IsSafe, Result-cases, All-try_map, unwrap_ok, if_ok, compile_path_matchers-IsSafe,
}
use mcprelay.Policy.Rules.{
  ArgumentRule, CompiledRule, PolicyConfig, non_empty, parse_caller, parse_rule_action,
  compiled_rule, parse_argument, parse_rule_args, parse_args, parse_rule_fields, parse_rule,
  parse_rules, parse_rule_list, parse_default, parse_policy_config, tool_score, caller_score,
  matcher_count, is_rule_key, is_policy_key, parse_fields,
}

module _ (rt : Runtime) where
  IsArgument : ArgumentRule → Type 0
  IsArgument entry = (entry.path ≢ "") × (entry.matchers ≢ []) × All (IsSafe rt) entry.matchers

  -- A tool, the specificity that the documentation gives, and safe matchers.
  unfoldable pub IsRule : CompiledRule → Type 0
  unfolding IsArgument
  IsRule rule =
      (rule.tool ≢ "")
      × (rule.specificity
          ≡ tool_score rule.tool + caller_score rule.caller + matcher_count rule.args)
      × All IsArgument rule.args

  parse_argument-IsArgument :
      (label : String) (entry : String × Value) (a : ArgumentRule)
      → parse_argument rt label entry ≡ ok a
      → IsArgument a
  unfolding IsArgument parse_argument
  parse_argument-IsArgument label (path, spec) a h = elim (if_ok (path == "") _ _ a h) [
    | inl (empty, k) ↦ absurd cc
    | inr (filled, k) ↦
        elim (Result-cases (compile_path_matchers rt spec (concat (label ∷ "." ∷ path ∷ [])))) [
          | inl (e, fails) ↦ absurd (ground (arith, fails, k))
          | inr (ms, compiles) ↦
              subst IsArgument
                (unwrap_ok (record { path = path; matchers = ms }) a (ground (arith, compiles, k)))
                (let (some_matcher, safe) =
                    compile_path_matchers-IsSafe rt spec (concat (label ∷ "." ∷ path ∷ [])) ms
                      compiles in
                  (λ e. ground (arith, eq_iff path ""), some_matcher, safe))
        ]
  ]

  parse_rule_args-IsArgument :
      (raw : Value) (label : String) (args : List ArgumentRule)
      → parse_rule_args rt raw label ≡ ok args
      → All IsArgument args
  unfolding parse_rule_args
  parse_rule_args-IsArgument (obj fs) label args h =
      All-try_map IsArgument (parse_argument rt label) (parse_argument-IsArgument label)
        (entries fs) args h
  parse_rule_args-IsArgument _ label args h = absurd cc

  parse_args-IsArgument :
      (fs : Fields) (label : String) (args : List ArgumentRule)
      → parse_args rt fs label ≡ ok args
      → All IsArgument args
  unfolding parse_args
  parse_args-IsArgument fs label args h = elim (Option-cases (get "args" fs)) [
    | inl missing ↦ subst (All IsArgument) (unwrap_ok [] args (ground (arith, missing, h))) tt
    | inr (raw, given) ↦
        parse_rule_args-IsArgument raw (concat (label ∷ ".args" ∷ [])) args
          (ground (arith, given, h))
  ]

  non_empty-filled :
      (label field : String) (value : Value) (s : String)
      → non_empty label field value ≡ ok s
      → s ≢ ""
  non_empty-filled label field (str t) s h = elim (if_ok (t == "") _ _ s h) [
    | inl (empty, k) ↦ absurd cc
    | inr (filled, k) ↦ subst (λ u. u ≢ "") (unwrap_ok t s k) (λ e. ground (arith, eq_iff t ""))
  ]
  non_empty-filled label field _ s h = absurd cc

  parse_rule_fields-IsRule :
      (fs : Fields) (label : String) (rule : CompiledRule)
      → parse_rule_fields rt fs label ≡ ok rule
      → IsRule rule
  unfolding IsRule parse_rule_fields
  parse_rule_fields-IsRule fs label rule h =
      let (tool, tool_ok, h1) = ok_of_bind (non_empty label "tool" (get_value "tool" fs)) h in
      let (action, action_ok, h2) = ok_of_bind (parse_rule_action rt fs label) h1 in
      let (caller, caller_ok, h3) = ok_of_bind (parse_caller fs label) h2 in
      let (args, args_ok, h4) = ok_of_bind (parse_args rt fs label) h3 in
      subst IsRule (unwrap_ok (compiled_rule tool caller args action) rule h4) (
        non_empty-filled label "tool" (get_value "tool" fs) tool tool_ok,
        refl,
        parse_args-IsArgument fs label args args_ok,
      )

  parse_rule-IsRule :
      (raw : Value) (label : String) (rule : CompiledRule)
      → parse_rule rt raw label ≡ ok rule
      → IsRule rule
  unfolding parse_rule
  parse_rule-IsRule (obj fs) label rule h =
      elim (Option-cases (find (λ key. not (is_rule_key key)) (keys fs))) [
        | inl known ↦ parse_rule_fields-IsRule fs label rule (ground (arith, known, h))
        | inr (key, unknown) ↦ absurd (ground (arith, unknown, h))
      ]
  parse_rule-IsRule _ label rule h = absurd cc

  parse_rules-IsRule :
      (label : String) (index : ℕ) (raws : List Value) (rules : List CompiledRule)
      → parse_rules rt label index raws ≡ ok rules
      → All IsRule rules
  unfolding parse_rules
  parse_rules-IsRule label index [] [] h = tt
  parse_rules-IsRule label index [] (r ∷ rs) h = absurd cc
  parse_rules-IsRule label index (raw ∷ raws) rules h =
      let place = concat (label ∷ ".rules[" ∷ rt.text_of_nat index ∷ "]" ∷ []) in
      let (rule, rule_ok, h1) = ok_of_bind (parse_rule rt raw place) h in
      let (more, more_ok, h2) = ok_of_bind (parse_rules rt label (suc index) raws) h1 in
      subst (All IsRule) (unwrap_ok (rule ∷ more) rules h2) (
        parse_rule-IsRule raw place rule rule_ok,
        parse_rules-IsRule label (suc index) raws more more_ok,
      )

  parse_rule_list-IsRule :
      (label : String) (raw : Option Value) (rules : List CompiledRule)
      → parse_rule_list rt label raw ≡ ok rules
      → All IsRule rules
  unfolding parse_rule_list
  parse_rule_list-IsRule label none [] h = tt
  parse_rule_list-IsRule label none (r ∷ rs) h = absurd cc
  parse_rule_list-IsRule label (some (arr vs)) rules h =
      parse_rules-IsRule label 0 (items vs) rules h
  parse_rule_list-IsRule label (some _) rules h = absurd cc

  parse_fields-IsRule :
      (fs : Fields) (label : String) (policy : PolicyConfig)
      → parse_fields rt fs label ≡ ok policy
      → All IsRule policy.rules
  unfolding parse_fields
  parse_fields-IsRule fs label policy h =
      let (action, action_ok, h1) = ok_of_bind (parse_default rt fs label) h in
      let (rules, rules_ok, h2) = ok_of_bind (parse_rule_list rt label (get "rules" fs)) h1 in
      subst (λ (p : PolicyConfig). All IsRule p.rules)
        (unwrap_ok (record { default_action = action; rules = rules }) policy h2)
        (parse_rule_list-IsRule label (get "rules" fs) rules rules_ok)

pub parse_policy_config-IsRule :
    (rt : Runtime) (raw : Value) (label : String) (policy : PolicyConfig)
    → parse_policy_config rt raw label ≡ ok policy
    → All (IsRule rt) policy.rules
unfolding parse_policy_config
parse_policy_config-IsRule rt (obj fs) label policy h =
    elim (Option-cases (find (λ key. not (is_policy_key key)) (keys fs))) [
      | inl known ↦ parse_fields-IsRule rt fs label policy (ground (arith, known, h))
      | inr (key, unknown) ↦ absurd (ground (arith, unknown, h))
    ]
parse_policy_config-IsRule rt _ label policy h = absurd cc
