-- ===== src/Policy/Tests.antt =====
-- The policy on concrete rules.
use mcprelay.Base.{◌≡◌, refl, ◌↔◌, true, none, some, [], ◌∷◌, units}
use mcprelay.Base.Result.{try_map}
use mcprelay.Json.{Value, obj, arr, str, prop, no_prop, item, no_item, get}
use mcprelay.Runtime.Sample.{sample}
use mcprelay.Policy.Glob.{glob_to_regex, regex_matches, glob_matches}
use mcprelay.Policy.Glob.Laws.{Reads, glob_matches_iff}
use mcprelay.Policy.Redos.{
  alternation_is_ambiguous, find_redos_risk, scan, step, step_brace, apply_quantifier, close_group,
  group_risk, skip_group_prefix, index_of, nested_quantifier,
}
use mcprelay.Policy.Redos.Nested.{find_redos_risk-nested, find_redos_risk-wrapped}
use mcprelay.Policy.Matchers.{
  regex, deep_equal, items_equal, fields_within, get_path, walk, split_dot, child, starts_with,
  matcher_matches,
}
use mcprelay.Policy.Compile.{compile_regex, compile_pattern, compile_matcher, compile_path_matchers}
use mcprelay.Policy.Rules.{
  PolicyConfig, PolicyCall, parse_policy_config, parse_fields, parse_rules, parse_rule_list,
  parse_rule, parse_rule_fields, parse_rule_action, parse_args, parse_rule_args, parse_argument,
  rule_matches, argument_matches, select_rule, evaluate_call, allow, deny,
}
use mcprelay.Policy.Rules.Choice.{IsDecision, evaluate_call-IsDecision}

policy_code : Unit {0}
unfolding glob_to_regex regex_matches glob_matches find_redos_risk scan step step_brace
    apply_quantifier close_group group_risk skip_group_prefix index_of alternation_is_ambiguous get
    deep_equal items_equal fields_within get_path walk split_dot child starts_with matcher_matches
    compile_regex compile_pattern compile_matcher compile_path_matchers try_map parse_policy_config
    parse_fields parse_rules parse_rule_list parse_rule parse_rule_fields parse_rule_action
    parse_args parse_rule_args parse_argument rule_matches argument_matches select_rule
    evaluate_call
policy_code = tt

abbrev document : Value
document = obj (
    prop "rules"
      (arr (
        item (obj (prop "tool" (str "pay*") (prop "action" (str "deny") no_prop))) (
          item
            (obj (
              prop "tool" (str "pay") (
                prop "action" (str "allow") (
                  prop "args" (obj (prop "to" (obj (prop "regex" (str "ann") no_prop)) no_prop))
                    no_prop))))
            no_item)))
      no_prop)

abbrev parsed : PolicyConfig
parsed = record {
  default_action = allow;
  rules =
      record { tool = "pay*"; caller = none; args = []; action = deny; specificity = 1 }
      ∷ record {
        tool = "pay";
        caller = none;
        args = record { path = "to"; matchers = regex "ann" ∷ [] } ∷ [];
        action = allow;
        specificity = 3;
      }
      ∷ [];
}

abbrev to_ann : PolicyCall
to_ann = record { tool = "pay"; arguments = obj (prop "to" (str "ann") no_prop); caller = none }

abbrev to_bob : PolicyCall
to_bob = record { tool = "pay"; arguments = obj (prop "to" (str "bob") no_prop); caller = none }

decides :
    ((evaluate_call sample parsed to_ann).rule ≡ some 2)
    × ((evaluate_call sample parsed to_bob).rule ≡ some 1)
unfolding policy_code
decides = (refl, refl)

evaluate_call-IsDecision_example :
    IsDecision sample parsed to_ann (evaluate_call sample parsed to_ann)
evaluate_call-IsDecision_example = evaluate_call-IsDecision sample parsed to_ann

-- x(ab+c)*
find_redos_risk-nested_example : find_redos_risk (units "x(ab+c)*") ≡ some nested_quantifier
find_redos_risk-nested_example =
    find_redos_risk-nested (units "x") (units "ab") (units "c") [] b'+' b'*' refl refl refl refl
      refl

find_redos_risk-wrapped_example :
    (find_redos_risk (units "(a+)+") ≡ some nested_quantifier)
    × (find_redos_risk (units "((a+))+") ≡ none)
find_redos_risk-wrapped_example = find_redos_risk-wrapped b'a' b'+' b'+' refl refl refl

glob_matches_iff_example : (glob_matches "pay*" "payment" ≡ true) ↔ Reads "pay*" (units "payment")
glob_matches_iff_example = glob_matches_iff "pay*" "payment"
