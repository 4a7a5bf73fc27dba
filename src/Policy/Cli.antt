-- ===== src/Policy/Cli.antt =====
-- src/policy/policy-cli.ts: `policy test`, which decides on one call and enforces nothing. JSON.parse
-- is a parameter, `none` where it throws.
use mcprelay.Base.{
  ℕ, String, Bool, true, false, Option, none, some, List, [], ◌∷◌, ◌==◌, is_some, or_default,
  concat, if◌then◌else◌,
}
use mcprelay.Base.Result.{Result, err, ok, ◌>>=◌}
use mcprelay.Json.{Value, str, num, null, obj, prop, no_prop, of_nat}
use mcprelay.Runtime.{Runtime}
use mcprelay.Config.{RelayConfig}
use mcprelay.Policy.Rules.{PolicyAction, allow, deny, PolicyDecision, evaluate_call}
use mcprelay.Queue.Record.{FailureRecord}
use mcprelay.Queue.Sqlite.{get}
use mcprelay.Shell.{Shell, Given, tell, complain, load_for, open_store, shut_store}
use mcprelay.Tokens.{refused, flag_read, value_read, Consume, with_value, consume_all}

pub record TestOptions : Type 0 where
  pub config_path : Option String
  pub tool : Option String
  pub args : Option String
  pub caller : Option String
  pub id : Option String
  pub json : Bool

abbrev pub policy_usage : String
policy_usage =
    "Usage: mcprelay policy test [--tool <name>] [--args <json>] [--caller <id>] [--id <failure-id>] [--config <path>] [--json]"

unfoldable pub consume_test_token : Consume TestOptions
consume_test_token token next o =
    if token == "--config"
    then with_value token next (λ value. value_read (record o { config_path = some value }))
    else if token == "--tool"
    then with_value token next (λ value. value_read (record o { tool = some value }))
    else if token == "--args"
    then with_value token next (λ value. value_read (record o { args = some value }))
    else if token == "--caller"
    then with_value token next (λ value. value_read (record o { caller = some value }))
    else if token == "--id"
    then with_value token next (λ value. value_read (record o { id = some value }))
    else if token == "--json"
    then flag_read (record o { json = true })
    else refused (concat ("Unknown option '" ∷ token ∷ "'." ∷ []))

abbrev pub missing_call : String
missing_call = "Missing call to evaluate: pass --tool (with optional --args) or --id."

abbrev pub check_call : TestOptions → Result String TestOptions
check_call o = if is_some o.id then ok o else if is_some o.tool then ok o else err missing_call

unfoldable pub parse_policy_test_tokens : List String → Result String TestOptions
unfolding consume_all consume_test_token
parse_policy_test_tokens tokens =
    consume_all consume_test_token tokens (record {
      config_path = none;
      tool = none;
      args = none;
      caller = none;
      id = none;
      json = false;
    })
    >>= check_call

abbrev pub usage_error : String → Shell → ℕ × Shell
usage_error message s = (2, complain (concat (message ∷ "\n" ∷ policy_usage ∷ "\n" ∷ [])) s)

abbrev action_text : PolicyAction → String
action_text allow = "allow"
action_text deny = "deny"

abbrev rule_value : Option ℕ → Value
rule_value none = null
rule_value (some n) = num (of_nat n)

abbrev rule_text : Runtime → Option ℕ → String
rule_text rt none = "none (default policy)"
rule_text rt (some n) = concat ("#" ∷ rt.text_of_nat n ∷ [])

unfoldable pub format_decision : Runtime → String → String → PolicyDecision → Bool → String
format_decision rt tool caller d json =
    if json
    then concat (
        rt.stringify (
          obj (
            prop "tool" (str tool) (
              prop "caller" (str caller) (
                prop "decision" (str (action_text d.action))
                  (prop "rule" (rule_value d.rule) (prop "reason" (str d.reason) no_prop))))))
        ∷ "\n"
        ∷ [])
    else concat (
        "tool:     "
        ∷ tool
        ∷ "\ncaller:   "
        ∷ caller
        ∷ "\ndecision: "
        ∷ action_text d.action
        ∷ "\nrule:     "
        ∷ rule_text rt d.rule
        ∷ "\nreason:   "
        ∷ d.reason
        ∷ "\n"
        ∷ [])

-- The decision on the call that was resolved, printed.
unfoldable pub decide_call : Given → RelayConfig → TestOptions → String × Value → Shell → ℕ × Shell
unfolding format_decision
decide_call given config o (tool, arguments) s =
    let rt = given.env.runtime in
    let caller = or_default o.caller "local" in
    let decision =
      evaluate_call rt config.policy
        (record { tool = tool; arguments = arguments; caller = some caller }) in
    (0, tell (format_decision rt tool caller decision o.json) s)

-- loadStoredCall: the call of a stored record, or what was printed. An error of the query is not
-- caught: `threw` is its message.
pub data StoredCall : Type 0 where
  stored : String × Value → Shell → StoredCall
  not_stored : Shell → StoredCall
  threw : String → Shell → StoredCall

abbrev pub found_call : String → Option FailureRecord → Shell → StoredCall
found_call id none s =
    not_stored
      (shut_store (complain (concat ("mcprelay: failure record '" ∷ id ∷ "' not found\n" ∷ [])) s))
found_call id (some r) s = stored (r.tool.name, r.tool.arguments) (shut_store s)

unfoldable pub load_stored_call : Given → String → Shell → StoredCall
load_stored_call given id s = elim given.open_failure [
  | some message ↦
      not_stored
        (complain (concat ("mcprelay: cannot open the queue provider: " ∷ message ∷ "\n" ∷ [])) s)
  | none ↦ elim given.read_failure [
    | some message ↦ threw message (shut_store (open_store s))
    | none ↦ found_call id (get id s.queue) (open_store s)
  ]
]

abbrev pub decide_stored :
    Given → RelayConfig → TestOptions → StoredCall → Result String (ℕ × Shell)
decide_stored given config o (stored call s) = ok (decide_call given config o call s)
decide_stored given config o (not_stored s) = ok (1, s)
decide_stored given config o (threw message s) = err message

abbrev pub arguments_of : (String → Option Value) → Option String → Option Value
arguments_of parse_json none = some (obj no_prop)
arguments_of parse_json (some text) = parse_json text

abbrev pub decide_given :
    Given → RelayConfig → TestOptions → String → Option Value → Shell → ℕ × Shell
decide_given given config o tool none s =
    usage_error (concat ("Invalid --args JSON: " ∷ or_default o.args "" ∷ [])) s
decide_given given config o tool (some arguments) s = decide_call given config o (tool, arguments) s

abbrev pub decide_named :
    Given → (String → Option Value) → RelayConfig → TestOptions → Option String → Shell → ℕ × Shell
decide_named given parse_json config o none s = usage_error missing_call s
decide_named given parse_json config o (some tool) s =
    decide_given given config o tool (arguments_of parse_json o.args) s

unfoldable pub test_call :
    Given → (String → Option Value) → RelayConfig → TestOptions → Shell → Result String (ℕ × Shell)
unfolding decide_call load_stored_call
test_call given parse_json config o s = elim o.id [
  | some id ↦ decide_stored given config o (load_stored_call given id s)
  | none ↦ ok (decide_named given parse_json config o o.tool s)
]

unfoldable pub test_policy :
    Given → (String → Option Value) → List String → Shell → Result String (ℕ × Shell)
unfolding test_call parse_policy_test_tokens
test_policy given parse_json tokens s = elim (parse_policy_test_tokens tokens) [
  | err message ↦ ok (usage_error message s)
  | ok o ↦ elim (load_for given.env o.config_path s) [
    | err t ↦ ok (2, t)
    | ok (config, t) ↦ test_call given parse_json config o t
  ]
]

unfoldable pub run_policy :
    Given → (String → Option Value) → List String → Shell → Result String (ℕ × Shell)
unfolding test_policy
run_policy given parse_json [] s = ok (usage_error "Missing policy subcommand." s)
run_policy given parse_json (subcommand ∷ tokens) s =
    if subcommand == "test"
    then test_policy given parse_json tokens s
    else ok (usage_error (concat ("Unknown policy subcommand '" ∷ subcommand ∷ "'." ∷ [])) s)
