-- ===== src/Cli.antt =====
-- src/cli/run.ts: the command line of the program. The commands that other files run (`replay`,
-- `report`, `policy`) are parameters.
pub mod Run
pub mod Sessions
mod Tests
use Prim.Native.Char.{code}
use Prim.Native.String
use mcprelay.Base.{
  ℕ, String, Bool, true, false, Option, none, some, List, [], ◌∷◌, ◌==◌, ◌||◌, nat_eq, concat,
  if◌then◌else◌, or_default,
}
use mcprelay.Base.Result.{Result, err, ok}
use mcprelay.Config.Load.{Surroundings, load_config}
use mcprelay.Tokens.{Step, refused, value_read, Consume, with_value, consume_all}
use mcprelay.Proxy.Run.{
  Process, ProxyInvocation, stdio_command, http_endpoint, ProxyOptions, Bridge, exit_ok, exit_usage,
  tell, complain, report_error, report_warnings, run_proxy,
}
use mcprelay.Cli.Run.{RunInvocation, parse_run_invocation}

abbrev pub usage_error : String → Process → ℕ × Process
usage_error message p =
    (exit_usage, complain (concat (message ∷ "\nRun 'mcprelay --help' for usage.\n" ∷ [])) p)

-- `command as string`: the parser gives a command where there is no URL, see Cli.Run.Accepted.
abbrev pub invocation_of : RunInvocation → ProxyInvocation
invocation_of i = elim i.options.http_url [
  | some url ↦ http_endpoint url
  | none ↦ stdio_command (or_default i.command "undefined") i.args
]

abbrev pub options_of : RunInvocation → ProxyOptions
options_of i = record {
  config_path = i.options.config_path;
  overrides = record {
    timeout_ms = i.options.timeout_ms;
    max_attempts = i.options.max_attempts;
    policy_dry_run = i.options.policy_dry_run;
  };
  identity = i.options.identity;
}

unfoldable pub run_with : Surroundings → Bridge → List String → Process → ℕ × Process
unfolding run_proxy parse_run_invocation
run_with env bridge tokens p = elim (parse_run_invocation env.runtime env.url_protocol tokens) [
  | err message ↦ usage_error message p
  | ok i ↦ run_proxy env bridge (invocation_of i) (options_of i) p
]

-- The loop of runValidate.
abbrev consume_validate_token : Consume (Option String)
consume_validate_token token next path =
    if token == "--config"
    then with_value "--config" next (λ value. value_read (some value))
    else refused (concat ("Unknown option '" ∷ token ∷ "'." ∷ []))

abbrev validate_config : Surroundings → Option String → Process → ℕ × Process
validate_config env path p =
    elim (load_config env (record {
      path = path;
      overrides = record { timeout_ms = none; max_attempts = none; policy_dry_run = none };
    })) [
      | err message ↦ (exit_usage, report_error message p)
      | ok config ↦ (
        exit_ok,
        tell
            (concat
              ("config ok: " ∷ or_default path "defaults (no mcprelay.config.yaml)" ∷ "\n" ∷ []))
            (report_warnings config.warnings p),
      )
    ]

unfoldable pub run_validate : Surroundings → List String → Process → ℕ × Process
unfolding consume_all report_warnings
run_validate env tokens p = elim (consume_all consume_validate_token tokens none) [
  | err message ↦ usage_error message p
  | ok path ↦ validate_config env path p
]

-- What runCli is given: the surroundings, the bridge, the other commands, the help and the version.
pub record Commands : Type 0 where
  pub env : Surroundings
  pub bridge : Bridge
  pub replay : List String → Process → ℕ × Process
  pub report : List String → Process → ℕ × Process
  pub policy : List String → Process → ℕ × Process
  pub help : String
  pub version : String

abbrev starts_with_dash : String → Bool
starts_with_dash String.[] = false
starts_with_dash (String.◌∷◌ c text) = nat_eq (code c) b'-'

abbrev pub is_run_option : String → Bool
is_run_option command =
    command == "--"
    || command == "--config"
    || command == "--timeout-ms"
    || command == "--max-attempts"
    || command == "--policy-dry-run"
    || command == "--identity"
    || command == "--http"

abbrev pub is_help : String → Bool
is_help command = command == "help" || command == "--help" || command == "-h"

abbrev pub is_version : String → Bool
is_version command = command == "version" || command == "--version" || command == "-v"

-- The first argument, and the others.
unfoldable pub run_command : Commands → String → List String → Process → ℕ × Process
unfolding run_with run_validate
run_command given command rest p =
    if is_help command
    then (exit_ok, tell given.help p)
    else if is_version command
    then (exit_ok, tell (concat (given.version ∷ "\n" ∷ [])) p)
    else if command == "validate"
    then run_validate given.env rest p
    else if command == "replay"
    then given.replay rest p
    else if command == "report"
    then given.report rest p
    else if command == "policy"
    then given.policy rest p
    else if command == "run"
    then run_with given.env given.bridge rest p
    else if is_run_option command
    then run_with given.env given.bridge (command ∷ rest) p
    else if starts_with_dash command
    then usage_error (concat ("Unknown option '" ∷ command ∷ "'." ∷ [])) p
    else usage_error (concat ("Unknown command '" ∷ command ∷ "'." ∷ [])) p

unfoldable pub run_cli : Commands → List String → Process → ℕ × Process
unfolding run_command
run_cli given [] p = (exit_ok, tell given.help p)
run_cli given (command ∷ []) p = run_command given command [] p
run_cli given (command ∷ next ∷ more) p =
    if command == "version"
    then usage_error (concat ("Unexpected argument '" ∷ next ∷ "' after 'version'." ∷ [])) p
    else run_command given command (next ∷ more) p
