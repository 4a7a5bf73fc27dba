-- ===== src/Cli/Tests.antt =====
-- Command lines, parsed and run.
use mcprelay.Base.{arith, ◌≡◌, refl, true, none, some, [], ◌∷◌, ◌==◌, if◌then◌else◌}
use mcprelay.Base.Result.{ok}
use mcprelay.Json.{of_nat, nan, null}
use mcprelay.Runtime.{Runtime}
use mcprelay.Runtime.Sample.{sample}
use mcprelay.Config.Load.{Surroundings, missing, load_config, apply_overrides}
use mcprelay.Proxy.Run.{
  Process, Bridge, upstream_side, run_proxy, run_session, report_warnings, with_identity,
}
use mcprelay.Tokens.{consume_tokens, consume_all}
use mcprelay.Cli.Run.{RunInvocation, no_options, consume_run_token, parse_run_invocation}
use mcprelay.Cli.Run.RoundTrip.{command_line, parse_run_invocation-command_line}
use mcprelay.Cli.Sessions.{Started, run_with-IsSession}
use mcprelay.Cli.{Commands, run_with, run_validate, run_command, run_cli}

-- A runtime that reads the text of seven.
abbrev runtime : Runtime
runtime = record sample {
  number_of = λ text. if text == "7" then of_nat 7 else nan;
  text_of_nat = λ n. "7";
}

abbrev env : Surroundings
env = record {
  runtime = runtime;
  file = λ path. missing;
  parse_yaml = λ t. ok null;
  url_protocol = λ url. some "http:";
  default_path = "mcprelay.config.yaml";
}

-- The upstream closes first.
abbrev bridge : Bridge
bridge target config = ok upstream_side

abbrev idle : Process
idle = record { stdout = []; stderr = []; started = []; closed = 0 }

abbrev cli_code : Unit {0}
unfolding consume_tokens consume_all consume_run_token parse_run_invocation run_proxy run_session
    report_warnings with_identity run_with run_validate run_command run_cli load_config
    apply_overrides
cli_code = tt

abbrev commands : Commands
commands = record {
  env = env;
  bridge = bridge;
  replay = λ tokens p. (0, p);
  report = λ tokens p. (0, p);
  policy = λ tokens p. (0, p);
  help = "help";
  version = "0.8.0";
}

-- Without a configuration file the defaults are taken.
runs : (run_cli commands ("--timeout-ms" ∷ "7" ∷ "--" ∷ "node" ∷ "x.js" ∷ []) idle).0 ≡ 3
unfolding cli_code
runs = refl

wants_a_target : (run_cli commands ("run" ∷ "--identity" ∷ "ann" ∷ []) idle).0 ≡ 2
unfolding cli_code
wants_a_target = refl

validates : (run_cli commands ("validate" ∷ "--config" ∷ "no.yaml" ∷ []) idle).0 ≡ 2
unfolding cli_code
validates = refl

abbrev invocation : RunInvocation
invocation = record {
  options = record no_options {
    timeout_ms = some 7;
    identity = some "--";
    policy_dry_run = some true;
  };
  command = some "node";
  args = "x.js" ∷ [];
}

parse_run_invocation-command_line_example :
    parse_run_invocation runtime (λ url. none) (command_line runtime invocation) ≡ ok invocation
parse_run_invocation-command_line_example =
    parse_run_invocation-command_line runtime (λ url. none) invocation
      (record {
        in_range = record { timeout = omega arith; attempts = tt; dry_run = refl; url = tt };
        target = tt;
      })
      refl tt

run_with-IsSession_example :
    Started env bridge
      ("--timeout-ms" ∷ "7" ∷ "--" ∷ "node" ∷ [])
      idle
      (run_with env bridge ("--timeout-ms" ∷ "7" ∷ "--" ∷ "node" ∷ []) idle)
run_with-IsSession_example =
    run_with-IsSession env bridge ("--timeout-ms" ∷ "7" ∷ "--" ∷ "node" ∷ []) idle
