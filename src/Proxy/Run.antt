-- ===== src/Proxy/Run.antt =====
-- src/proxy/run.ts: one session of the proxy, from its configuration to its exit code. The bridge
-- (src/proxy/bridge.ts) is a parameter: where it is started and which side closes first.
use mcprelay.Base.{ℕ, suc, String, Option, List, [], ◌∷◌, ◌++◌, concat, map, or_default}
use mcprelay.Base.Result.{Result, err, ok}
use mcprelay.Config.{RelayConfig, ConfigOverrides}
use mcprelay.Config.Load.{Surroundings, LoadOptions, load_config}

-- What the process has written, the upstreams that it started (with the configuration of each), and
-- the number of bridges that it closed.
pub data UpstreamTarget : Type 0 where
  stdio_target : (command : String) (args : List String) → UpstreamTarget
  http_target : (url : String) (headers : List (String × String)) → UpstreamTarget

pub record Process : Type 0 where
  pub stdout : List String
  pub stderr : List String
  pub started : List (UpstreamTarget × RelayConfig)
  pub closed : ℕ

pub data ProxyInvocation : Type 0 where
  stdio_command : (command : String) (args : List String) → ProxyInvocation
  http_endpoint : (url : String) → ProxyInvocation

pub record ProxyOptions : Type 0 where
  pub config_path : Option String
  pub overrides : ConfigOverrides
  pub identity : Option String

pub data Side : Type 0 where
  client_side upstream_side : Side

-- startBridge: the side that closes first, or the message with which it throws.
abbrev pub Bridge : Type 0
Bridge = UpstreamTarget → RelayConfig → Result String Side

abbrev pub exit_ok : ℕ
exit_ok = 0

abbrev pub exit_failure : ℕ
exit_failure = 1

abbrev pub exit_usage : ℕ
exit_usage = 2

abbrev pub exit_upstream : ℕ
exit_upstream = 3

abbrev pub tell : String → Process → Process
tell text p = record p { stdout = p.stdout ++ text ∷ [] }

abbrev pub complain : String → Process → Process
complain text p = record p { stderr = p.stderr ++ text ∷ [] }

abbrev pub report_error : String → Process → Process
report_error message p = complain (concat ("mcprelay: " ∷ message ∷ "\n" ∷ [])) p

-- One line for each warning of the configuration.
unfoldable pub report_warnings : List String → Process → Process
report_warnings warnings p = record p {
  stderr =
      p.stderr ++ map (λ warning. concat ("mcprelay: warning: " ∷ warning ∷ "\n" ∷ [])) warnings;
}

-- `config.identity.profile = options.identity`
unfoldable pub with_identity : Option String → RelayConfig → RelayConfig
with_identity identity config = record config {
  identity = record config.identity { profile = or_default identity config.identity.profile };
}

abbrev pub target_of : ProxyInvocation → RelayConfig → UpstreamTarget
target_of (stdio_command command args) config = stdio_target command args
target_of (http_endpoint url) config = http_target url config.upstream_headers

abbrev pub exit_of_side : Side → ℕ
exit_of_side upstream_side = exit_upstream
exit_of_side client_side = exit_ok

-- The bridge is awaited, and then closed.
abbrev pub finish_session : Result String Side → Process → ℕ × Process
finish_session (err message) p = (
  exit_upstream,
  complain (concat ("mcprelay: failed to start upstream: " ∷ message ∷ "\n" ∷ [])) p,
)
finish_session (ok side) p = (exit_of_side side, record p { closed = suc p.closed })

unfoldable pub run_session : Bridge → ProxyInvocation → RelayConfig → Process → ℕ × Process
run_session bridge invocation config p =
    let target = target_of invocation config in
    finish_session (bridge target config)
      (record p { started = p.started ++ (target, config) ∷ [] })

abbrev pub load_options : ProxyOptions → LoadOptions
load_options o = record { path = o.config_path; overrides = o.overrides }

unfoldable pub run_proxy :
    Surroundings → Bridge → ProxyInvocation → ProxyOptions → Process → ℕ × Process
unfolding run_session report_warnings with_identity
run_proxy env bridge invocation o p = elim (load_config env (load_options o)) [
  | err message ↦ (exit_usage, report_error message p)
  | ok config ↦
      run_session bridge invocation (with_identity o.identity config)
        (report_warnings config.warnings p)
]
