-- ===== src/Config/Tests.antt =====
-- A configuration file, read.
use mcprelay.Base.{arith, ◌≡◌, refl, String, none, some, [], ◌∷◌, ◌==◌, if◌then◌else◌}
use mcprelay.Base.Int.{pos}
use mcprelay.Base.Result.{ok, err, try_map}
use mcprelay.Json.{str, num, dyadic, obj, Fields, no_prop, prop, get}
use mcprelay.Runtime.Sample.{sample}
use mcprelay.Policy.Rules.{deny, parse_policy_config, parse_fields, parse_rule_list}
use mcprelay.Config.{RelayConfig, ConfigOverrides, default_config, resolve_tool_policy, read}
use mcprelay.Config.Readers.{
  require_integer, assert_known_keys, set_given, read_given, open_section,
}
use mcprelay.Config.Reliability.{
  parse_retry_fields, parse_per_tool_override, assign, apply_overrides_of, apply_per_tool,
  read_duration, parse_duration, apply_replay, apply_reliability,
}
use mcprelay.Config.Sections.{
  apply_sqlite_path, apply_sqlite_section, apply_rabbitmq_section, apply_queue_section, read_key,
  read_keys, apply_identity, apply_redaction, read_headers, apply_upstream,
}
use mcprelay.Config.Load.{
  Surroundings, missing, text, LoadOptions, apply_config_document, apply_overrides, load_config,
  finish_config,
}
use mcprelay.Config.Valid.Loaded.{IsValid, IsUsable, load_config-IsValid}
use mcprelay.Config.Known.{IsRecognized, load_config-IsRecognized}

-- The code of a load, for the tests to compute with.
abbrev config_code : Unit {0}
unfolding require_integer assert_known_keys set_given read_given open_section parse_retry_fields
    parse_per_tool_override assign apply_overrides_of apply_per_tool read_duration parse_duration
    apply_replay apply_reliability apply_sqlite_path apply_sqlite_section apply_rabbitmq_section
    apply_queue_section read_key read_keys apply_identity apply_redaction read_headers
    apply_upstream apply_config_document apply_overrides load_config try_map get parse_policy_config
    parse_fields parse_rule_list
config_code = tt

abbrev document : Fields
document =
    prop "reliability"
      (obj (
        prop "timeout_ms" (num (dyadic (pos 500) 0)) (
          prop "replay" (obj (prop "dedup_window" (str "30m") no_prop)) (
            prop "per_tool" (obj (prop "pay" (obj (prop "effects" (str "read") no_prop)) no_prop))
              no_prop))))
      (prop "policy" (obj (prop "default" (str "deny") no_prop)) (prop "later" (str "x") no_prop))

abbrev env : Surroundings
env = record {
  runtime = sample;
  file = λ path. if path == "relay.yaml" then text "the file" else missing;
  parse_yaml = λ t. ok (obj document);
  url_protocol = λ url. some "amqp:";
  default_path = "mcprelay.config.yaml";
}

abbrev no_overrides : ConfigOverrides
no_overrides = record { timeout_ms = none; max_attempts = some 5; policy_dry_run = none }

abbrev options : LoadOptions
options = record { path = some "relay.yaml"; overrides = no_overrides }

abbrev read_config : RelayConfig
read_config = finish_config no_overrides (record default_config {
  reliability = record default_config.reliability {
    timeout_ms = 500;
    dedup_window_ms = 1800000;
    per_tool =
        (
          "pay",
          record {
            timeout_ms = none;
            idempotent = none;
            effects = some read;
            retry = none;
            capture_tool_errors = none;
          },
        )
        ∷ [];
  };
  policy = record { default_action = deny; rules = [] };
  warnings = "relay.yaml: unknown top-level section 'later' ignored (not implemented yet)" ∷ [];
})

loaded : load_config env options ≡ ok read_config
unfolding config_code
loaded = refl

-- A path that is given must be there; without one, the defaults are taken.
absent_file :
    load_config env (record { path = some "no.yaml"; overrides = no_overrides })
    ≡ err "no.yaml: config file not found"
unfolding config_code
absent_file = refl

misspelt :
    load_config
      (record env {
        parse_yaml = λ t. ok (obj (prop "queue" (obj (prop "pth" (str "x") no_prop)) no_prop));
      })
      options
    ≡ err "relay.yaml: queue.pth: not a recognized setting"
unfolding config_code
misspelt = refl

load_config-IsValid_example :
    IsValid env read_config
    × ((tool : String) → IsUsable (resolve_tool_policy read_config.reliability tool))
load_config-IsValid_example =
    load_config-IsValid env options (record { timeout = tt; attempts = omega arith }) read_config
      loaded

load_config-IsRecognized_example : IsRecognized document
load_config-IsRecognized_example =
    load_config-IsRecognized env options "the file" document read_config refl refl loaded
