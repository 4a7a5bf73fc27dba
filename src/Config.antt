-- ===== src/Config.antt =====
-- src/config/config.ts: the configuration, its defaults, and the policy of one tool. The children
-- read the sections of the file (Readers,
-- Reliability, Sections), load it (Load) and say what is accepted (Valid, Known).
pub mod Readers
pub mod Reliability
pub mod Sections
pub mod Load
pub mod Valid
pub mod Known
mod Tests
use mcprelay.Base.{
  ℕ, String, Bool, true, false, Option, none, some, List, [], ◌∷◌, ◌==◌, or_default, if◌then◌else◌,
}
use mcprelay.Identity.{IdentitySettings}
use mcprelay.Policy.Rules.{PolicyConfig, default_policy_config}
use mcprelay.Redaction.{default_redaction_patterns}

-- `backoff` has one value, 'exponential', and is left out.
pub record RetryConfig : Type 0 where
  pub max_attempts : ℕ
  pub base_ms : ℕ
  pub jitter : Bool

pub record RetryOverride : Type 0 where
  pub max_attempts : Option ℕ
  pub base_ms : Option ℕ
  pub jitter : Option Bool

pub data Effects : Type 0 where
  read write : Effects

pub record ToolOverride : Type 0 where
  pub timeout_ms : Option ℕ
  pub idempotent : Option Bool
  pub effects : Option Effects
  pub retry : Option RetryOverride
  pub capture_tool_errors : Option Bool

pub record ReliabilityConfig : Type 0 where
  pub timeout_ms : ℕ
  pub retry : RetryConfig
  pub dedup_window_ms : ℕ
  pub idempotent_default : Bool
  pub per_tool : List (String × ToolOverride)

pub record RabbitMqConfig : Type 0 where
  pub url : String
  pub exchange : String
  pub queue : String

pub data QueueChoice : Type 0 where
  sqlite rabbitmq : QueueChoice

pub record QueueConfig : Type 0 where
  pub provider : QueueChoice
  pub sqlite_path : String
  pub broker : RabbitMqConfig

-- `provider` has one value, 'sqlite', and is left out.
pub record StoreConfig : Type 0 where
  pub sqlite_path : String
  pub retention_days : ℕ

pub record RelayConfig : Type 0 where
  pub reliability : ReliabilityConfig
  pub queue : QueueConfig
  pub store : StoreConfig
  pub redaction_patterns : List String
  pub identity : IdentitySettings
  pub policy : PolicyConfig
  pub upstream_headers : List (String × String)
  pub policy_dry_run : Bool
  pub warnings : List String

-- The overrides of the command line.
pub record ConfigOverrides : Type 0 where
  pub timeout_ms : Option ℕ
  pub max_attempts : Option ℕ
  pub policy_dry_run : Option Bool

pub record ToolPolicy : Type 0 where
  pub timeout_ms : ℕ
  pub retry : RetryConfig
  pub idempotent : Bool
  pub capture_tool_errors : Bool

abbrev pub default_config : RelayConfig
default_config = record {
  reliability = record {
    timeout_ms = 30000;
    retry = record { max_attempts = 3; base_ms = 250; jitter = true };
    dedup_window_ms = 86400000;
    idempotent_default = false;
    per_tool = [];
  };
  queue = record {
    provider = sqlite;
    sqlite_path = "./.mcprelay/queue.db";
    broker = record { url = "amqp://localhost"; exchange = "mcp.dlx"; queue = "mcp.dlq" };
  };
  store = record { sqlite_path = "./.mcprelay/history.db"; retention_days = 30 };
  redaction_patterns = default_redaction_patterns;
  identity = record { profile = "local"; keys = [] };
  policy = default_policy_config;
  upstream_headers = [];
  policy_dry_run = false;
  warnings = [];
}

abbrev pub override_of : String → List (String × ToolOverride) → Option ToolOverride
override_of tool [] = none
override_of tool ((name, o) ∷ os) =
    let rest = override_of tool os in if name == tool then some o else rest

-- `{ ...retry, ...override }`
abbrev pub merge_retry : RetryConfig → Option RetryOverride → RetryConfig
merge_retry retry none = retry
merge_retry retry (some o) = record {
  max_attempts = or_default o.max_attempts retry.max_attempts;
  base_ms = or_default o.base_ms retry.base_ms;
  jitter = or_default o.jitter retry.jitter;
}

abbrev pub tool_policy : ReliabilityConfig → Option ToolOverride → ToolPolicy
tool_policy config none = record {
  timeout_ms = config.timeout_ms;
  retry = config.retry;
  idempotent = config.idempotent_default;
  capture_tool_errors = false;
}
tool_policy config (some o) = record {
  timeout_ms = or_default o.timeout_ms config.timeout_ms;
  retry = merge_retry config.retry o.retry;
  idempotent = or_default o.idempotent config.idempotent_default;
  capture_tool_errors = or_default o.capture_tool_errors false;
}

unfoldable pub resolve_tool_policy : ReliabilityConfig → String → ToolPolicy
resolve_tool_policy config tool = tool_policy config (override_of tool config.per_tool)
