-- ===== src/Proxy/World.antt =====
-- What src/proxy/bridge.ts writes to (the log line of src/observability/call-log.ts, the store's
-- events, the queue, stderr, the upstream), as one state, and what it asks of its surroundings, as
-- functions of a count of the questions asked so far.
use mcprelay.Base.{ℕ, suc, ◌-◌, String, Bool, Option, List, [], ◌∷◌, ◌++◌, leb, if◌then◌else◌}
use mcprelay.Base.Int.{ℤ, pos, negsuc}
use mcprelay.Json.{Value}
use mcprelay.Runtime.{Runtime}
use mcprelay.Config.{RelayConfig}
use mcprelay.Pipeline.Classify.{Thrown, ErrorCode}
use mcprelay.Queue.Record.{Caller, ServerTransport}
use mcprelay.Queue.Sqlite.{Db}

pub record TraceFields : Type 0 where
  pub traceparent : Option String
  pub tracestate : Option String
  pub baggage : Option String

pub data CallDecision : Type 0 where
  was_allowed was_denied was_failed was_cancelled : CallDecision

pub record LoggedError : Type 0 where
  pub message : String
  pub code : ErrorCode

-- `trace` without a field is left out of the line.
pub record CallLogEntry : Type 0 where
  pub timestamp : String
  pub correlation_id : String
  pub trace : TraceFields
  pub caller : Caller
  pub server : String
  pub tool : String
  pub decision : CallDecision
  pub latency_ms : ℤ
  pub request_bytes : ℕ
  pub response_bytes : ℕ
  pub attempt : ℕ
  pub error : Option LoggedError
  pub enforced : Option Bool

pub record CallEvent : Type 0 where
  pub correlation_id : String
  pub timestamp : String
  pub caller : Caller
  pub tool : String
  pub decision : CallDecision
  pub latency_ms : ℤ
  pub request_bytes : ℕ
  pub response_bytes : ℕ
  pub attempt : ℕ

pub record AuditEntry : Type 0 where
  pub kind : String
  pub correlation_id : String
  pub failure_id : Option String
  pub tool_name : String
  pub detail : Option Value

-- `sent` holds the parameters of every request that the upstream was given.
pub record World : Type 0 where
  pub asked : ℕ
  pub sent : List Value
  pub log : List CallLogEntry
  pub calls : List CallEvent
  pub audits : List AuditEntry
  pub queue : Db
  pub stderr : List String
  pub slept : List ℕ

pub data UpstreamReply : Type 0 where
  answered : Value → UpstreamReply
  rejected : Thrown → UpstreamReply

-- `store_failure` and `queue_failure` are the messages with which the store or the queue throws.
pub record Deps : Type 0 where
  pub runtime : Runtime
  pub config : RelayConfig
  pub server_name : String
  pub server_command : String
  pub kind : ServerTransport
  pub connected : ℕ → Bool
  pub reply : ℕ → Value → UpstreamReply
  pub aborted : ℕ → Bool
  pub iso_now : ℕ → String
  pub now_ms : ℕ → ℕ
  pub random_uuid : ℕ → String
  pub new_record_id : ℕ → String
  pub store_failure : ℕ → Option String
  pub queue_failure : ℕ → Option String
  pub draw : ℕ → ℕ → ℕ

-- One more question was asked.
abbrev pub ask : World → World
ask w = record w { asked = suc w.asked }

abbrev pub send : Value → World → World
send params w = record w { sent = w.sent ++ params ∷ [] }

abbrev pub write_stderr : String → World → World
write_stderr text w = record w { stderr = w.stderr ++ text ∷ [] }

abbrev pub sleep : ℕ → World → World
sleep ms w = record w { slept = w.slept ++ ms ∷ [] }

-- a - b
abbrev pub difference : ℕ → ℕ → ℤ
difference a b = if leb b a then pos (a - b) else negsuc (b - a - 1)
