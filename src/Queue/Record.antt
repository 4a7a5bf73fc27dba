-- ===== src/Queue/Record.antt =====
-- src/queue/failure-record.ts: captured failures, filters, outcomes and executions.
use mcprelay.Base.{ℕ, String, Option}
use mcprelay.Json.{Value, Items}
use mcprelay.Pipeline.Classify.{RecordFailureClass}

pub data ReplayStatus : Type 0 where
  pending replayed discarded : ReplayStatus

pub data ServerTransport : Type 0 where
  stdio http : ServerTransport

pub record Caller : Type 0 where
  pub caller_type : ServerTransport
  pub identity : String

pub record ServerInfo : Type 0 where
  pub name : String
  pub command : String
  pub transport : ServerTransport

pub record ToolInfo : Type 0 where
  pub name : String
  pub arguments_hash : String
  pub arguments : Value

pub record FailureInfo : Type 0 where
  pub failure_class : RecordFailureClass
  pub message : String
  pub attempts : ℕ

-- `last_outcome` is null or a value.
pub record ReplayInfo : Type 0 where
  pub status : ReplayStatus
  pub attempts : Items
  pub last_outcome : Value

pub record FailureRecord : Type 0 where
  pub id : String
  pub correlation_id : String
  pub captured_at : String
  pub caller : Caller
  pub server : ServerInfo
  pub tool : ToolInfo
  pub failure : FailureInfo
  pub replay : ReplayInfo

pub record FailureFilter : Type 0 where
  pub status : Option ReplayStatus
  pub tool : Option String
  pub correlation_id : Option String
  pub since : Option String
  pub until : Option String
  pub limit : Option ℕ

-- The statuses that an outcome may have.
pub data FinalStatus : Type 0 where
  as_replayed as_discarded : FinalStatus

abbrev pub to_status : FinalStatus → ReplayStatus
to_status as_replayed = replayed
to_status as_discarded = discarded

pub record ReplayOutcome : Type 0 where
  pub status : FinalStatus
  pub attempts : Option Items
  pub last_outcome : Option Value

pub data Source : Type 0 where
  live replay : Source

pub record ExecutionEntry : Type 0 where
  pub key : String
  pub tool_name : String
  pub arguments_hash : String
  pub executed_at : String
  pub source : Source
