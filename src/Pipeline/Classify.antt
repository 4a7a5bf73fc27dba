-- ===== src/Pipeline/Classify.antt =====
-- src/pipeline/classify.ts: the failure taxonomy, and failureClassFromD4 of
-- src/queue/failure-record.ts, which maps it to the persisted classes.
-- A thrown value is what the code reads of it: its classes by `instanceof`, name, message, code.
pub mod Laws
use mcprelay.Base.{
  ℕ, String, Bool, true, false, ◌&&◌, ◌||◌, Option, none, some, List, [], ◌∷◌, ◌==◌, nat_eq, any,
  if◌then◌else◌,
}
use mcprelay.Base.Int.{negsuc}
use mcprelay.Json.{Number, dyadic, num_eq, Value, bool, str, obj, arr, get_value}

pub data FailureClass : Type 0 where
  ok transport_pre_execution transport_post_execution timeout upstream_error : FailureClass
  non_retryable tool_error input_required cancelled : FailureClass

pub data FailurePhase : Type 0 where
  pre_send post_send timed_out cancel : FailurePhase

pub data SdkErrorCode : Type 0 where
  not_connected send_failed connection_closed request_timeout other_code : SdkErrorCode

pub data ErrorCode : Type 0 where
  absent : ErrorCode
  numeric : Number → ErrorCode
  sdk : SdkErrorCode → ErrorCode

-- `instance` flags: Error, ProtocolError, SdkError, SdkHttpError, TypeError.
pub record Thrown : Type 0 where
  pub is_error : Bool
  pub is_protocol : Bool
  pub is_sdk : Bool
  pub is_http : Bool
  pub is_type_error : Bool
  pub name : String
  -- `error instanceof Error ? error.message : String(error)`
  pub message : String
  pub code : ErrorCode
  pub status : ℕ

pub data AttemptOutcome : Type 0 where
  result : Value → AttemptOutcome
  error : Thrown → FailurePhase → AttemptOutcome

pub record ClassifiedAttempt : Type 0 where
  pub failure_class : FailureClass
  pub retry : Bool

abbrev pub classified : FailureClass → Bool → ClassifiedAttempt
classified c r = record { failure_class = c; retry = r }

-- -32700, -32600, -32601, -32602
abbrev non_retryable_protocol_codes : List Number
non_retryable_protocol_codes =
    dyadic (negsuc 32699) 0
    ∷ dyadic (negsuc 32599) 0
    ∷ dyadic (negsuc 32600) 0
    ∷ dyadic (negsuc 32601) 0
    ∷ []

is_non_retryable : Number → Bool
is_non_retryable n = any (num_eq n) non_retryable_protocol_codes

abbrev number_of : ErrorCode → Option Number
number_of (numeric n) = some n
number_of _ = none

numeric_error_code : Thrown → Option Number
numeric_error_code e = if e.is_protocol then number_of e.code else number_of e.code

abbrev sdk_of : ErrorCode → Option SdkErrorCode
sdk_of (sdk c) = some c
sdk_of _ = none

sdk_error_code : Thrown → Option SdkErrorCode
sdk_error_code e = if e.is_sdk then sdk_of e.code else none

-- `isRecord(result) && result.isError === true`; here an array is a record too
abbrev is_error_flag : Value → Bool
is_error_flag (bool b) = b
is_error_flag _ = false

abbrev is_input_required : Value → Bool
is_input_required (str s) = s == "input_required"
is_input_required _ = false

classify_result : Value → ClassifiedAttempt
classify_result (obj fs) =
    if is_error_flag (get_value "isError" fs)
    then classified tool_error false
    else if is_input_required (get_value "resultType" fs)
    then classified input_required false
    else classified ok false
classify_result _ = classified ok false

classify_http : Thrown → Bool → ClassifiedAttempt
classify_http e idempotent =
    if e.is_http
    then (if nat_eq e.status 401 || nat_eq e.status 403
        then classified non_retryable false
        else classified transport_post_execution idempotent)
    else classified non_retryable false

classify_sdk : Option SdkErrorCode → Thrown → Bool → ClassifiedAttempt
unfolding classify_http
classify_sdk (some not_connected) e idempotent = classified transport_pre_execution true
classify_sdk (some send_failed) e idempotent = classified transport_pre_execution true
classify_sdk (some connection_closed) e idempotent = classified transport_post_execution idempotent
classify_sdk _ e idempotent = classify_http e idempotent

classify_code : Option Number → Thrown → Bool → ClassifiedAttempt
unfolding classify_sdk sdk_error_code is_non_retryable
classify_code (some n) e idempotent =
    if is_non_retryable n
    then classified non_retryable false
    else classified upstream_error idempotent
classify_code none e idempotent = classify_sdk (sdk_error_code e) e idempotent

-- The policy is its one field, `idempotent`.
unfoldable pub classify_attempt : AttemptOutcome → Bool → ClassifiedAttempt
unfolding classify_result classify_code numeric_error_code
classify_attempt (result r) idempotent = classify_result r
classify_attempt (error e cancel) idempotent = classified cancelled false
classify_attempt (error e timed_out) idempotent = classified timeout idempotent
classify_attempt (error e pre_send) idempotent = classified transport_pre_execution true
classify_attempt (error e post_send) idempotent = classify_code (numeric_error_code e) e idempotent

pub data RecordFailureClass : Type 0 where
  transport timeout_class upstream_class non_retryable_class tool_class : RecordFailureClass

unfoldable pub failure_class_from_d4 : FailureClass → Option RecordFailureClass
failure_class_from_d4 transport_pre_execution = some transport
failure_class_from_d4 transport_post_execution = some transport
failure_class_from_d4 timeout = some timeout_class
failure_class_from_d4 upstream_error = some upstream_class
failure_class_from_d4 non_retryable = some non_retryable_class
failure_class_from_d4 tool_error = some tool_class
failure_class_from_d4 _ = none
