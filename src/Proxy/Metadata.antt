-- ===== src/Proxy/Metadata.antt =====
-- src/proxy/bridge.ts, prepareCallMetadata and prepareCallContext: what a call is turned into before
-- it is decided on. The SDK lets a call through only if its `_meta` is an object or missing.
pub mod Laws
use mcprelay.Base.{
  ℕ, ◌+◌, String, Option, none, some, List, [], ◌∷◌, ◌==◌, codes, ltb, if◌then◌else◌,
}
use mcprelay.Base.Result.{Result, err, ok}
use mcprelay.Json.{Value, undefined, null, str, obj, Fields, no_prop, prop, get, get_value}
use mcprelay.Runtime.{Runtime}
use mcprelay.Config.{ToolPolicy, resolve_tool_policy}
use mcprelay.Identity.{resolve_identity, strip_credential_fields}
use mcprelay.Pipeline.Idempotency.{extract_idempotency_key}
use mcprelay.Queue.Record.{Caller, stdio}
use mcprelay.Proxy.World.{TraceFields, World, Deps, ask}

pub record CallMetadata : Type 0 where
  pub correlation_id : String
  pub progress_token : Value
  pub params : Fields
  pub trace : TraceFields

pub record CallContext : Type 0 where
  pub tool : String
  pub raw_arguments : Value
  pub idempotency_key : Option String
  pub policy : ToolPolicy
  pub metadata : CallMetadata
  pub request_bytes : ℕ
  pub started_at : ℕ
  pub caller : Caller

-- `{ ...fs, [key]: value }`
unfoldable pub put : String → Value → Fields → Fields
put key value no_prop = prop key value no_prop
put key value (prop k v fs) =
    let rest = put key value fs in if k == key then prop k value fs else prop k v rest

abbrev pub as_fields : Value → Fields
as_fields (obj fs) = fs
as_fields v = no_prop

abbrev as_text : Value → Option String
as_text (str s) = some s
as_text v = none

-- The bytes of a code point in UTF-8.
abbrev code_bytes : ℕ → ℕ
code_bytes c = if ltb c 0x80 then 1 else if ltb c 0x800 then 2 else if ltb c 0x10000 then 3 else 4

abbrev text_bytes : List ℕ → ℕ
text_bytes [] = 0
text_bytes (c ∷ cs) = code_bytes c + text_bytes cs

abbrev not_missing : Value → Value
not_missing undefined = null
not_missing v = v

unfoldable pub byte_length : Runtime → Value → ℕ
byte_length rt v = text_bytes (codes (rt.stringify (not_missing v)))

abbrev trace_of : Fields → TraceFields
trace_of meta = record {
  traceparent = as_text (get_value "traceparent" meta);
  tracestate = as_text (get_value "tracestate" meta);
  baggage = as_text (get_value "baggage" meta);
}

-- The metadata that is relayed: no credential, and the relay's own entry.
unfoldable pub relayed_meta : Runtime → String → Fields → Fields
unfolding put
relayed_meta rt id meta =
    put "mcprelay" (obj (prop "correlation_id" (str id) no_prop)) (strip_credential_fields rt meta)

unfoldable pub prepare_call_metadata : Runtime → String → Fields → CallMetadata
unfolding relayed_meta put
prepare_call_metadata rt id request_params =
    let meta = as_fields (get_value "_meta" request_params) in
    record {
      correlation_id = id;
      progress_token = get_value "progressToken" meta;
      params = put "_meta" (obj (relayed_meta rt id meta)) request_params;
      trace = trace_of meta;
    }

abbrev stdio_caller : String → Caller
stdio_caller identity = record { caller_type = stdio; identity = identity }

-- The caller of a call whose credential is refused is `unauthenticated`.
abbrev caller_of : Result String String → Caller
caller_of (ok identity) = stdio_caller identity
caller_of (err reason) = stdio_caller "unauthenticated"

-- The questions: the time, and the correlation id.
unfoldable pub prepare_call_context :
    Deps → String → Fields → World → (CallContext × Result String String) × World
unfolding byte_length prepare_call_metadata
prepare_call_context deps tool params w =
    let meta = get_value "_meta" params in
    let raw = get_value "arguments" params in
    let metadata = prepare_call_metadata deps.runtime (deps.random_uuid w.asked) params in
    let resolution = resolve_identity deps.config.identity meta in
    (
      (
        record {
          tool = tool;
          raw_arguments = raw;
          idempotency_key = extract_idempotency_key deps.runtime.string_of_number meta raw;
          policy = resolve_tool_policy deps.config.reliability tool;
          metadata = metadata;
          request_bytes = byte_length deps.runtime (obj metadata.params);
          started_at = deps.now_ms w.asked;
          caller = caller_of resolution;
        },
        resolution,
      ),
      ask w,
    )
