-- ===== src/Proxy/Wiring.antt =====
-- src/proxy/bridge.ts, startBridge and the relays that it sets up: batches, notifications, requests
-- of the upstream, the requests that are passed through, and the two sides' closing.
pub mod Start
pub mod Wired
pub mod Kept
pub mod Moves
pub mod Closing
pub mod Relays
pub mod Relayed
pub mod Asked
pub mod Exchange
mod Tests
use mcprelay.Base.{
  ℕ, String, Bool, true, false, ◌||◌, Option, none, some, List, [], ◌∷◌, ◌++◌, ◌==◌, concat, map,
  units, if◌then◌else◌,
}
use mcprelay.Base.Result.{Result, err, ok}
use mcprelay.Json.{Value, Fields, undefined, obj, get as get_field, get_value}
use mcprelay.Queue.Providers.{Persistence}
use mcprelay.Proxy.Metadata.{put}
use mcprelay.Proxy.Run.{UpstreamTarget, stdio_target, http_target, Side}
use mcprelay.Proxy.Lifecycle.{ClientSide}
use mcprelay.Proxy.Session.{Implementation, SessionContext, record_tool_inventory}
use mcprelay.Proxy.Links.{
  Link, CloseAct, resolve_closed, sdk_closed, send_batch, link_connected, is_stdio,
}
use mcprelay.Replay.CommandLine.{quote_command_line}

pub record Notification : Type 0 where
  pub method : String
  pub params : Value

-- A request of the one side that is put to the other.
pub record Request : Type 0 where
  pub method : String
  pub params : Value

-- What the SDK does and answers: why its client does not connect, whether its client and its server
-- call the `onclose` that they replace, whether its transport over HTTP calls it at a close, what the
-- upstream told of itself, and the text of a message.
pub record Sdk : Type 0 where
  pub connect_failure : Option String
  pub client_chains : Bool
  pub server_chains : Bool
  pub close_tells : Bool
  pub server_version : Option Implementation
  pub capabilities : Option Value
  pub protocol_version : Option String
  pub instructions : Option String
  pub serialize : Notification → String

-- A bridge: its `closed` promise, the two transports, and all that was passed on to either side.
-- `pinned` is whether there is a server that faces the client.
pub record BridgeState : Type 0 where
  pub closed : Option Side
  pub link : Link
  pub client : ClientSide
  pub client_onclose : List CloseAct
  pub pinned : Bool
  pub session : SessionContext
  pub persistence : Persistence
  -- The lines that were written to the client as they are.
  pub client_raw : List String
  pub client_asked : List Request
  pub upstream_told : List Notification
  pub stderr : List String

-- A promise is resolved once.
abbrev pub resolve_with : Side → Option Side → Option Side
resolve_with side none = some side
resolve_with side (some first) = some first

abbrev pub run_act : CloseAct → Option Side → Option Side
run_act (resolve_closed side) closed = resolve_with side closed
run_act sdk_closed closed = closed

unfoldable pub run_acts : List CloseAct → Option Side → Option Side
run_acts [] closed = closed
run_acts (act ∷ acts) closed = run_acts acts (run_act act closed)

abbrev pub batch_unsupported : String
batch_unsupported =
    "{\"jsonrpc\":\"2.0\",\"id\":null,\"error\":{\"code\":-32600,\"message\":\"JSON-RPC batch frames are not supported over an HTTP upstream\"}}"

abbrev pub send_raw : String → BridgeState → BridgeState
send_raw line b = record b { client_raw = b.client_raw ++ line ∷ [] }

-- relayBatchFrames, the handler of the client's batches: over HTTP the client is answered.
unfoldable pub relay_client_batch : String → BridgeState → BridgeState
relay_client_batch line b =
    if is_stdio b.link
    then record b { link = send_batch line b.link }
    else send_raw batch_unsupported b

-- The relay that setBatchRelay keeps; the link over HTTP keeps none.
unfoldable pub relay_upstream_batch : String → BridgeState → BridgeState
relay_upstream_batch line b = if is_stdio b.link then send_raw line b else b

-- relayClientNotifications; `failure` is why the SDK does not send the notification.
unfoldable pub relay_client_notification : Notification → Option String → BridgeState → BridgeState
relay_client_notification n failure b =
    if link_connected b.link
    then elim failure [
      | none ↦ record b { upstream_told = b.upstream_told ++ n ∷ [] }
      | some message ↦ record b {
        stderr =
            b.stderr ++ concat ("mcprelay: notification relay failed: " ∷ message ∷ "\n" ∷ []) ∷ [];
      }
    ]
    else b

abbrev pub is_progress : Notification → Bool
is_progress n = n.method == "notifications/progress"

unfoldable pub relay_upstream_notification : Sdk → Notification → BridgeState → BridgeState
relay_upstream_notification sdk n b = if is_progress n then b else send_raw (sdk.serialize n) b

-- Whether registerServerToClientRequestRelays sets up a relay for the request.
unfoldable pub has_relay : Request → Bool
has_relay r =
    r.method == "sampling/createMessage"
    || r.method == "elicitation/create"
    || r.method == "roots/list"

-- The handlers of the upstream's requests; any other request the SDK's client answers by itself.
unfoldable pub relay_upstream_request :
    Request → BridgeState → Result String (Unit {0}) × BridgeState
unfolding has_relay
relay_upstream_request r b =
    if has_relay r
    then if b.pinned
      then (ok tt, record b { client_asked = b.client_asked ++ r ∷ [] })
      else (err "no client connection", b)
    else (err "Method not found", b)

-- relayPassthroughRequest, once the upstream has answered.
unfoldable pub keep_inventory : String → Fields → BridgeState → BridgeState
keep_inventory method result b =
    if method == "tools/list"
    then record b { session = record_tool_inventory (get_field "tools" result) b.session }
    else b

abbrev token_in : Value → Value
token_in (obj meta) = get_value "progressToken" meta
token_in meta = undefined

unfoldable pub progress_token_of : Value → Value
progress_token_of (obj params) = token_in (get_value "_meta" params)
progress_token_of params = undefined

-- createRelayRequest: the options of a request. `progress_token` is there where progress is relayed.
pub record RequestOptions : Type 0 where
  pub timeout : Option ℕ
  pub progress_token : Option Value

abbrev pub defined : Value → Option Value
defined undefined = none
defined token = some token

unfoldable pub relay_options : Option ℕ → Value → RequestOptions
relay_options timeout_ms progress_token = record {
  timeout = timeout_ms;
  progress_token = defined progress_token;
}

-- The progress that is told to the client, under the token that it gave.
unfoldable pub relayed_progress : Fields → Value → Notification
relayed_progress progress token = record {
  method = "notifications/progress";
  params = obj (put "progressToken" token progress);
}

unfoldable pub server_command_of : UpstreamTarget → List ℕ
server_command_of (stdio_target command args) = quote_command_line (units command) (map units args)
server_command_of (http_target url headers) = units url
