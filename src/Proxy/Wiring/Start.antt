-- ===== src/Proxy/Wiring/Start.antt =====
-- src/proxy/bridge.ts: startBridge, what happens to the bridge after it, and closeBridge.
use mcprelay.Base.{
  String, Bool, true, false, Option, none, some, List, [], ◌∷◌, ◌++◌, ltb, if◌then◌else◌,
}
use mcprelay.Base.Result.{Result, err, ok}
use mcprelay.Json.{Fields}
use mcprelay.Config.{RelayConfig}
use mcprelay.Queue.Providers.{no_persistence, get_queue, get_store, close_persistence}
use mcprelay.Proxy.Run.{UpstreamTarget, client_side, upstream_side}
use mcprelay.Proxy.Lifecycle.{
  ClientSide, ClientHappening, attached_stdin, asked_to_detach, happen_client,
}
use mcprelay.Proxy.Session.{SessionContext, create_session_context}
use mcprelay.Proxy.Links.{
  Link, LinkState, LinkHappening, CloseAct, resolve_closed, sdk_closed, create_upstream_link,
  set_close_relay, connect_link, happen_state, close_state, tells_close,
}
use mcprelay.Proxy.Wiring.{
  Sdk, Notification, Request, BridgeState, run_acts, relay_client_batch, relay_upstream_batch,
  relay_client_notification, relay_upstream_notification, relay_upstream_request, keep_inventory,
}

abbrev fresh_client : ClientSide
fresh_client = record { attached = false; closed = false; ended = 0 }

-- wireCloseSignals, on the link.
abbrev pub wired_link : UpstreamTarget → Link
wired_link target =
    set_close_relay (resolve_closed upstream_side ∷ []) (create_upstream_link target)

-- wireCloseSignals, serveStdio and chainClientClose, on the client's `onclose`: serveStdio sets its own
-- handler before it returns.
abbrev pub served : Bool → List CloseAct → List CloseAct
served chains acts = if chains then sdk_closed ∷ acts else sdk_closed ∷ []

abbrev pub client_handlers : Sdk → List CloseAct
client_handlers sdk =
    served sdk.server_chains (resolve_closed client_side ∷ []) ++ resolve_closed client_side ∷ []

-- captureSessionContext
abbrev pub capture_session_context : Sdk → String → SessionContext
capture_session_context sdk version =
    create_session_context sdk.server_version sdk.capabilities sdk.protocol_version sdk.instructions
      (record { name = "mcprelay"; version = version })

abbrev pub opened_bridge : Sdk → String → Link → BridgeState
opened_bridge sdk version link = record {
  closed = none;
  link = link;
  client = happen_client attached_stdin fresh_client;
  client_onclose = client_handlers sdk;
  pinned = false;
  session = capture_session_context sdk version;
  persistence = no_persistence;
  client_raw = [];
  client_asked = [];
  upstream_told = [];
  stderr = [];
}

-- The upstream is connected first; where that throws, the client is not served.
abbrev pub after_connect : Option String → Sdk → String → Link → Result String BridgeState
after_connect (some message) sdk version link = err message
after_connect none sdk version link = ok (opened_bridge sdk version link)

unfoldable pub start_bridge : Sdk → String → UpstreamTarget → Result String BridgeState
unfolding create_upstream_link set_close_relay connect_link create_session_context happen_client
start_bridge sdk version target =
    after_connect sdk.connect_failure sdk version
      (connect_link sdk.client_chains (wired_link target))

-- The link in its new state, its `onclose` called where it closes.
unfoldable pub move_link : LinkState → BridgeState → BridgeState
unfolding run_acts
move_link state b = record b {
  link = record b.link { state = state };
  closed = if tells_close b.link.state state then run_acts b.link.onclose b.closed else b.closed;
}

unfoldable pub move_client : ClientHappening → BridgeState → BridgeState
unfolding run_acts happen_client
move_client h b =
    let client = happen_client h b.client in
    record b {
      client = client;
      closed =
          if ltb b.client.ended client.ended then run_acts b.client_onclose b.closed else b.closed;
    }

-- closeBridge: the link, the SDK's client and server, the client's transport, the stores.
unfoldable pub close_bridge : Sdk → BridgeState → BridgeState
unfolding move_link move_client close_persistence
close_bridge sdk b =
    let unlinked = move_link (close_state sdk.close_tells b.link.state) b in
    let detached = move_client asked_to_detach unlinked in
    record detached { persistence = close_persistence detached.persistence }

-- What may happen to a bridge that was started. `opened` is a call of the factory for the server
-- that faces the client; a `failure` is what the SDK or the constructor of a store throws.
pub data Occurrence : Type 0 where
  link_happens : LinkHappening → Occurrence
  client_happens : ClientHappening → Occurrence
  opened : Occurrence
  client_batch upstream_batch : String → Occurrence
  client_notifies : Notification → (failure : Option String) → Occurrence
  upstream_notifies : Notification → Occurrence
  upstream_asks : Request → Occurrence
  passed_through : (method : String) (result : Fields) → Occurrence
  uses_queue uses_store : (failure : Option String) → Occurrence

unfoldable pub occur : Sdk → RelayConfig → Occurrence → BridgeState → BridgeState
unfolding move_link move_client relay_client_batch relay_upstream_batch relay_client_notification
    relay_upstream_notification relay_upstream_request keep_inventory get_queue get_store
occur sdk config (link_happens h) b = move_link (happen_state h b.link.state) b
occur sdk config (client_happens h) b = move_client h b
occur sdk config opened b = record b { pinned = true }
occur sdk config (client_batch line) b = relay_client_batch line b
occur sdk config (upstream_batch line) b = relay_upstream_batch line b
occur sdk config (client_notifies n failure) b = relay_client_notification n failure b
occur sdk config (upstream_notifies n) b = relay_upstream_notification sdk n b
occur sdk config (upstream_asks r) b = (relay_upstream_request r b).1
occur sdk config (passed_through method result) b = keep_inventory method result b
occur sdk config (uses_queue failure) b = record b {
  persistence = (get_queue config failure b.persistence).1;
}
occur sdk config (uses_store failure) b = record b {
  persistence = (get_store config failure b.persistence).1;
}

unfoldable pub occur_all : Sdk → RelayConfig → List Occurrence → BridgeState → BridgeState
unfolding occur
occur_all sdk config [] b = b
occur_all sdk config (o ∷ os) b = occur_all sdk config os (occur sdk config o b)
