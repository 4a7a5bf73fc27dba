-- ===== src/Proxy/Links.antt =====
-- src/proxy/transports.ts, the two links to an upstream: what each passes on to its transport. The
-- transport over HTTP is the SDK's.
use mcprelay.Base.{
  Bool, true, false, not, ◌&&◌, ◌||◌, String, List, [], ◌∷◌, ◌++◌, ltb, if◌then◌else◌,
}
use mcprelay.Proxy.Run.{UpstreamTarget, stdio_target, http_target, Side}
use mcprelay.Proxy.Lifecycle.{
  Upstream, Happening, started, asked_to_close, fresh_upstream, connected, happen,
}

-- What a handler of `onclose` does: resolve the promise of the bridge, or what the SDK does.
pub data CloseAct : Type 0 where
  resolve_closed : Side → CloseAct
  sdk_closed : CloseAct

-- `told` is whether the SDK called the `onclose` of the transport over HTTP.
pub data LinkState : Type 0 where
  stdio_link : Upstream → LinkState
  http_link : (started closed told : Bool) → LinkState

pub record Link : Type 0 where
  pub state : LinkState
  pub onclose : List CloseAct
  -- The frames that were written to the transport, as they are.
  pub raw : List String

unfoldable pub create_upstream_link : UpstreamTarget → Link
create_upstream_link (stdio_target command args) = record {
  state = stdio_link fresh_upstream;
  onclose = [];
  raw = [];
}
create_upstream_link (http_target url headers) = record {
  state = http_link false false false;
  onclose = [];
  raw = [];
}

abbrev pub state_connected : LinkState → Bool
state_connected (stdio_link t) = connected t
state_connected (http_link is_started closed told) = is_started && not closed

abbrev pub link_connected : Link → Bool
link_connected l = state_connected l.state

abbrev pub state_is_stdio : LinkState → Bool
state_is_stdio (stdio_link t) = true
state_is_stdio (http_link s c told) = false

abbrev pub is_stdio : Link → Bool
is_stdio l = state_is_stdio l.state

unfoldable pub set_close_relay : List CloseAct → Link → Link
set_close_relay relay l = record l { onclose = relay }

-- To a child that was spawned; over HTTP, nothing is sent.
abbrev pub send_on : LinkState → String → Link → Link
send_on (stdio_link t) line l = if t.spawned then record l { raw = l.raw ++ line ∷ [] } else l
send_on (http_link s c told) line l = l

unfoldable pub send_batch : String → Link → Link
send_batch line l = send_on l.state line l

abbrev pub connect_state : LinkState → LinkState
connect_state (stdio_link t) = stdio_link (happen started t)
connect_state (http_link s closed told) = http_link true closed told

-- client.connect(transport) puts the SDK's own handler beside the one that is there (`chains`), or
-- in its place.
abbrev pub sdk_handlers : Bool → List CloseAct → List CloseAct
sdk_handlers chains acts = if chains then acts ++ sdk_closed ∷ [] else sdk_closed ∷ []

unfoldable pub connect_link : Bool → Link → Link
connect_link chains l = record l {
  state = connect_state l.state;
  onclose = sdk_handlers chains l.onclose;
}

-- What happens to the upstream: to the child process, or the SDK's transport ends.
pub data LinkHappening : Type 0 where
  child_happens : Happening → LinkHappening
  http_ended : LinkHappening

abbrev pub happen_state : LinkHappening → LinkState → LinkState
happen_state (child_happens h) (stdio_link t) = stdio_link (happen h t)
happen_state http_ended (http_link s c told) = http_link s c true
happen_state h state = state

-- `closed` of the link over HTTP is its own; `tells` is whether the SDK calls `onclose` at a close.
abbrev pub close_state : Bool → LinkState → LinkState
close_state tells (stdio_link t) = stdio_link (happen asked_to_close t)
close_state tells (http_link s c told) = http_link s true (told || tells)

-- Whether the handlers of `onclose` run where the first state becomes the second.
abbrev pub tells_close : LinkState → LinkState → Bool
tells_close (stdio_link t) (stdio_link u) = ltb t.ended u.ended
tells_close (http_link s c told) (http_link p d now_told) = now_told && not told
tells_close _ _ = false
