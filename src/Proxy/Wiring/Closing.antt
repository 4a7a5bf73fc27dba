-- ===== src/Proxy/Wiring/Closing.antt =====
-- How a bridge ends: which side its promise names, and what a close leaves.
use mcprelay.Base.{
  ◌≡◌, ◌≢◌, refl, inl, Bool, true, false, String, Option, none, some, List, ◌++◌, ap, arith,
}
use mcprelay.Base.Result.{ok}
use mcprelay.Base.Ensures.{Ensures, threw, gave, of_ok}
use mcprelay.Config.{RelayConfig}
use mcprelay.Queue.Providers.{given, close_persistence}
use mcprelay.Proxy.Run.{UpstreamTarget, stdio_target, http_target, Side}
use mcprelay.Proxy.Lifecycle.{ClientSide, asked_to_detach, happen, happen_client}
use mcprelay.Proxy.Links.{
  LinkState, stdio_link, http_link, create_upstream_link, set_close_relay, connect_link,
  link_connected, state_connected, close_state,
}
use mcprelay.Proxy.Wiring.{Sdk, BridgeState}
use mcprelay.Proxy.Wiring.Start.{
  Occurrence, move_link, move_client, start_bridge, after_connect, opened_bridge, wired_link,
  close_bridge, occur_all,
}
use mcprelay.Proxy.Wiring.Wired.{
  is_over, IsTold, IsWired, close_state-IsMove, move_link-IsWired, move_client-IsWired,
}
use mcprelay.Proxy.Wiring.Kept.{IsKeeping, IsOpened}
use mcprelay.Proxy.Wiring.Moves.{kept, occur_all-IsWired, occur_all-closed, occur_all-IsKeeping}

start-IsWired :
    (sdk : Sdk) (version : String) (target : UpstreamTarget)
    → sdk.client_chains ≡ true
    → IsWired sdk (opened_bridge sdk version (connect_link sdk.client_chains (wired_link target)))
unfolding connect_link set_close_relay create_upstream_link happen happen_client
start-IsWired sdk version (stdio_target command args) h = record {
  link_acts = rw h refl;
  client_acts = refl;
  settled_link = refl;
  settled_client = refl;
  told = (refl, refl);
}
start-IsWired sdk version (http_target url headers) h = record {
  link_acts = rw h refl;
  client_acts = refl;
  settled_link = tt;
  settled_client = refl;
  told = (refl, refl);
}

-- A bridge that has just been started, or to which anything has happened since.
abbrev IsRunning : Sdk → BridgeState → Type 0
IsRunning sdk b = IsWired sdk b × IsKeeping b.persistence

start-IsRunning :
    (failure : Option String) (sdk : Sdk) (version : String) (target : UpstreamTarget)
    → sdk.client_chains ≡ true
    → Ensures
        (IsRunning sdk)
        (after_connect failure sdk version (connect_link sdk.client_chains (wired_link target)))
start-IsRunning (some message) sdk version target h = threw message
start-IsRunning none sdk version target h =
    gave _ (start-IsWired sdk version target h, record { is_open = inl refl; none_closed = refl })

close_state-connected :
    (tells : Bool) (s : LinkState) → state_connected (close_state tells s) ≡ false
unfolding happen
close_state-connected tells (stdio_link t) = ground arith
close_state-connected tells (http_link s c told) = ground arith

detach-closed : (t : ClientSide) → (happen_client asked_to_detach t).closed ≡ true
unfolding happen_client
detach-closed t = ground arith

IsTold-closed :
    (closed : Option Side) (link client : Bool)
    → client ≡ true
    → IsTold closed link client
    → closed ≢ none
IsTold-closed none link client e (h, k) = absurd cc
IsTold-closed (some side) link client e h = λ f. cc

-- A close leaves nothing open: the link, the client and the stores, of which those are closed that
-- were opened.
pub record IsClosed (d : BridgeState) : Type 0 where
  pub link : link_connected d.link ≡ false
  pub client : d.client.closed ≡ true
  pub told : d.closed ≢ none
  pub opened : IsOpened d.persistence.queue d.persistence.store d.persistence.opened
  pub stores : d.persistence.closed ≡ given d.persistence.queue ++ given d.persistence.store

close_bridge-IsClosed :
    (sdk : Sdk) (b : BridgeState) → IsRunning sdk b → IsClosed (close_bridge sdk b)
unfolding close_bridge move_link move_client close_persistence
close_bridge-IsClosed sdk b (w, k) =
    let unlinked = move_link (close_state sdk.close_tells b.link.state) b in
    let linked =
      move_link-IsWired sdk _ b (close_state-IsMove sdk.close_tells b.link.state w.settled_link)
        w in
    let detached = move_client-IsWired sdk asked_to_detach unlinked linked in
    record {
      link = close_state-connected sdk.close_tells b.link.state;
      client = detach-closed b.client;
      told = IsTold-closed _ _ _ (detach-closed b.client) detached.told;
      opened = k.is_open;
      stores =
          ap (λ xs. xs ++ given b.persistence.queue ++ given b.persistence.store) k.none_closed;
    }

close_bridge-closed :
    (sdk : Sdk) (b : BridgeState) (side : Side)
    → b.closed ≡ some side
    → (close_bridge sdk b).closed ≡ some side
unfolding close_bridge move_link move_client
close_bridge-closed sdk b side e =
    kept _ b.client_onclose _ side (kept _ b.link.onclose b.closed side e)

-- What holds of a bridge whenever it is looked at, of what comes `later`, and of its close.
pub record IsEnding (sdk : Sdk) (config : RelayConfig) (later : List Occurrence) (b : BridgeState)
    : Type 0 where
  pub told : IsTold b.closed (is_over b.link.state) b.client.closed
  pub first :
      (side : Side) → b.closed ≡ some side → (occur_all sdk config later b).closed ≡ some side
  pub last : (side : Side) → b.closed ≡ some side → (close_bridge sdk b).closed ≡ some side
  pub closes : IsClosed (close_bridge sdk b)

-- Whatever has happened to a bridge since its start: its promise is open as long as neither side has
-- ended, and names a side that has ended otherwise; once it names a side it names that one for good,
-- whatever comes later, a close included. A close leaves the link disconnected, the client's transport
-- closed and the promise resolved, and closes the stores that were opened, each of them once. The
-- client of the SDK keeps the `onclose` that it finds on the transport.
pub start_bridge-IsEnding :
    (sdk : Sdk) (config : RelayConfig) (version : String) (target : UpstreamTarget)
    (before later : List Occurrence) (b : BridgeState)
    → sdk.client_chains ≡ true
    → start_bridge sdk version target ≡ ok b
    → IsEnding sdk config later (occur_all sdk config before b)
unfolding start_bridge
start_bridge-IsEnding sdk config version target before later b h e =
    let now = occur_all sdk config before b in
    let (w, k) = of_ok (start-IsRunning sdk.connect_failure sdk version target h) e in
    let wired = occur_all-IsWired sdk config before b w in
    record {
      told = wired.told;
      first = occur_all-closed sdk config later now;
      last = close_bridge-closed sdk now;
      closes = close_bridge-IsClosed sdk now (wired, occur_all-IsKeeping sdk config before b k);
    }
