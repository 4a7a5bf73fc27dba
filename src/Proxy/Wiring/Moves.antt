-- ===== src/Proxy/Wiring/Moves.antt =====
-- What an occurrence does to the two sides of a bridge, and to its stores.
use mcprelay.Base.{◌≡◌, refl, Bool, true, false, Option, some, List, [], ◌∷◌, ◌∙◌, if◌then◌else◌}
use mcprelay.Config.{RelayConfig}
use mcprelay.Proxy.Run.{Side}
use mcprelay.Proxy.Lifecycle.{ClientHappening}
use mcprelay.Proxy.Links.{LinkHappening, CloseAct, resolve_closed, sdk_closed, happen_state}
use mcprelay.Proxy.Wiring.{Sdk, BridgeState, run_acts}
use mcprelay.Proxy.Wiring.Start.{
  Occurrence, link_happens, client_happens, opened, client_batch, upstream_batch, client_notifies,
  upstream_notifies, upstream_asks, passed_through, uses_queue, uses_store, move_link, move_client,
  occur, occur_all,
}
use mcprelay.Proxy.Wiring.Wired.{
  IsWired, happen_state-IsMove, move_link-IsWired, move_client-IsWired,
}
use mcprelay.Proxy.Wiring.Kept.{
  IsKeeping, IsSame, same, get_queue-IsKeeping, get_store-IsKeeping, batch-IsSame,
  upstream_batch-IsSame, notification-IsSame, upstream_notification-IsSame, request-IsSame,
  inventory-IsSame,
}

-- A promise that is resolved stays as it is.
run_acts-some : (acts : List CloseAct) (side : Side) → run_acts acts (some side) ≡ some side
unfolding run_acts
run_acts-some [] side = refl
run_acts-some (resolve_closed other ∷ acts) side = run_acts-some acts side
run_acts-some (sdk_closed ∷ acts) side = run_acts-some acts side

pub kept :
    (test : Bool) (acts : List CloseAct) (closed : Option Side) (side : Side)
    → closed ≡ some side
    → (if test then run_acts acts closed else closed) ≡ some side
kept true acts closed side h = rw h (run_acts-some acts side)
kept false acts closed side h = h

module _ (sdk : Sdk) (config : RelayConfig) where
  IsSame-IsWired : (b c : BridgeState) → IsSame b c → IsWired sdk b → IsWired sdk c
  IsSame-IsWired b c s w = record {
    link_acts = rw s.onclose w.link_acts;
    client_acts = rw s.client_onclose w.client_acts;
    settled_link = rw s.state w.settled_link;
    settled_client = rw s.client w.settled_client;
    told = rw (s.closed, s.state, s.client) w.told;
  }

  -- A happening of one side, or one that both sides are not changed by.
  data Moves (b : BridgeState) : BridgeState → Type 0 where
    link_moves : (h : LinkHappening) → Moves b (move_link (happen_state h b.link.state) b)
    client_moves : (h : ClientHappening) → Moves b (move_client h b)
    stays : {c : BridgeState} → IsSame b c → Moves b c

  occur-Moves : (o : Occurrence) (b : BridgeState) → Moves b (occur sdk config o b)
  unfolding occur
  occur-Moves (link_happens h) b = link_moves h
  occur-Moves (client_happens h) b = client_moves h
  occur-Moves opened b = stays (same b _ refl refl refl refl refl (λ k. k))
  occur-Moves (client_batch line) b = stays (batch-IsSame line b)
  occur-Moves (upstream_batch line) b = stays (upstream_batch-IsSame line b)
  occur-Moves (client_notifies n failure) b = stays (notification-IsSame n failure b)
  occur-Moves (upstream_notifies n) b = stays (upstream_notification-IsSame sdk n b)
  occur-Moves (upstream_asks r) b = stays (request-IsSame r b)
  occur-Moves (passed_through method result) b = stays (inventory-IsSame method result b)
  occur-Moves (uses_queue failure) b =
      stays (same b _ refl refl refl refl refl (get_queue-IsKeeping config failure b.persistence))
  occur-Moves (uses_store failure) b =
      stays (same b _ refl refl refl refl refl (get_store-IsKeeping config failure b.persistence))

  moves-IsWired : {b c : BridgeState} → Moves b c → IsWired sdk b → IsWired sdk c
  moves-IsWired {b} (link_moves h) w =
      move_link-IsWired sdk _ b (happen_state-IsMove h b.link.state w.settled_link) w
  moves-IsWired {b} (client_moves h) w = move_client-IsWired sdk h b w
  moves-IsWired {b} {c} (stays s) w = IsSame-IsWired b c s w

  moves-closed :
      {b c : BridgeState} (side : Side) → Moves b c → b.closed ≡ some side → c.closed ≡ some side
  unfolding move_link move_client
  moves-closed {b} side (link_moves h) e = kept _ b.link.onclose b.closed side e
  moves-closed {b} side (client_moves h) e = kept _ b.client_onclose b.closed side e
  moves-closed side (stays s) e = s.closed ∙ e

  pub occur_all-IsWired :
      (os : List Occurrence) (b : BridgeState)
      → IsWired sdk b
      → IsWired sdk (occur_all sdk config os b)
  unfolding occur_all
  occur_all-IsWired [] b w = w
  occur_all-IsWired (o ∷ os) b w = occur_all-IsWired os _ (moves-IsWired (occur-Moves o b) w)

  pub occur_all-closed :
      (os : List Occurrence) (b : BridgeState) (side : Side)
      → b.closed ≡ some side
      → (occur_all sdk config os b).closed ≡ some side
  unfolding occur_all
  occur_all-closed [] b side e = e
  occur_all-closed (o ∷ os) b side e =
      occur_all-closed os _ side (moves-closed side (occur-Moves o b) e)

  moves-IsKeeping :
      {b c : BridgeState} → Moves b c → IsKeeping b.persistence → IsKeeping c.persistence
  unfolding move_link move_client
  moves-IsKeeping (link_moves h) k = k
  moves-IsKeeping (client_moves h) k = k
  moves-IsKeeping (stays s) k = s.stores k

  pub occur_all-IsKeeping :
      (os : List Occurrence) (b : BridgeState)
      → IsKeeping b.persistence
      → IsKeeping (occur_all sdk config os b).persistence
  unfolding occur_all
  occur_all-IsKeeping [] b k = k
  occur_all-IsKeeping (o ∷ os) b k = occur_all-IsKeeping os _ (moves-IsKeeping (occur-Moves o b) k)
