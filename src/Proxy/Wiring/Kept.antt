-- ===== src/Proxy/Wiring/Kept.antt =====
-- What the relays of a bridge leave as it is, and how its stores are opened.
use mcprelay.Base.{
  ◌≡◌, refl, ◌⊎◌, inl, inr, Bool, true, false, String, Option, none, some, List, [], ◌∷◌, ◌++◌,
  ◌==◌, ◌∙◌, ap, arith, if◌then◌else◌,
}
use mcprelay.Json.{Fields}
use mcprelay.Config.{RelayConfig}
use mcprelay.Queue.Providers.{
  Adapter, Persistence, given, open_queue, get_queue, open_store, get_store, adapter_of, store_of,
}
use mcprelay.Proxy.Links.{Link, send_batch, link_connected, is_stdio}
use mcprelay.Proxy.Wiring.{
  Sdk, Notification, Request, BridgeState, has_relay, relay_client_batch, relay_upstream_batch,
  relay_client_notification, relay_upstream_notification, relay_upstream_request, keep_inventory,
  is_progress,
}

-- The stores that are open were opened one after the other, and none is closed.
abbrev pub IsOpened : Option Adapter → Option Adapter → List Adapter → Type 0
IsOpened queue store adapters =
    (adapters ≡ given queue ++ given store) ⊎ (adapters ≡ given store ++ given queue)

pub record IsKeeping (p : Persistence) : Type 0 where
  pub is_open : IsOpened p.queue p.store p.opened
  pub none_closed : p.closed ≡ []

one_open : (other : Option Adapter) → given other ++ [] ≡ given other
one_open none = refl
one_open (some a) = refl

open_queue-IsKeeping :
    (found : Option Adapter) (fresh : Adapter) (failure : Option String) (p : Persistence)
    → IsOpened found p.store p.opened
    → IsKeeping p
    → IsKeeping (open_queue found fresh failure p).1
open_queue-IsKeeping (some a) fresh failure p h k = k
open_queue-IsKeeping none fresh (some message) p h k = k
open_queue-IsKeeping none fresh none p h k = record {
  is_open = elim h [
    | inl e ↦ inr (ap (λ xs. xs ++ fresh ∷ []) e)
    | inr e ↦ inr (ap (λ xs. xs ++ fresh ∷ []) (e ∙ one_open p.store))
  ];
  none_closed = k.none_closed;
}

open_store-IsKeeping :
    (found : Option Adapter) (fresh : Adapter) (failure : Option String) (p : Persistence)
    → IsOpened p.queue found p.opened
    → IsKeeping p
    → IsKeeping (open_store found fresh failure p).1
open_store-IsKeeping (some a) fresh failure p h k = k
open_store-IsKeeping none fresh (some message) p h k = k
open_store-IsKeeping none fresh none p h k = record {
  is_open = elim h [
    | inl e ↦ inl (ap (λ xs. xs ++ fresh ∷ []) (e ∙ one_open p.queue))
    | inr e ↦ inl (ap (λ xs. xs ++ fresh ∷ []) e)
  ];
  none_closed = k.none_closed;
}

pub get_queue-IsKeeping :
    (config : RelayConfig) (failure : Option String) (p : Persistence)
    → IsKeeping p
    → IsKeeping (get_queue config failure p).1
unfolding get_queue
get_queue-IsKeeping config failure p k =
    open_queue-IsKeeping p.queue (adapter_of config.queue.provider config) failure p k.is_open k

pub get_store-IsKeeping :
    (config : RelayConfig) (failure : Option String) (p : Persistence)
    → IsKeeping p
    → IsKeeping (get_store config failure p).1
unfolding get_store
get_store-IsKeeping config failure p k =
    open_store-IsKeeping p.store (store_of config) failure p k.is_open k

-- What the relays leave as it is: the two sides, and what is done where they close.
pub record IsSame (b c : BridgeState) : Type 0 where
  pub closed : c.closed ≡ b.closed
  pub state : c.link.state ≡ b.link.state
  pub onclose : c.link.onclose ≡ b.link.onclose
  pub client : c.client ≡ b.client
  pub client_onclose : c.client_onclose ≡ b.client_onclose
  pub stores : IsKeeping b.persistence → IsKeeping c.persistence

pub same :
    (b c : BridgeState)
    → c.closed ≡ b.closed
    → c.link.state ≡ b.link.state
    → c.link.onclose ≡ b.link.onclose
    → c.client ≡ b.client
    → c.client_onclose ≡ b.client_onclose
    → (IsKeeping b.persistence → IsKeeping c.persistence)
    → IsSame b c
same b c h i j k l m = record {
  closed = h;
  state = i;
  onclose = j;
  client = k;
  client_onclose = l;
  stores = m;
}

IsSame-if :
    (test : Bool) (b c d : BridgeState) → IsSame b c → IsSame b d → IsSame b (if test then c else d)
IsSame-if true b c d s t = s
IsSame-if false b c d s t = t

send_batch-state :
    (line : String) (l : Link)
    → ((send_batch line l).state ≡ l.state) × ((send_batch line l).onclose ≡ l.onclose)
unfolding send_batch
send_batch-state line l = ground arith

pub batch-IsSame : (line : String) (b : BridgeState) → IsSame b (relay_client_batch line b)
unfolding relay_client_batch
batch-IsSame line b =
    let (state, onclose) = send_batch-state line b.link in
    IsSame-if (is_stdio b.link) b _ _ (same b _ refl state onclose refl refl (λ k. k))
      (same b _ refl refl refl refl refl (λ k. k))

pub upstream_batch-IsSame :
    (line : String) (b : BridgeState) → IsSame b (relay_upstream_batch line b)
unfolding relay_upstream_batch
upstream_batch-IsSame line b =
    IsSame-if (is_stdio b.link) b _ _ (same b _ refl refl refl refl refl (λ k. k))
      (same b _ refl refl refl refl refl (λ k. k))

pub notification-IsSame :
    (n : Notification) (failure : Option String) (b : BridgeState)
    → IsSame b (relay_client_notification n failure b)
unfolding relay_client_notification
notification-IsSame n none b =
    IsSame-if (link_connected b.link) b _ _ (same b _ refl refl refl refl refl (λ k. k))
      (same b _ refl refl refl refl refl (λ k. k))
notification-IsSame n (some message) b =
    IsSame-if (link_connected b.link) b _ _ (same b _ refl refl refl refl refl (λ k. k))
      (same b _ refl refl refl refl refl (λ k. k))

pub upstream_notification-IsSame :
    (sdk : Sdk) (n : Notification) (b : BridgeState)
    → IsSame b (relay_upstream_notification sdk n b)
unfolding relay_upstream_notification
upstream_notification-IsSame sdk n b =
    IsSame-if (is_progress n) b _ _ (same b _ refl refl refl refl refl (λ k. k))
      (same b _ refl refl refl refl refl (λ k. k))

answer-IsSame {ℓ} :
    {A : Type ℓ} (test : Bool) (b : BridgeState) (x y : A × BridgeState)
    → IsSame b x.1
    → IsSame b y.1
    → IsSame b (if test then x else y).1
answer-IsSame true b x y s t = s
answer-IsSame false b x y s t = t

pub request-IsSame : (r : Request) (b : BridgeState) → IsSame b (relay_upstream_request r b).1
unfolding relay_upstream_request
request-IsSame r b =
    let unchanged = same b b refl refl refl refl refl (λ k. k) in
    answer-IsSame (has_relay r) b _ _
      (answer-IsSame b.pinned b _ _ (same b _ refl refl refl refl refl (λ k. k)) unchanged)
      unchanged

pub inventory-IsSame :
    (method : String) (result : Fields) (b : BridgeState)
    → IsSame b (keep_inventory method result b)
unfolding keep_inventory
inventory-IsSame method result b =
    IsSame-if (method == "tools/list") b _ _ (same b _ refl refl refl refl refl (λ k. k))
      (same b _ refl refl refl refl refl (λ k. k))
