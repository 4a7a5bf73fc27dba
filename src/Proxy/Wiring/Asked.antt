-- ===== src/Proxy/Wiring/Asked.antt =====
-- The requests of the upstream that reach the client: none before there is one, each from then on.
use mathlib.Core.List.{append-nil}
use mcprelay.Base.{
  ◌≡◌, refl, sym, ◌∙◌, ap, Bool, true, false, String, Option, none, some, List, [], ◌∷◌, ◌++◌, ◌==◌,
  arith, if◌then◌else◌,
}
use mcprelay.Config.{RelayConfig}
use mcprelay.Proxy.Links.{link_connected, is_stdio}
use mcprelay.Proxy.Wiring.{
  Sdk, Notification, Request, BridgeState, relay_client_batch, relay_upstream_batch,
  relay_client_notification, relay_upstream_notification, relay_upstream_request, keep_inventory,
  is_progress,
}
use mcprelay.Proxy.Wiring.Start.{
  Occurrence, link_happens, client_happens, opened, client_batch, upstream_batch, client_notifies,
  upstream_notifies, upstream_asks, passed_through, uses_queue, uses_store, move_link, move_client,
  occur, occur_all,
}
use mcprelay.Proxy.Wiring.Relays.{requests, all}
use mcprelay.Proxy.Wiring.Relayed.{occur_all-relayed}

-- What follows the first time that a client is there.
abbrev pub from_opened : List Occurrence → List Occurrence
from_opened [] = []
from_opened (opened ∷ os) = os
from_opened (o ∷ os) = from_opened os

-- No client is there, and nothing was asked.
record IsUnasked (b c : BridgeState) : Type 0 where
  pub pinned : c.pinned ≡ false
  pub asked : c.client_asked ≡ b.client_asked

unasked :
    (b c : BridgeState)
    → b.pinned ≡ false
    → c.pinned ≡ b.pinned
    → c.client_asked ≡ b.client_asked
    → IsUnasked b c
unasked b c h p a = record { pinned = p ∙ h; asked = a }

IsUnasked-if :
    (test : Bool) (b c d : BridgeState)
    → IsUnasked b c
    → IsUnasked b d
    → IsUnasked b (if test then c else d)
IsUnasked-if true b c d h k = h
IsUnasked-if false b c d h k = k

notification-IsUnasked :
    (n : Notification) (failure : Option String) (b : BridgeState)
    → b.pinned ≡ false
    → IsUnasked b (relay_client_notification n failure b)
unfolding relay_client_notification
notification-IsUnasked n none b h =
    IsUnasked-if (link_connected b.link) b _ _ (unasked b _ h refl refl) (unasked b _ h refl refl)
notification-IsUnasked n (some message) b h =
    IsUnasked-if (link_connected b.link) b _ _ (unasked b _ h refl refl) (unasked b _ h refl refl)

request-IsUnasked :
    (r : Request) (b : BridgeState) → b.pinned ≡ false → IsUnasked b (relay_upstream_request r b).1
unfolding relay_upstream_request
request-IsUnasked r b h = unasked b _ h (ground (arith, h)) (ground (arith, h))

module _ (sdk : Sdk) (config : RelayConfig) where
  abbrev pub AsksAll : List Occurrence → BridgeState → Type 0
  AsksAll os b =
      (occur_all sdk config os b).client_asked ≡ b.client_asked ++ all requests (from_opened os)

  after_unasked :
      (os : List Occurrence) (b c : BridgeState)
      → IsUnasked b c
      → (c.pinned ≡ false → AsksAll os c)
      → (occur_all sdk config os c).client_asked ≡ b.client_asked ++ all requests (from_opened os)
  after_unasked os b c u h =
      h u.pinned ∙ ap (λ asked. asked ++ all requests (from_opened os)) u.asked

  pub occur_all-asked : (os : List Occurrence) (b : BridgeState) → b.pinned ≡ false → AsksAll os b
  unfolding occur_all occur move_link move_client relay_client_batch relay_upstream_batch
      relay_upstream_request relay_upstream_notification keep_inventory
  occur_all-asked [] b h = sym (append-nil b.client_asked)
  occur_all-asked (opened ∷ os) b h = (occur_all-relayed sdk config os _).requests refl
  occur_all-asked (link_happens k ∷ os) b h =
      after_unasked os b _ (unasked b _ h refl refl) (occur_all-asked os _)
  occur_all-asked (client_happens k ∷ os) b h =
      after_unasked os b _ (unasked b _ h refl refl) (occur_all-asked os _)
  occur_all-asked (client_batch line ∷ os) b h =
      after_unasked os b _
        (IsUnasked-if (is_stdio b.link) b _ _ (unasked b _ h refl refl) (unasked b _ h refl refl))
        (occur_all-asked os _)
  occur_all-asked (upstream_batch line ∷ os) b h =
      after_unasked os b _
        (IsUnasked-if (is_stdio b.link) b _ _ (unasked b _ h refl refl) (unasked b _ h refl refl))
        (occur_all-asked os _)
  occur_all-asked (client_notifies n failure ∷ os) b h =
      after_unasked os b _ (notification-IsUnasked n failure b h) (occur_all-asked os _)
  occur_all-asked (upstream_notifies n ∷ os) b h =
      after_unasked os b _
        (IsUnasked-if (is_progress n) b _ _ (unasked b _ h refl refl) (unasked b _ h refl refl))
        (occur_all-asked os _)
  occur_all-asked (upstream_asks r ∷ os) b h =
      after_unasked os b _ (request-IsUnasked r b h) (occur_all-asked os _)
  occur_all-asked (passed_through method result ∷ os) b h =
      after_unasked os b _
        (IsUnasked-if (method == "tools/list") b _ _ (unasked b _ h refl refl)
          (unasked b _ h refl refl))
        (occur_all-asked os _)
  occur_all-asked (uses_queue failure ∷ os) b h =
      after_unasked os b _ (unasked b _ h refl refl) (occur_all-asked os _)
  occur_all-asked (uses_store failure ∷ os) b h =
      after_unasked os b _ (unasked b _ h refl refl) (occur_all-asked os _)
