-- ===== src/Proxy/Wiring/Relayed.antt =====
-- What a bridge passes on to either side, whatever happens to it.
use mathlib.Core.List.{append_assoc, append-nil}
use mcprelay.Base.{
  ◌≡◌, refl, sym, ◌∙◌, ap, Bool, true, false, String, List, [], ◌∷◌, ◌++◌, ◌==◌, any, arith,
  if◌then◌else◌,
}
use mcprelay.Base.Parts.{nothing, IsPart-append}
use mcprelay.Base.Result.{Result, ok, err}
use mcprelay.Json.{Fields}
use mcprelay.Config.{RelayConfig}
use mcprelay.Proxy.Links.{is_stdio}
use mcprelay.Proxy.Wiring.{
  Sdk, Notification, Request, BridgeState, has_relay, relay_upstream_request, keep_inventory,
}
use mcprelay.Proxy.Wiring.Start.{
  Occurrence, link_happens, client_happens, opened, client_batch, upstream_batch, client_notifies,
  upstream_notifies, upstream_asks, passed_through, uses_queue, uses_store, move_link, move_client,
  occur, occur_all,
}
use mcprelay.Proxy.Wiring.Relays.{
  IsRelayed, to_client, from_client, requests, relayed_methods, all, happen_state-kind, quiet,
  client_batch-IsRelayed, upstream_batch-IsRelayed, upstream_notification-IsRelayed,
  client_notification-IsRelayed,
}

-- A request that has a relay is passed on, or refused.
asked-IsRelayed :
    (r : Request) (b : BridgeState) (pinned : Bool)
    → b.pinned ≡ pinned
    → IsRelayed b
        (if◌then◌else◌ {A = Result String (Unit {0}) × BridgeState} pinned
          (ok tt, record b { client_asked = b.client_asked ++ r ∷ [] })
          (err "no client connection", b)).1
        []
        []
        (r ∷ [])
asked-IsRelayed r b true p = record {
  kind = refl;
  client = sym (append-nil b.client_raw);
  http = λ e. refl;
  told = [];
  is_part = nothing;
  upstream = sym (append-nil b.upstream_told);
  pinned = λ e. e;
  requests = λ e. refl;
}
asked-IsRelayed r b false p = record {
  kind = refl;
  client = sym (append-nil b.client_raw);
  http = λ e. refl;
  told = [];
  is_part = nothing;
  upstream = sym (append-nil b.upstream_told);
  pinned = λ e. e;
  requests = λ e. absurd cc;
}

request-if :
    (listed : Bool) (r : Request) (b : BridgeState) (x y : Result String (Unit {0}) × BridgeState)
    → IsRelayed b x.1 [] [] (r ∷ [])
    → y.1 ≡ b
    → IsRelayed b (if listed then x else y).1 [] [] (if listed then r ∷ [] else [])
request-if true r b x y h k = h
request-if false r b x y h k = rw k (quiet b b refl refl refl refl refl (λ f. f))

has_relay_lem : (r : Request) → has_relay r ≡ any (λ m. r.method == m) relayed_methods
unfolding has_relay
has_relay_lem r = ground arith

request-IsRelayed :
    (r : Request) (b : BridgeState)
    → IsRelayed b (relay_upstream_request r b).1 [] [] (requests (upstream_asks r))
unfolding relay_upstream_request
request-IsRelayed r b =
    rw (← has_relay_lem r)
      (request-if (has_relay r) r b _ _ (asked-IsRelayed r b b.pinned refl) refl)

quiet-if :
    (test : Bool) (b c d : BridgeState)
    → IsRelayed b c [] [] []
    → IsRelayed b d [] [] []
    → IsRelayed b (if test then c else d) [] [] []
quiet-if true b c d h k = h
quiet-if false b c d h k = k

inventory-IsRelayed :
    (method : String) (result : Fields) (b : BridgeState)
    → IsRelayed b (keep_inventory method result b) [] [] []
unfolding keep_inventory
inventory-IsRelayed method result b =
    quiet-if (method == "tools/list") b _ _ (quiet b _ refl refl refl refl refl (λ f. f))
      (quiet b b refl refl refl refl refl (λ f. f))

module _ (sdk : Sdk) (config : RelayConfig) where
  occur-IsRelayed :
      (o : Occurrence) (b : BridgeState)
      → IsRelayed b
          (occur sdk config o b)
          (to_client sdk (is_stdio b.link) o)
          (from_client o)
          (requests o)
  unfolding occur move_link move_client
  occur-IsRelayed (link_happens h) b =
      quiet b _ (happen_state-kind h b.link.state) refl refl refl refl (λ f. f)
  occur-IsRelayed (client_happens h) b = quiet b _ refl refl refl refl refl (λ f. f)
  occur-IsRelayed opened b = quiet b _ refl refl refl refl refl (λ f. refl)
  occur-IsRelayed (client_batch line) b = client_batch-IsRelayed sdk line b
  occur-IsRelayed (upstream_batch line) b = upstream_batch-IsRelayed sdk line b
  occur-IsRelayed (client_notifies n failure) b = client_notification-IsRelayed n failure b
  occur-IsRelayed (upstream_notifies n) b = upstream_notification-IsRelayed sdk n b
  occur-IsRelayed (upstream_asks r) b = request-IsRelayed r b
  occur-IsRelayed (passed_through method result) b = inventory-IsRelayed method result b
  occur-IsRelayed (uses_queue failure) b = quiet b _ refl refl refl refl refl (λ f. f)
  occur-IsRelayed (uses_store failure) b = quiet b _ refl refl refl refl refl (λ f. f)

-- One list of additions after another.
pub adds {ℓ} :
    {A : Type ℓ} (xs : List A) {ys zs : List A} (ms ns : List A)
    → ys ≡ xs ++ ms
    → zs ≡ ys ++ ns
    → zs ≡ xs ++ (ms ++ ns)
adds xs ms ns h k = k ∙ ap (λ us. us ++ ns) h ∙ append_assoc xs ms ns

then_relayed :
    (b c d : BridgeState) (lines more : List String) (notes others : List Notification)
    (asked further : List Request)
    → IsRelayed b c lines notes asked
    → IsRelayed c d more others further
    → IsRelayed b d (lines ++ more) (notes ++ others) (asked ++ further)
then_relayed b c d lines more notes others asked further first second = record {
  kind = second.kind ∙ first.kind;
  client = adds b.client_raw lines more first.client second.client;
  http = λ e. second.http (first.kind ∙ e) ∙ first.http e;
  told = first.told ++ second.told;
  is_part = IsPart-append first.is_part second.is_part;
  upstream = adds b.upstream_told first.told second.told first.upstream second.upstream;
  pinned = λ e. second.pinned (first.pinned e);
  requests =
      λ e. adds b.client_asked asked further (first.requests e) (second.requests (first.pinned e));
}

pub occur_all-relayed :
    (sdk : Sdk) (config : RelayConfig) (os : List Occurrence) (b : BridgeState)
    → IsRelayed b
        (occur_all sdk config os b)
        (all (to_client sdk (is_stdio b.link)) os)
        (all from_client os)
        (all requests os)
unfolding occur_all
occur_all-relayed sdk config [] b = quiet b b refl refl refl refl refl (λ f. f)
occur_all-relayed sdk config (o ∷ os) b =
    let first = occur-IsRelayed sdk config o b in
    let rest = occur_all-relayed sdk config os (occur sdk config o b) in
    then_relayed b _ _ _ _ _ _ _ _ first (rw first.kind at rest)
