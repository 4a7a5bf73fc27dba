-- ===== src/Proxy/Wiring/Exchange.antt =====
-- What passes between the two sides of a bridge: what is written to a child, and the rest.
use mcprelay.Base.{◌≡◌, Bool, true, false, String, List, [], ◌∷◌, ◌++◌}
use mcprelay.Base.Parts.{IsPart}
use mcprelay.Proxy.Links.{LinkState, stdio_link, http_link, is_stdio}
use mcprelay.Proxy.Wiring.{Sdk, BridgeState}
use mcprelay.Proxy.Wiring.Start.{Occurrence, client_batch}
use mcprelay.Proxy.Wiring.Relays.{to_client, from_client, requests, all}
use mcprelay.Base.Ensures.{Ensures}
use mcprelay.Proxy.Run.{UpstreamTarget, stdio_target, http_target}
use mcprelay.Proxy.Wiring.Asked.{from_opened}

-- Over stdio, with a child that was spawned.
abbrev pub is_spawned : LinkState → Bool
is_spawned (stdio_link t) = t.spawned
is_spawned (http_link s c told) = false

abbrev pub batches : Occurrence → List String
batches (client_batch line) = line ∷ []
batches _ = []

-- What is written to the child.
record IsWritten (b c : BridgeState) (lines : List String) : Type 0 where
  pub spawned : is_spawned c.link.state ≡ true
  pub raw : c.link.raw ≡ b.link.raw ++ lines

abbrev pub is_stdio_target : UpstreamTarget → Bool
is_stdio_target (stdio_target command args) = true
is_stdio_target (http_target url headers) = false

-- A bridge that has passed nothing on yet.
record IsFresh (target : UpstreamTarget) (b : BridgeState) : Type 0 where
  pub kind : is_stdio b.link ≡ is_stdio_target target
  pub spawned : is_spawned b.link.state ≡ is_stdio_target target
  pub raw : b.link.raw ≡ []
  pub client : b.client_raw ≡ []
  pub told : b.upstream_told ≡ []
  pub asked : b.client_asked ≡ []
  pub pinned : b.pinned ≡ false

-- The batches that go to a child as they are: all over stdio, none over HTTP.
abbrev to_child : Bool → List Occurrence → List String
to_child true os = all batches os
to_child false os = []

-- All that a bridge has passed on after some occurrences.
pub record IsExchange (sdk : Sdk) (stdio : Bool) (os : List Occurrence) (c : BridgeState)
    : Type 0 where
  pub client : c.client_raw ≡ all (to_client sdk stdio) os
  pub child : c.link.raw ≡ to_child stdio os
  pub told : IsPart c.upstream_told (all from_client os)
  pub asked : c.client_asked ≡ all requests (from_opened os)
